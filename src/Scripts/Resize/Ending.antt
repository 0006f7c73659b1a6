-- ===== src/Scripts/Resize/Ending.antt =====
-- Which icons the script writes before it ends.
use search_every.Prelude.{
  ℕ, List, [], ◌∷◌, Text, Option, none, some, ◌≡◌, ◌⊎◌, inl, inr, refl, ap, ◌∙◌, map, Option-cases,
}
use search_every.Scripts.Files.{
  Buffer, Disk, Run, throws, attempt, ensure_dir, icon_name, ◌>>=◌, ◌>>◌, written, exit_status,
}
use search_every.Scripts.Files.Jobs.{
  Job, Leaves, run_job, run_jobs, run_jobs-Leaves, behind-nil, after_dir,
}
use search_every.Scripts.Resize.{Codec, load_base, write_icon, write_icons, sizes, main}

abbrev encoded : Codec → Option Buffer → Option Buffer
encoded c none = none
encoded c (some resized) = c.png_to_ico resized

-- The icon of one size, by the two libraries.
abbrev pub icon_of : Codec → Buffer → ℕ → Option Buffer
icon_of c base size = encoded c (c.resize base size)

abbrev pub icon_jobs : Codec → Buffer → List ℕ → List Job
icon_jobs c base = map (λ size. (icon_name size, icon_of c base size))

-- Without a picture, or a directory that is there or can be made, nothing is written; with a picture,
-- its icons are.
pub data ScriptEnds (c : Codec) (d : Disk) (files : List (Text × Buffer)) (status : ℕ)
    : Type 0 where
  nothing :
      (ensure_dir d ≡ throws []) ⊎ (load_base c d ≡ none)
      → files ≡ []
      → status ≡ 1
      → ScriptEnds c d files status
  icons :
      (base : Buffer)
      → load_base c d ≡ some base
      → Leaves d (icon_jobs c base sizes) files status
      → ScriptEnds c d files status

module _ (c : Codec) (d : Disk) where
  write_icon_job :
      (base : Buffer) (size : ℕ)
      → write_icon c d base size ≡ run_job d (icon_name size, icon_of c base size)
  unfolding write_icon
  write_icon_job base size = elim (Option-cases (c.resize base size)) [
    | inl e ↦ rw e refl
    | inr (r, e) ↦ rw e (behind-nil d (run_job d (icon_name size, c.png_to_ico r)))
  ]

  write_icons_jobs :
      (base : Buffer) (ss : List ℕ) → write_icons c d base ss ≡ run_jobs d (icon_jobs c base ss)
  unfolding write_icons
  write_icons_jobs base [] = refl
  write_icons_jobs base (size ∷ ss) =
      ap (λ m. m >> write_icons c d base ss) (write_icon_job base size)
      ∙ ap (λ k. run_job d (icon_name size, icon_of c base size) >> k) (write_icons_jobs base ss)

  after_base : Run (Unit {0})
  after_base = attempt (load_base c d) >>= λ base. write_icons c d base sizes

  after_base-ScriptEnds : ScriptEnds c d (written after_base) (exit_status after_base)
  unfolding after_base
  after_base-ScriptEnds = elim (Option-cases (load_base c d)) [
    | inl n ↦ rw n (nothing (inr n) refl refl)
    | inr (base, b) ↦
        rw (b, behind-nil d (write_icons c d base sizes), write_icons_jobs base sizes)
          (icons base b (run_jobs-Leaves d (icon_jobs c base sizes)))
  ]

  -- The script writes an icon of its name for each of the four sizes, in order, from the chosen
  -- picture, up to the first that cannot be made or written, and exits with 0 if all are written and
  -- with 1 otherwise; it writes nothing if there is no picture or no directory.
  pub main-ScriptEnds : ScriptEnds c d (written (main c d)) (exit_status (main c d))
  unfolding main after_base
  main-ScriptEnds =
      after_dir d (ScriptEnds c d) after_base (λ e. nothing (inl e) refl refl) after_base-ScriptEnds
