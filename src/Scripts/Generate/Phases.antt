-- ===== src/Scripts/Generate/Phases.antt =====
-- All pictures are drawn before the first icon is written.
use mathlib.Core.List.{Memᴰ}
use search_every.Prelude.{
  ℕ, List, [], ◌∷◌, ◌++◌, Text, Option, none, some, codes, ◌≡◌, ◌⊎◌, inl, inr, refl, ap, ◌∙◌, arith,
  map, Option-cases, Bool-cases, sym, All, ◌==◌, ==_iff,
}
use search_every.Scripts.Files.{
  Buffer, Disk, Run, returns, throws, ensure_dir, icon_name, ◌>>=◌, ◌>>◌, written, exit_status,
}
use search_every.Scripts.Files.Jobs.{
  Job, Leaves, run_job, run_jobs, run_jobs-Leaves, behind-nil, after_dir, >>_assoc, >>_nil,
}
use search_every.Scripts.Generate.{
  Codec, one, many, Pngs, get, png_of, draw, write_single, write_singles, write_multi, main,
}

abbrev pub single_job : Codec → ℕ → Job
single_job c size = (icon_name size, c.png_to_ico (one (png_of c size)))

-- An icon for each size, and the icon of all sizes at the end.
abbrev pub jobs_of : Codec → List ℕ → List Job
jobs_of c sizes =
    map (single_job c) sizes ++ (codes "icon.ico", c.png_to_ico (many (map (png_of c) sizes))) ∷ []

pub data PhaseEnds (c : Codec) (d : Disk) (sizes : List ℕ) (files : List (Text × Buffer))
    (status : ℕ) : Type 0 where
  no_dir : ensure_dir d ≡ throws [] → files ≡ [] → status ≡ 1 → PhaseEnds c d sizes files status
  not_drawn :
      (size : ℕ)
      → Memᴰ size sizes
      → png_of c size ≡ none
      → files ≡ []
      → status ≡ 1
      → PhaseEnds c d sizes files status
  drawn :
      All (λ size. (png : Buffer) × (png_of c size ≡ some png)) sizes
      → Leaves d (jobs_of c sizes) files status
      → PhaseEnds c d sizes files status

module _ (c : Codec) where
  -- The map holds the picture of the size.
  abbrev Has : Pngs → ℕ → Type 0
  Has pngs size = get pngs size ≡ png_of c size

  Has-cons :
      (pngs : Pngs) (size s : ℕ) (png : Buffer)
      → png_of c size ≡ some png
      → Has pngs s
      → Has ((size, png) ∷ pngs) s
  Has-cons pngs size s png e h = elim (Bool-cases (size == s)) [
    | inl q ↦ rw q (sym e ∙ ap (png_of c) ((==_iff size s).0 q))
    | inr q ↦ rw q h
  ]

  Has-head :
      (pngs : Pngs) (size : ℕ) (png : Buffer)
      → png_of c size ≡ some png
      → Has ((size, png) ∷ pngs) size
  Has-head pngs size png e = ground (arith, e)

  abbrev Drawn : Pngs → List ℕ → Type 0
  Drawn pngs sizes =
      (all : Pngs) × (draw c pngs sizes ≡ returns [] all)
      × ((s : ℕ) → Has pngs s → Has all s)
      × All (λ size. (png : Buffer) × (png_of c size ≡ some png)) sizes
      × All (Has all) sizes

  draw_ends :
      (pngs : Pngs) (sizes : List ℕ)
      → ((size : ℕ) × Memᴰ size sizes × (png_of c size ≡ none) × (draw c pngs sizes ≡ throws []))
        ⊎ Drawn pngs sizes
  unfolding draw
  draw_ends pngs [] = inr (pngs, refl, λ s h. h, tt, tt)
  draw_ends pngs (size ∷ sizes) = elim (Option-cases (png_of c size)) [
    | inl e ↦ inl (size, Memᴰ.head refl, e, rw e refl)
    | inr (png, e) ↦ elim (draw_ends ((size, png) ∷ pngs) sizes) [
      | inl (s, m, n, t) ↦ inl (s, Memᴰ.tail m, n, rw (e, t) refl)
      | inr (all, r, keeps, made, has) ↦ inr (
        all,
        rw (e, r) refl,
        λ s h. keeps s (Has-cons pngs size s png e h),
        ((png, e), made),
        (keeps size (Has-head pngs size png e), has),
      )
    ]
  ]

  map-get :
      (all : Pngs) (sizes : List ℕ)
      → All (Has all) sizes
      → map (get all) sizes ≡ map (png_of c) sizes
  map-get all [] h = refl
  map-get all (size ∷ sizes) h = rw (h.0, map-get all sizes h.1) refl

  module _ (d : Disk) where
    write_singles_jobs :
        (all : Pngs) (sizes : List ℕ) (last : List Job)
        → All (Has all) sizes
        → (write_singles c d all sizes >> run_jobs d last)
          ≡ run_jobs d (map (single_job c) sizes ++ last)
    unfolding write_singles write_single
    write_singles_jobs all [] last h = behind-nil d (run_jobs d last)
    write_singles_jobs all (size ∷ sizes) last h =
        >>_assoc (write_single c d all size) (write_singles c d all sizes) (run_jobs d last)
        ∙ ap (λ k. write_single c d all size >> k) (write_singles_jobs all sizes last h.1)
        ∙ ap
            (λ (png : Option Buffer).
              run_job d (icon_name size, c.png_to_ico (one png))
              >> run_jobs d (map (single_job c) sizes ++ last))
            h.0

    write_multi_job :
        (all : Pngs) (sizes : List ℕ)
        → All (Has all) sizes
        → write_multi c d all sizes
          ≡ run_jobs d ((codes "icon.ico", c.png_to_ico (many (map (png_of c) sizes))) ∷ [])
    unfolding write_multi
    write_multi_job all sizes h =
        ap (λ (pngs : List (Option Buffer)). run_job d (codes "icon.ico", c.png_to_ico (many pngs)))
          (map-get all sizes h)
        ∙ sym (>>_nil (run_job d (codes "icon.ico", c.png_to_ico (many (map (png_of c) sizes)))))

    writes_jobs :
        (all : Pngs) (sizes : List ℕ)
        → All (Has all) sizes
        → (write_singles c d all sizes >> write_multi c d all sizes) ≡ run_jobs d (jobs_of c sizes)
    writes_jobs all sizes h =
        ap (λ k. write_singles c d all sizes >> k) (write_multi_job all sizes h)
        ∙ write_singles_jobs all sizes
            ((codes "icon.ico", c.png_to_ico (many (map (png_of c) sizes))) ∷ []) h

    after_mkdir : List ℕ → Run (Unit {0})
    after_mkdir sizes =
        draw c [] sizes >>= λ all. write_singles c d all sizes >> write_multi c d all sizes

    after_mkdir-PhaseEnds :
        (sizes : List ℕ)
        → PhaseEnds c d sizes (written (after_mkdir sizes)) (exit_status (after_mkdir sizes))
    unfolding after_mkdir
    after_mkdir-PhaseEnds sizes = elim (draw_ends [] sizes) [
      | inl (size, m, n, t) ↦ rw t (not_drawn size m n refl refl)
      | inr (all, r, keeps, made, has) ↦
          rw
            (
              r,
              behind-nil d (write_singles c d all sizes >> write_multi c d all sizes),
              writes_jobs all sizes has,
            )
            (drawn made (run_jobs-Leaves d (jobs_of c sizes)))
    ]

    -- The script draws the pictures of all sizes before it writes an icon: if one cannot be drawn, or
    -- there is no directory, it writes nothing and exits with 1. Otherwise it writes an icon of its
    -- name for each size, in order, and the icon of all sizes, up to the first that cannot be made or
    -- written, and exits with 0 if all are written and with 1 otherwise.
    main-PhaseEnds :
        (sizes : List ℕ)
        → PhaseEnds c d sizes (written (main c d sizes)) (exit_status (main c d sizes))
    unfolding main after_mkdir
    main-PhaseEnds sizes =
        after_dir d (PhaseEnds c d sizes) (after_mkdir sizes) (λ e. no_dir e refl refl)
          (after_mkdir-PhaseEnds sizes)
