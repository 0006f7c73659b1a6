-- ===== src/Scripts/Files/Jobs.antt =====
-- What a script that writes one icon after another leaves behind.
use search_every.Prelude.{
  ℕ, List, [], ◌∷◌, Text, true, false, Option, none, some, ◌≡◌, ◌⊎◌, inl, inr, refl, ap, arith,
  append_assoc, append-nil, Bool-cases,
}
use search_every.Scripts.Files.{
  Buffer, Disk, Run, returns, throws, attempt, write, make_dir, ensure_dir, write_file, ◌>>=◌, ◌>>◌,
  behind, written, writes, exit_status,
}

-- A file name, and the icon for it if it can be made.
abbrev pub Job : Type 0
Job = Text × Option Buffer

-- The files and the exit status: the icons of the jobs in their order, up to the first that cannot be
-- made or written; the status is 1 if there is such a job, and 0 otherwise.
pub data Leaves (d : Disk) : List Job → List (Text × Buffer) → ℕ → Type 0 where
  all : Leaves d [] [] 0
  makes :
      (name : Text) (ico : Buffer) (jobs : List Job) (files : List (Text × Buffer)) (status : ℕ)
      → d.can_write name ≡ true
      → Leaves d jobs files status
      → Leaves d ((name, some ico) ∷ jobs) ((name, ico) ∷ files) status
  stops :
      (name : Text) (made : Option Buffer) (jobs : List Job)
      → (made ≡ none) ⊎ (d.can_write name ≡ false)
      → Leaves d ((name, made) ∷ jobs) [] 1

abbrev pub run_job : Disk → Job → Run (Unit {0})
run_job d (name, made) = attempt made >>= write_file d name

abbrev pub run_jobs : Disk → List Job → Run (Unit {0})
run_jobs d [] = returns [] tt
run_jobs d (job ∷ jobs) = run_job d job >> run_jobs d jobs

pub >>_assoc : (m k l : Run (Unit {0})) → ((m >> k) >> l) ≡ (m >> (k >> l))
>>_assoc (throws done) k l = refl
>>_assoc (returns done u) (throws done') l = refl
>>_assoc (returns done u) (returns done' v) (throws done'') =
    ap throws (append_assoc done done' done'')
>>_assoc (returns done u) (returns done' v) (returns done'' w) =
    ap (λ xs. returns xs w) (append_assoc done done' done'')

pub >>_nil : (m : Run (Unit {0})) → (m >> returns [] tt) ≡ m
>>_nil (throws done) = refl
>>_nil (returns done u) = ap (λ xs. returns xs tt) (append-nil done)

module _ (d : Disk) where
  abbrev pub LeavesRun : List Job → Run (Unit {0}) → Type 0
  LeavesRun jobs r = Leaves d jobs (written r) (exit_status r)

  makes_and :
      (name : Text) (ico : Buffer) (jobs : List Job) (r : Run (Unit {0}))
      → d.can_write name ≡ true
      → LeavesRun jobs r
      → LeavesRun ((name, some ico) ∷ jobs) (behind (write name ico ∷ []) r)
  makes_and name ico jobs (returns done u) w h = makes name ico jobs (writes done) 0 w h
  makes_and name ico jobs (throws done) w h = makes name ico jobs (writes done) 1 w h

  pub behind-nil : (r : Run (Unit {0})) → behind [] r ≡ r
  behind-nil (returns done u) = refl
  behind-nil (throws done) = refl

  pub run_jobs-Leaves : (jobs : List Job) → LeavesRun jobs (run_jobs d jobs)
  run_jobs-Leaves [] = all
  run_jobs-Leaves ((name, none) ∷ jobs) = stops name none jobs (inl refl)
  run_jobs-Leaves ((name, some ico) ∷ jobs) = elim (Bool-cases (d.can_write name)) [
    | inl w ↦ rw w (makes_and name ico jobs (run_jobs d jobs) w (run_jobs-Leaves jobs))
    | inr w ↦ rw w (stops name (some ico) jobs (inr w))
  ]

  -- The directory is there, can be made, or cannot.
  pub dir_ready :
      (ensure_dir d ≡ throws [])
      ⊎ (ensure_dir d ≡ returns [] tt)
      ⊎ (ensure_dir d ≡ returns (make_dir ∷ []) tt)
  dir_ready = ground arith

  -- What the directory changes of the files and of the exit status: nothing, unless it fails.
  pub after_dir {κ} :
      (P : List (Text × Buffer) → ℕ → Type κ) (r : Run (Unit {0}))
      → ((ensure_dir d ≡ throws []) → P [] 1)
      → P (written r) (exit_status r)
      → P (written (ensure_dir d >> r)) (exit_status (ensure_dir d >> r))
  after_dir P r bad h = elim dir_ready [
    | inl e ↦ rw e (bad e)
    | inr (inl e) ↦ rw e (nothing_first r h)
    | inr (inr e) ↦ rw e (dir_first r h)
  ]
    where
      nothing_first :
          (q : Run (Unit {0}))
          → P (written q) (exit_status q)
          → P (written (behind [] q)) (exit_status (behind [] q))
      nothing_first (returns done u) h = h
      nothing_first (throws done) h = h

      dir_first :
          (q : Run (Unit {0}))
          → P (written q) (exit_status q)
          → P (written (behind (make_dir ∷ []) q)) (exit_status (behind (make_dir ∷ []) q))
      dir_first (returns done u) h = h
      dir_first (throws done) h = h
