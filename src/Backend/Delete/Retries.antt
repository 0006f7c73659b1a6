-- ===== src/Backend/Delete/Retries.antt =====
-- A deletion from the page of duplicate files, with the attempts that src/services/api.ts makes of it.
use search_every.Prelude.{
  ℕ, zero, suc, ◌+◌, Text, Bool, true, false, Option, none, some, codes, ltb, ◌≡◌, refl, ap, sym,
  ◌++◌, subst, if◌then◌else◌, inl, inr, Bool-cases,
}
use search_every.Constants.{invoke_timeouts}
use search_every.Services.Invoke.{Reply, resolves, rejects, silent, race, won, lost, Race, Outcome}
use search_every.Services.Invoke.Ending.{safe_invoke-Ends, Ends}
use search_every.Services.Api.{delete_file_and_index}
use search_every.App.State.{App}
use search_every.App.Dup.{handle_delete, on_deleted, remove_file}
use search_every.App.Call.{After, answer_of, call, carry_out, run_delete}
use search_every.Backend.Delete
use search_every.Backend.Delete.{Result, ok, err, Host, delete_record}

abbrev reply_of : ℕ → Result → Reply (Unit {0})
reply_of t ok = resolves t tt
reply_of t (err e) = rejects t e

abbrev reply_after : Option ℕ → Result → Reply (Unit {0})
reply_after none r = silent
reply_after (some t) r = reply_of t r

-- The runs of the command, one for each attempt, and when each is answered, if ever. A run has done
-- with the file before the next attempt is made.
module _ (hosts : ℕ → Host) (delays : ℕ → Option ℕ) where
  -- Whether the file is there before an attempt.
  unfoldable pub present : ℕ → Bool
  present zero = true
  present (suc n) = (Delete.delete_file_and_index (hosts n) (present n)).1

  unfoldable pub answers : ℕ → Reply (Unit {0})
  unfolding present
  answers n = reply_after (delays n) (Delete.delete_file_and_index (hosts n) (present n)).0

-- A result that says that all was done, and that comes before the time limit.
abbrev pub arrives : Option ℕ → Result → Bool
arrives (some t) ok = ltb t invoke_timeouts.build_index
arrives (some t) (err e) = false
arrives none r = false

-- What `safeInvoke` makes of a reply within the time limit of the command.
abbrev raced : Text → Reply (Unit {0}) → Race (Unit {0})
raced cmd r = race cmd invoke_timeouts.build_index r

abbrev Fails : Race (Unit {0}) → Type 0
Fails (won a t) = ⊥
Fails (lost e t) = Unit

err-Fails : (cmd : Text) (d : Option ℕ) (e : Text) → Fails (raced cmd (reply_after d (err e)))
unfolding race
err-Fails cmd none e = tt
err-Fails cmd (some t) e = elim (Bool-cases (ltb t invoke_timeouts.build_index)) [
  | inl h ↦ rw h tt
  | inr h ↦ rw h tt
]

not_arrives-Fails :
    (cmd : Text) (d : Option ℕ) (r : Result)
    → arrives d r ≡ false
    → Fails (raced cmd (reply_after d r))
unfolding race
not_arrives-Fails cmd none r h = tt
not_arrives-Fails cmd (some t) ok h = rw h tt
not_arrives-Fails cmd (some t) (err e) h = err-Fails cmd (some t) e

Fails-not_arrives :
    (cmd : Text) (d : Option ℕ) (r : Result)
    → Fails (raced cmd (reply_after d r))
    → arrives d r ≡ false
unfolding race
Fails-not_arrives cmd none r h = refl
Fails-not_arrives cmd (some t) (err e) h = refl
Fails-not_arrives cmd (some t) ok h = elim (Bool-cases (ltb t invoke_timeouts.build_index)) [
  | inl e ↦ absurd (rw e at h)
  | inr e ↦ e
]

won-not-Fails : (r : Race (Unit {0})) (a : Unit {0}) (t : ℕ) → r ≡ won a t → Fails r → ⊥
won-not-Fails r a t e h = rw e at h

module _ (hosts : ℕ → Host) (delays : ℕ → Option ℕ) (allowed : (hosts 0).denied ≡ none) where
  -- The first attempt removes the file.
  present-gone : (n : ℕ) → present hosts delays (suc n) ≡ false
  unfolding present Delete.delete_file_and_index
  present-gone zero = ap (λ o. (Delete.after_remove (hosts 0) true o).1) allowed
  present-gone (suc n) =
      ap (λ b. (Delete.delete_file_and_index (hosts (suc n)) b).1) (present-gone n)

  answers-first : answers hosts delays 0 ≡ reply_after (delays 0) (delete_record (hosts 0))
  unfolding answers Delete.delete_file_and_index
  answers-first = rw allowed refl

  -- All later attempts fail.
  answers-Fails : (cmd : Text) (n : ℕ) → Fails (raced cmd (answers hosts delays (suc n)))
  unfolding answers Delete.delete_file_and_index
  answers-Fails cmd n =
      rw (present-gone n)
        (err-Fails cmd (delays (suc n)) (codes "删除文件失败: " ++ (hosts (suc n)).not_found))

  all-Fails :
      (cmd : Text) (n : ℕ)
      → arrives (delays 0) (delete_record (hosts 0)) ≡ false
      → Fails (raced cmd (answers hosts delays n))
  all-Fails cmd zero h =
      subst (λ r. Fails (raced cmd r)) (sym answers-first)
        (not_arrives-Fails cmd (delays 0) (delete_record (hosts 0)) h)
  all-Fails cmd (suc n) h = answers-Fails cmd n

  -- An outcome of the call says whether the first attempt was answered in time.
  shown :
      (path cmd : Text) (retries : ℕ) (s : App) (o : Outcome (Unit {0}))
      → Ends cmd invoke_timeouts.build_index (answers hosts delays) 0 retries o
      → (on_deleted path (answer_of o.settled) s).dup_groups ≡ (
          if arrives (delays 0) (delete_record (hosts 0))
          then remove_file path s.dup_groups
          else s.dup_groups)
  unfolding on_deleted
  shown path cmd retries s o (inl v) =
      elim (Bool-cases (arrives (delays 0) (delete_record (hosts 0)))) [
        | inl e ↦ rw (v.settled, e) refl
        | inr e ↦ absurd (
            won-not-Fails (raced cmd (answers hosts delays (0 + v.index))) v.value v.time v.hit
              (all-Fails cmd (0 + v.index) e))
      ]
  shown path cmd retries s o (inr v) =
      let lost_first = subst (λ r. Fails (raced cmd r)) answers-first v.all.0 in
      rw (v.settled, Fails-not_arrives cmd (delays 0) (delete_record (hosts 0)) lost_first) refl

  -- A confirmed deletion in Tauri of a file that may be removed, where each attempt has done with the
  -- file before the next one is made: the file is gone after the first attempt, and the page shows it
  -- as deleted exactly if the answer to that attempt comes in time and says that its record is deleted
  -- too; no later attempt can change that, and the groups of the page are otherwise as they were.
  pub run_delete_lem :
      (default_retries : ℕ) (path : Text) (s : App)
      → s.in_tauri ≡ true
      → ((n : ℕ) → present hosts delays (suc n) ≡ false)
        × (a : After) × (run_delete default_retries (λ c. answers hosts delays) path s ≡ some a)
        × (a.app.dup_groups ≡ (
            if arrives (delays 0) (delete_record (hosts 0))
            then remove_file path s.dup_groups
            else s.dup_groups))
  unfolding run_delete carry_out call handle_delete delete_file_and_index
  run_delete_lem default_retries path s inside =
      let name = codes "delete_file_and_index" in
      let (o, sent, ends) =
        safe_invoke-Ends name invoke_timeouts.build_index (answers hosts delays) default_retries in
      let waiting = record s { busy = true; msg = codes "删除中..." } in
      (
        present-gone,
        record { app = on_deleted path (answer_of o.settled) waiting; elapsed = o.elapsed },
        rw (inside, sent) refl,
        shown path name default_retries waiting o ends,
      )
