-- ===== src/Tests/Delete.antt =====
-- A run of a deletion with its attempts, and the theorem at that run.
use search_every.Prelude.{
  ℕ, suc, [], ◌∷◌, true, false, Option, none, some, codes, ◌≡◌, refl, if◌then◌else◌,
}
use search_every.Prelude.Int.{pos}
use search_every.Types.{DupKind}
use search_every.App.State.{App, initial}
use search_every.App.Dup.{remove_file}
use search_every.App.Call.{After, run_delete}
use search_every.Backend.Delete.{Host, delete_record}
use search_every.Backend.Delete.Retries.{present, answers, arrives, run_delete_lem}

-- The index is locked by another writer.
abbrev locked : ℕ → Host
locked n = record {
  denied = none;
  not_found = codes "not found";
  opens = true;
  has_path = true;
  writer = some (codes "LockBusy");
  commit = none;
}

abbrev soon : ℕ → Option ℕ
soon n = some 5

abbrev found_pair : App
found_pair = record (initial true (pos 60)) {
  dup_groups =
      (record { kind = DupKind.name; key = codes "a"; files = codes "x/a" ∷ codes "y/a" ∷ [] })
      ∷ [];
}

run_delete_lem_example :
    ((n : ℕ) → present locked soon (suc n) ≡ false)
    × (a : After) × (run_delete 1 (λ c. answers locked soon) (codes "x/a") found_pair ≡ some a)
    × (a.app.dup_groups ≡ (
        if arrives (soon 0) (delete_record (locked 0))
        then remove_file (codes "x/a") found_pair.dup_groups
        else found_pair.dup_groups))
unfolding initial
run_delete_lem_example = run_delete_lem locked soon refl 1 (codes "x/a") found_pair refl

-- The file is gone, and the page still shows it.
locked_shown : arrives (soon 0) (delete_record (locked 0)) ≡ false
unfolding delete_record
locked_shown = refl
