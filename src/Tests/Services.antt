-- ===== src/Tests/Services.antt =====
-- Runs of src/services, and its theorems at concrete inputs.
use search_every.Prelude.{ℕ, zero, suc, List, [], ◌∷◌, some, codes, ◌≡◌, refl}
use search_every.Prelude.Decimal.{show}
use search_every.Services.Invoke.{
  Reply, resolves, silent, fulfilled, thrown, Outcome, race, safe_invoke,
}
use search_every.Services.Invoke.Ending.{Ends, safe_invoke-Ends}

-- No answer to the first attempt, and a late one to the second.
abbrev slow : ℕ → Reply ℕ
slow zero = silent
slow (suc k) = resolves 700 k

second_attempt :
    safe_invoke (codes "search_query") 1000 1 slow
    ≡ some (record { settled = fulfilled 0; calls = 2; elapsed = 1700 })
unfolding safe_invoke race
second_attempt = refl

no_answer :
    safe_invoke (codes "x") 50 0 slow
    ≡ some (record {
      settled = thrown (some (codes "Error: invoke x timeout after 50ms"));
      calls = 1;
      elapsed = 50;
    })
unfolding safe_invoke race show
no_answer = refl

safe_invoke-Ends_example :
    (o : Outcome ℕ) × (safe_invoke (codes "search_query") 1000 1 slow ≡ some o)
    × Ends (codes "search_query") 1000 slow 0 1 o
safe_invoke-Ends_example = safe_invoke-Ends (codes "search_query") 1000 slow 1

abbrev late : List ℕ
late = 3 ∷ 4 ∷ []
