-- ===== src/Services/Invoke/Attempts.antt =====
-- The attempts of `safe_invoke`: which of them counts, and how long they take.
use search_every.Prelude.{
  ℕ, zero, suc, ◌+◌, ◌*◌, ◌≤◌, Text, Option, none, some, ◌≡◌, arith, ◌⊎◌, inl, inr, refl, ap, sym,
  ◌∙◌,
}
use search_every.Services.Invoke.{
  Reply, resolves, rejects, silent, fulfilled, thrown, Outcome, Race, won, lost, race, invoke_loop,
  safe_invoke,
}

module _ {ℓ} {A : Type ℓ} (cmd : Text) (timeout_ms : ℕ) (replies : ℕ → Reply A) where
  -- What the attempts from `k` on give, `left` of them being allowed behind the first.
  unfoldable pub first_success : ℕ → ℕ → Outcome A
  first_success zero k = elim (race cmd timeout_ms (replies k)) [
    | won a t ↦ record { settled = fulfilled a; calls = 1; elapsed = t }
    | lost e t ↦ record { settled = thrown (some e); calls = 1; elapsed = t }
  ]
  first_success (suc left) k =
      let rest = first_success left (suc k) in
      elim (race cmd timeout_ms (replies k)) [
        | won a t ↦ record { settled = fulfilled a; calls = 1; elapsed = t }
        | lost e t ↦ record rest { calls = suc rest.calls; elapsed = t + rest.elapsed }
      ]

  pub Race-cases :
      (r : Race A) → ((a : A) × (t : ℕ) × (r ≡ won a t)) ⊎ ((e : Text) × (t : ℕ) × (r ≡ lost e t))
  Race-cases (won a t) = inl (a, t, refl)
  Race-cases (lost e t) = inr (e, t, refl)

  invoke_loop_lost :
      (retries fuel k elapsed t : ℕ) (last_err : Option Text) (e : Text)
      → race cmd timeout_ms (replies k) ≡ lost e t
      → suc k ≤ retries
      → invoke_loop cmd timeout_ms retries replies (suc fuel) k elapsed last_err
        ≡ invoke_loop cmd timeout_ms retries replies fuel (suc k) (elapsed + t) (some e)
  unfolding invoke_loop
  invoke_loop_lost retries fuel k elapsed t last_err e r h = ground arith

  invoke_loop_won :
      (retries fuel k elapsed t : ℕ) (last_err : Option Text) (a : A)
      → race cmd timeout_ms (replies k) ≡ won a t
      → k ≤ retries
      → invoke_loop cmd timeout_ms retries replies (suc fuel) k elapsed last_err
        ≡ some (record { settled = fulfilled a; calls = suc k; elapsed = elapsed + t })
  unfolding invoke_loop
  invoke_loop_won retries fuel k elapsed t last_err a r h = ground arith

  invoke_loop-first_success :
      (left k elapsed : ℕ) (last_err : Option Text)
      → invoke_loop cmd timeout_ms (k + left) replies (suc left) k elapsed last_err
        ≡ some (record {
          settled = (first_success left k).settled;
          calls = k + (first_success left k).calls;
          elapsed = elapsed + (first_success left k).elapsed;
        })
  unfolding first_success
  invoke_loop-first_success zero k elapsed last_err = unfold invoke_loop in ground arith
  invoke_loop-first_success (suc left) k elapsed last_err =
      let r = k + suc left in
      elim (Race-cases (race cmd timeout_ms (replies k))) [
        | inl (a, t, e) ↦
            invoke_loop_won r (suc left) k elapsed t last_err a e (omega arith) ∙ ground arith
        | inr (m, t, e) ↦
            let shifted : suc k + left ≡ k + suc left = omega arith in
            let ih = invoke_loop-first_success left (suc k) (elapsed + t) (some m) in
            invoke_loop_lost r (suc left) k elapsed t last_err m e (omega arith)
            ∙ ap
                (λ n.
                  invoke_loop cmd timeout_ms n replies (suc left) (suc k) (elapsed + t) (some m))
                (sym shifted)
            ∙ ih
            ∙ ground arith
      ]

  pub safe_invoke-first_success :
      (retries : ℕ) → safe_invoke cmd timeout_ms retries replies ≡ some (first_success retries 0)
  unfolding safe_invoke
  safe_invoke-first_success retries =
      ap (λ n. invoke_loop cmd timeout_ms n replies (suc retries) 0 0 none) (sym zero_left)
      ∙ invoke_loop-first_success retries 0 0 none
      ∙ ground arith
    where
      zero_left : 0 + retries ≡ retries
      zero_left = omega arith

  race_time : Race A → ℕ
  race_time (won a t) = t
  race_time (lost e t) = t

  race_time-race : (r : Reply A) → race_time (race cmd timeout_ms r) ≤ timeout_ms
  unfolding race_time race
  race_time-race (resolves t a) = ground arith
  race_time-race (rejects t e) = ground arith
  race_time-race silent = omega arith

  first_success_bounds :
      (left k : ℕ)
      → ((first_success left k).calls ≤ suc left)
        × ((first_success left k).elapsed ≤ suc left * timeout_ms)
  unfolding first_success race_time
  first_success_bounds zero k = ground (arith, race_time-race (replies k))
  first_success_bounds (suc left) k =
      ground (arith, race_time-race (replies k), first_success_bounds left (suc k))

  -- The command is sent `retries + 1` times at most, and a result is there after as many time limits.
  pub safe_invoke_bounds :
      (retries : ℕ)
      → (o : Outcome A) × (safe_invoke cmd timeout_ms retries replies ≡ some o)
        × (o.calls ≤ retries + 1)
        × (o.elapsed ≤ (retries + 1) * timeout_ms)
  safe_invoke_bounds retries =
      let (few, soon) = first_success_bounds retries 0 in
      (first_success retries 0, safe_invoke-first_success retries, omega arith, omega arith)
