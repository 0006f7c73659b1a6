-- ===== src/Services/Invoke/Ending.antt =====
-- How `safe_invoke` ends: by the first attempt that is answered in time, or by the last one.
use search_every.Prelude.{
  ℕ, zero, suc, ◌+◌, ◌≤◌, Text, some, ◌≡◌, arith, ◌⊎◌, inl, inr, refl, ap, ◌∙◌,
}
use search_every.Services.Invoke.{
  Reply, fulfilled, thrown, Outcome, Race, won, lost, race, safe_invoke,
}
use search_every.Services.Invoke.Attempts.{first_success, Race-cases, safe_invoke-first_success}

module _ {ℓ} {A : Type ℓ} (cmd : Text) (timeout_ms : ℕ) (replies : ℕ → Reply A) where
  abbrev pub IsLost : Race A → Type 0
  IsLost (won a t) = ⊥
  IsLost (lost e t) = Unit

  -- The `n` attempts from `k` on are all lost.
  abbrev pub AllLost : ℕ → ℕ → Type 0
  AllLost k zero = Unit
  AllLost k (suc n) = IsLost (race cmd timeout_ms (replies k)) × AllLost (suc k) n

  -- The value of the first attempt that is won.
  pub record FirstValue (k left : ℕ) (o : Outcome A) : Type ℓ where
    pub index : ℕ
    pub within : index ≤ left
    pub value : A
    pub time : ℕ
    pub hit : race cmd timeout_ms (replies (k + index)) ≡ won value time
    pub earlier : AllLost k index
    pub settled : o.settled ≡ fulfilled value
    pub calls : o.calls ≡ suc index

  -- The error of the last attempt, if all are lost.
  pub record LastError (k left : ℕ) (o : Outcome A) : Type ℓ where
    pub error : Text
    pub time : ℕ
    pub hit : race cmd timeout_ms (replies (k + left)) ≡ lost error time
    pub all : AllLost k (suc left)
    pub settled : o.settled ≡ thrown (some error)
    pub calls : o.calls ≡ suc left

  abbrev pub Ends : ℕ → ℕ → Outcome A → Type ℓ
  Ends k left o = FirstValue k left o ⊎ LastError k left o

  at_shift :
      (j k : ℕ) (r : Race A)
      → j ≡ k
      → race cmd timeout_ms (replies k) ≡ r
      → race cmd timeout_ms (replies j) ≡ r
  at_shift j k r e h = ap (λ n. race cmd timeout_ms (replies n)) e ∙ h

  lost-IsLost :
      (k t : ℕ) (m : Text)
      → race cmd timeout_ms (replies k) ≡ lost m t
      → IsLost (race cmd timeout_ms (replies k))
  lost-IsLost k t m e = rw e tt

  Ends-won :
      (left k t : ℕ) (a : A)
      → race cmd timeout_ms (replies k) ≡ won a t
      → Ends k left (record { settled = fulfilled a; calls = 1; elapsed = t })
  Ends-won left k t a e = inl (record {
    index = 0;
    within = omega arith;
    value = a;
    time = t;
    hit = at_shift (k + 0) k (won a t) (omega arith) e;
    earlier = tt;
    settled = refl;
    calls = refl;
  })

  Ends-lost :
      (left k t : ℕ) (m : Text) (o : Outcome A)
      → race cmd timeout_ms (replies k) ≡ lost m t
      → Ends (suc k) left o
      → Ends k (suc left) (record o { calls = suc o.calls; elapsed = t + o.elapsed })
  Ends-lost left k t m o e (inl v) = inl (record {
    index = suc v.index;
    within = omega (arith, v.within);
    value = v.value;
    time = v.time;
    hit = at_shift (k + suc v.index) (suc k + v.index) (won v.value v.time) (omega arith) v.hit;
    earlier = (lost-IsLost k t m e, v.earlier);
    settled = v.settled;
    calls = ap suc v.calls;
  })
  Ends-lost left k t m o e (inr v) = inr (record {
    error = v.error;
    time = v.time;
    hit = at_shift (k + suc left) (suc k + left) (lost v.error v.time) (omega arith) v.hit;
    all = (lost-IsLost k t m e, v.all);
    settled = v.settled;
    calls = ap suc v.calls;
  })

  first_success-Ends : (left k : ℕ) → Ends k left (first_success cmd timeout_ms replies left k)
  unfolding first_success
  first_success-Ends zero k =
      elim (Race-cases cmd timeout_ms replies (race cmd timeout_ms (replies k))) [
        | inl (a, t, e) ↦ rw (e, first_success) (Ends-won 0 k t a e)
        | inr (m, t, e) ↦
            rw (e, first_success)
              (inr (record {
                error = m;
                time = t;
                hit = at_shift (k + 0) k (lost m t) (omega arith) e;
                all = (lost-IsLost k t m e, tt);
                settled = refl;
                calls = refl;
              }))
      ]
  first_success-Ends (suc left) k =
      elim (Race-cases cmd timeout_ms replies (race cmd timeout_ms (replies k))) [
        | inl (a, t, e) ↦ rw (e, first_success) (Ends-won (suc left) k t a e)
        | inr (m, t, e) ↦
            rw (e, first_success)
              (Ends-lost left k t m (first_success cmd timeout_ms replies left (suc k)) e
                (first_success-Ends left (suc k)))
      ]

  -- The result is the value of the first attempt that is answered in time, or else what the last one
  -- threw; no attempt is made after the value is there.
  pub safe_invoke-Ends :
      (retries : ℕ)
      → (o : Outcome A) × (safe_invoke cmd timeout_ms retries replies ≡ some o) × Ends 0 retries o
  safe_invoke-Ends retries = (
    first_success cmd timeout_ms replies retries 0,
    safe_invoke-first_success cmd timeout_ms replies retries,
    first_success-Ends retries 0,
  )
