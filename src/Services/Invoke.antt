-- ===== src/Services/Invoke.antt =====
-- `safeInvoke` of src/services/api.ts: a call of the back end with a time limit and retries.
-- The back end is a parameter: what it answers to each attempt, and after how many milliseconds.
-- Where an answer and the timer fall on the same millisecond, the timer wins. `retries` is a whole
-- number that is not negative, as in every call of the program.
pub mod Attempts
pub mod Ending
use search_every.Prelude.{
  ℕ, zero, suc, ◌+◌, ◌++◌, Text, Option, none, some, codes, ltb, leb, if◌then◌else◌,
}
use search_every.Prelude.Decimal.{show}

-- An answer of the back end, with its delay; an error is its text, as `toString()` gives it.
pub data Reply {ℓ} (A : Type ℓ) : Type ℓ where
  resolves : ℕ → A → Reply A
  rejects : ℕ → Text → Reply A
  silent : Reply A

-- How the promise of the function is settled; `none` is `undefined`, which `lastErr` is at first.
pub data Settled {ℓ} (A : Type ℓ) : Type ℓ where
  fulfilled : A → Settled A
  thrown : Option Text → Settled A

-- The outcome, how many times the command was sent, and how long it all took.
pub record Outcome {ℓ} (A : Type ℓ) : Type ℓ where
  pub settled : Settled A
  pub calls : ℕ
  pub elapsed : ℕ

-- `Promise.race([call, timeout])`, with the time that it takes
pub data Race {ℓ} (A : Type ℓ) : Type ℓ where
  won : A → ℕ → Race A
  lost : Text → ℕ → Race A

-- `new Error(`invoke ${cmd} timeout after ${timeoutMs}ms`)`, as `toString()` gives it
abbrev pub timeout_error : Text → ℕ → Text
timeout_error cmd timeout_ms =
    codes "Error: invoke " ++ (cmd ++ (codes " timeout after " ++ (show timeout_ms ++ codes "ms")))

module _ {ℓ} {A : Type ℓ} (cmd : Text) (timeout_ms : ℕ) where
  unfoldable pub race : Reply A → Race A
  race (resolves t a) =
      if ltb t timeout_ms then won a t else lost (timeout_error cmd timeout_ms) timeout_ms
  race (rejects t e) =
      if ltb t timeout_ms then lost e t else lost (timeout_error cmd timeout_ms) timeout_ms
  race silent = lost (timeout_error cmd timeout_ms) timeout_ms

  -- `while (attempt <= retries) { … }`; `none` means that the fuel ran out.
  unfoldable pub invoke_loop :
      ℕ → (ℕ → Reply A) → (fuel attempt elapsed : ℕ) → Option Text → Option (Outcome A)
  invoke_loop retries replies zero attempt elapsed last_err = none
  invoke_loop retries replies (suc fuel) attempt elapsed last_err =
      let body : Option (Outcome A) = elim (race (replies attempt)) [
        | won a t ↦
            some (record { settled = fulfilled a; calls = suc attempt; elapsed = elapsed + t })
        | lost e t ↦
            let next = invoke_loop retries replies fuel (suc attempt) (elapsed + t) (some e) in
            if ltb retries (suc attempt)
            then some
                (record { settled = thrown (some e); calls = suc attempt; elapsed = elapsed + t })
            else next
      ] in
      if leb attempt retries
      then body
      else some (record { settled = thrown last_err; calls = attempt; elapsed = elapsed })

  -- One round more than the retries is enough fuel.
  unfoldable pub safe_invoke : ℕ → (ℕ → Reply A) → Option (Outcome A)
  unfolding invoke_loop
  safe_invoke retries replies = invoke_loop retries replies (suc retries) 0 0 none
