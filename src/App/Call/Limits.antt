-- ===== src/App/Call/Limits.antt =====
-- A handler that sends one command: that it ends, and when.
use search_every.Prelude.{
  ℕ, ◌+◌, ◌*◌, ◌≤◌, Bool, true, false, Option, some, codes, ◌≡◌, refl, if◌then◌else◌,
}
use search_every.Utils.Size.{or_default}
use search_every.Services.Invoke.{Reply, Outcome}
use search_every.Services.Invoke.Attempts.{safe_invoke_bounds}
use search_every.Services.Api.{Command}
use search_every.App.State.{App, Answer}
use search_every.App.Call.{After, answer_of, carry_out, call}

-- The limit of all attempts of a command that has no retries of its own.
abbrev pub attempts : ℕ → ℕ → ℕ
attempts default_retries limit = (default_retries + 1) * limit

-- The handler comes to an end in time, and the page can be used again.
abbrev pub EndsWithin : ℕ → Option After → Type 0
EndsWithin limit r = (a : After) × (r ≡ some a) × (a.app.busy ≡ false) × (a.elapsed ≤ limit)

module _ {ℓ} {A : Type ℓ} (default_retries : ℕ) (replies : Command → ℕ → Reply A) where
  pub call_ends :
      (c : Command)
      → (o : Outcome A) × (call default_retries replies c ≡ some o)
        × (o.elapsed ≤ (or_default c.retries default_retries + 1) * c.timeout_ms)
  unfolding call
  call_ends c =
      let (o, e, few, soon) =
        safe_invoke_bounds (codes c.cmd) c.timeout_ms (replies c)
          (or_default c.retries default_retries) in
      (o, e, soon)

  -- Where the guard of a handler holds, its command is sent, and whatever it is answered, the rest of
  -- the handler clears `busy`.
  pub carry_out_ends :
      (on_answer : Answer A → App → App) (c : Command) (otherwise : App × Option Command)
      {guard : Bool} {s : App}
      → guard ≡ true
      → ((x : Answer A) → (on_answer x s).busy ≡ false)
      → EndsWithin
          ((or_default c.retries default_retries + 1) * c.timeout_ms)
          (carry_out default_retries replies on_answer (if guard then (s, some c) else otherwise))
  unfolding carry_out
  carry_out_ends on_answer c otherwise {s} e clears =
      let (o, sent, soon) = call_ends c in
      (
        record { app = on_answer (answer_of o.settled) s; elapsed = o.elapsed },
        rw (e, sent) refl,
        clears (answer_of o.settled),
        soon,
      )
