-- ===== src/App/Call/Answered.antt =====
-- A call of src/services/api.ts whose first attempt is answered in time.
use search_every.Prelude.{ℕ, zero, suc, ◌<◌, some, codes, lt→ltb, ◌≡◌, refl, ap, ◌∙◌}
use search_every.Utils.Size.{or_default}
use search_every.Services.Invoke.{Reply, resolves, fulfilled, race, won}
use search_every.Services.Invoke.Attempts.{first_success, safe_invoke-first_success}
use search_every.Services.Api.{Command}
use search_every.App.Call.{call}

module _ {ℓ} {A : Type ℓ} (default_retries : ℕ) (replies : Command → ℕ → Reply A) where
  hit :
      (c : Command) (t : ℕ) (a : A)
      → replies c 0 ≡ resolves t a
      → t < c.timeout_ms
      → race (codes c.cmd) c.timeout_ms (replies c 0) ≡ won a t
  unfolding race
  hit c t a e h = rw (e, lt→ltb t c.timeout_ms h) refl

  first :
      (c : Command) (t : ℕ) (a : A) (left : ℕ)
      → race (codes c.cmd) c.timeout_ms (replies c 0) ≡ won a t
      → first_success (codes c.cmd) c.timeout_ms (replies c) left 0
        ≡ record { settled = fulfilled a; calls = 1; elapsed = t }
  unfolding first_success
  first c t a zero e = rw (e, first_success) refl
  first c t a (suc left) e = rw (e, first_success) refl

  pub call_answered :
      (c : Command) (t : ℕ) (a : A)
      → replies c 0 ≡ resolves t a
      → t < c.timeout_ms
      → call default_retries replies c
        ≡ some (record { settled = fulfilled a; calls = 1; elapsed = t })
  unfolding call
  call_answered c t a e h =
      let left = or_default c.retries default_retries in
      safe_invoke-first_success (codes c.cmd) c.timeout_ms (replies c) left
      ∙ ap some (first c t a left (hit c t a e h))
