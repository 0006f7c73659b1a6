-- ===== src/Services/Events.antt =====
-- src/services/events.ts: subscriptions to the events of the back end. A listener is called for each
-- event of its name from its registration on, which comes before the promise of `listen` is resolved,
-- until its unlistener is called.
pub mod Once
use search_every.Prelude.{ℕ, ◌+◌, List, [], ◌∷◌, ◌++◌, Bool, true, false, if◌then◌else◌}

-- One use of `onEventOnce`. `unlisten` is a constant that is set when the promise is resolved; a
-- read before that is an exception. `called` holds the payloads that the handler was given, and
-- `errors` counts the exceptions.
pub record Subscription (P : Type 0) : Type 0 where
  pub unlisten_set : Bool
  pub registered : Bool
  pub called : List P
  pub errors : ℕ

pub data Event (P : Type 0) : Type 0 where
  emitted : P → Event P
  resolved : Event P

module _ {P : Type 0} where
  abbrev pub subscribed : Subscription P
  subscribed = record { unlisten_set = false; registered = true; called = []; errors = 0 }

  -- `(event) => { handler(event.payload); unlisten() }`
  abbrev pub listener : P → Subscription P → Subscription P
  listener p s =
      if s.unlisten_set
      then record s { called = s.called ++ p ∷ []; registered = false }
      else record s { called = s.called ++ p ∷ []; errors = s.errors + 1 }

  unfoldable pub step_once : Event P → Subscription P → Subscription P
  step_once (emitted p) s = if s.registered then listener p s else s
  step_once resolved s = record s { unlisten_set = true }

  unfoldable pub run_once : List (Event P) → Subscription P → Subscription P
  unfolding step_once
  run_once [] s = s
  run_once (e ∷ es) s = run_once es (step_once e s)
