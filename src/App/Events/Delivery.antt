-- ===== src/App/Events/Delivery.antt =====
-- What an event does where its handler is registered more than once.
use search_every.Prelude.{
  List, [], ◌∷◌, none, some, any, ◌≡◌, refl, ap, ◌∙◌, arith, Bool-cases, inl, inr, if◌then◌else◌,
}
use search_every.App.State.{App}
use search_every.App.Scan.{
  on_scan_progress, on_index_progress, on_index_done, on_scan_done, on_auto_scan_start,
}
use search_every.App.Events.{
  Topic, BackEvent, progresses, indexed, scanned, scan_starts, scans, topic, same_topic, react,
  emit,
}

react_twice : (e : BackEvent) (s : App) → react e (react e s) ≡ react e s
unfolding react on_index_progress on_index_done on_scan_done on_auto_scan_start on_scan_progress
react_twice (progresses p) s = refl
react_twice indexed s = refl
react_twice (scanned none) s = refl
react_twice (scanned (some n)) s = refl
react_twice (scan_starts r) s = refl
react_twice (scans p) s = ground arith

emit_again : (live : List Topic) (e : BackEvent) (s : App) → emit live e (react e s) ≡ react e s
unfolding emit
emit_again [] e s = refl
emit_again (t ∷ live) e s = elim (Bool-cases (same_topic t (topic e))) [
  | inl h ↦ rw h (ap (emit live e) (react_twice e s) ∙ emit_again live e s)
  | inr h ↦ rw h (emit_again live e s)
]

-- An event has the effect of its handler, once, if one listener or more is registered for its name,
-- and none otherwise: listeners that were registered twice, or left behind, change nothing.
emit_lem :
    (live : List Topic) (e : BackEvent) (s : App)
    → emit live e s ≡ (if any (λ t. same_topic t (topic e)) live then react e s else s)
unfolding emit
emit_lem [] e s = refl
emit_lem (t ∷ live) e s = elim (Bool-cases (same_topic t (topic e))) [
  | inl h ↦ rw h (emit_again live e s)
  | inr h ↦ rw h (emit_lem live e s)
]
