-- ===== src/Hooks/Listeners/Balance.antt =====
-- No listener is left behind, and none is lost.
use search_every.Prelude.{
  ℕ, ◌+◌, List, [], ◌∷◌, ◌++◌, Text, Bool, true, false, ◌||◌, not, ◌&&◌, codes, zero, suc, any,
  filter-append, map, All, ltb, text_eq, append-nil, append_assoc, ◌≡◌, refl, ap, sym, ◌∙◌, subst,
  arith,
}
use search_every.Hooks.Listeners.{
  Listener, Hook, global_error_logging, focus_debug, theme_dropdown, added_by, removed_by, same,
  same_capture, made, add_event_listener, remove_event_listener, add_all, remove_all, mount,
  unmount, remounted,
}

abbrev error_name : Text × Bool
error_name = (codes "error", false)

abbrev unhandled_name : Text × Bool
unhandled_name = (codes "unhandledrejection", false)

abbrev in_name : Text × Bool
in_name = (codes "focusin", true)

abbrev out_name : Text × Bool
out_name = (codes "focusout", true)

-- The listeners of earlier runs.
abbrev pub Before : ℕ → List Listener → Type 0
Before k ls = All (λ l. ltb l.handler k ≡ true) ls

Before-step : (k : ℕ) (ls : List Listener) → Before k ls → Before (k + 1) ls
Before-step k [] h = h
Before-step k (l ∷ ls) h = (ground (arith, h.0), Before-step k ls h.1)

not_same :
    (k : ℕ) (e : Text × Bool) (l : Listener) → ltb l.handler k ≡ true → same (made k e) l ≡ false
not_same k e l h = ground (arith, h)

any_not :
    (k : ℕ) (e : Text × Bool) (ls : List Listener) → Before k ls → any (same (made k e)) ls ≡ false
any_not k e [] h = refl
any_not k e (l ∷ ls) h = rw (not_same k e l h.0, any_not k e ls h.1) refl

remove_not :
    (k : ℕ) (e : Text × Bool) (ls : List Listener)
    → Before k ls
    → remove_event_listener (made k e) ls ≡ ls
unfolding remove_event_listener
remove_not k e [] h = refl
remove_not k e (l ∷ ls) h = rw (not_same k e l h.0, remove_not k e ls h.1) refl

any-append :
    (p : Listener → Bool) (ls ms : List Listener) → any p (ls ++ ms) ≡ (any p ls || any p ms)
any-append p [] ms = refl
any-append p (l ∷ ls) ms = ground (arith, any-append p ls ms)

add_new :
    (k : ℕ) (e : Text × Bool) (ls ms : List Listener)
    → Before k ls
    → any (same (made k e)) ms ≡ false
    → add_event_listener (made k e) (ls ++ ms) ≡ ls ++ (ms ++ made k e ∷ [])
unfolding add_event_listener
add_new k e ls ms h new =
    rw (any-append (same (made k e)) ls ms, any_not k e ls h, new)
      (append_assoc ls ms (made k e ∷ []))

same-made :
    (k : ℕ) (a b : Text × Bool)
    → same (made k a) (made k b) ≡ (text_eq a.0 b.0 && same_capture a.1 b.1)
same-made k a b = ground arith

add_first :
    (k : ℕ) (e : Text × Bool) (ls : List Listener)
    → Before k ls
    → add_event_listener (made k e) ls ≡ ls ++ made k e ∷ []
add_first k e ls h =
    subst (λ ms. add_event_listener (made k e) ms ≡ ls ++ made k e ∷ []) (append-nil ls)
      (add_new k e ls [] h refl)

mount_lem :
    (h : Hook) (k : ℕ) (ls : List Listener)
    → Before k ls
    → mount h k ls ≡ ls ++ map (made k) (added_by h)
unfolding mount add_all added_by text_eq
mount_lem global_error_logging k ls before =
    ap (add_event_listener (made k unhandled_name)) (add_first k error_name ls before)
    ∙ add_new k unhandled_name ls (made k error_name ∷ []) before
        (rw (same-made k unhandled_name error_name) refl)
mount_lem (focus_debug true) k ls before =
    ap (add_event_listener (made k out_name)) (add_first k in_name ls before)
    ∙ add_new k out_name ls (made k in_name ∷ []) before (rw (same-made k out_name in_name) refl)
mount_lem (focus_debug false) k ls before = sym (append-nil ls)
mount_lem theme_dropdown k ls before = add_first k (codes "click", false) ls before

remove_all-append :
    (es : List (Text × Bool)) (k : ℕ) (ls ms : List Listener)
    → remove_all es k (ls ++ ms) ≡ remove_all es k ls ++ remove_all es k ms
unfolding remove_all remove_event_listener
remove_all-append [] k ls ms = refl
remove_all-append (e ∷ es) k ls ms = rw (filter-append (λ m. not (same (made k e) m)) ls ms) (
    remove_all-append es k (remove_event_listener (made k e) ls)
      (remove_event_listener (made k e) ms))

remove_all-Before :
    (es : List (Text × Bool)) (k : ℕ) (ls : List Listener) → Before k ls → remove_all es k ls ≡ ls
unfolding remove_all
remove_all-Before [] k ls h = refl
remove_all-Before (e ∷ es) k ls h = rw (remove_not k e ls h) (remove_all-Before es k ls h)

removes_own : (h : Hook) (k : ℕ) → remove_all (removed_by h) k (map (made k) (added_by h)) ≡ []
unfolding remove_all remove_event_listener added_by removed_by text_eq
removes_own global_error_logging k =
    rw (same-made k error_name error_name, same-made k unhandled_name unhandled_name) refl
removes_own (focus_debug true) k =
    rw (same-made k in_name in_name, same-made k out_name out_name) refl
removes_own (focus_debug false) k = refl
removes_own theme_dropdown k = rw (same-made k (codes "click", false) (codes "click", false)) refl

unmount-mount :
    (h : Hook) (k : ℕ) (ls : List Listener) → Before k ls → unmount h k (mount h k ls) ≡ ls
unfolding unmount
unmount-mount h k ls before =
    rw
      (
        mount_lem h k ls before,
        remove_all-append (removed_by h) k ls (map (made k) (added_by h)),
        remove_all-Before (removed_by h) k ls before,
        removes_own h k,
      )
      (append-nil ls)

at_run :
    (h : Hook) (k m : ℕ) (now ls : List Listener)
    → k ≡ m
    → (now ≡ ls ++ map (made k) (added_by h)) × (unmount h k now ≡ ls)
    → (now ≡ ls ++ map (made m) (added_by h)) × (unmount h m now ≡ ls)
at_run h k m now ls e p =
    subst (λ r. (now ≡ ls ++ map (made r) (added_by h)) × (unmount h r now ≡ ls)) e p

-- Mounted, and then cleaned up and mounted again any number of times, a component has each of its
-- listeners registered once, after those of others, which stay as they are, and those of its last run
-- alone; and its last clean-up leaves those of others, and none of its own.
pub remounted_lem :
    (h : Hook) (n k : ℕ) (ls : List Listener)
    → Before k ls
    → (remounted h n k ls ≡ ls ++ map (made (k + n)) (added_by h))
      × (unmount h (k + n) (remounted h n k ls) ≡ ls)
unfolding remounted
remounted_lem h zero k ls before =
    at_run h k (k + 0) (mount h k ls) ls (omega arith)
      (mount_lem h k ls before, unmount-mount h k ls before)
remounted_lem h (suc n) k ls before = rw (unmount-mount h k ls before) (
    at_run h (k + 1 + n) (k + suc n) (remounted h n (k + 1) ls) ls (omega arith)
      (remounted_lem h n (k + 1) ls (Before-step k ls before)))
