-- ===== src/Tests/Hooks.antt =====
-- Runs of the subscription hook, and its theorems at such runs.
use search_every.Prelude.{◌+◌, ◌*◌, ◌≤◌, List, [], ◌∷◌, ◌++◌, codes, map, ◌≡◌, false, refl, length}
use search_every.Hooks.TauriEvents.{
  Config, Event, subscribes, fails, timer, cleanup, start, step, run, on_subscribe, on_failure,
  calling,
}
use search_every.Hooks.Listeners.{
  Listener, global_error_logging, added_by, made, unmount, remounted,
}
use search_every.Hooks.Listeners.Balance.{remounted_lem}
use search_every.Hooks.TauriEvents.Release.{cleanup_releases}
use search_every.Hooks.TauriEvents.Ending.{Drives, loop_ends}

-- The four subscriptions of the application.
abbrev app_config : Config
app_config = record { count = 4; retries = 3; backoff_ms = 600 }

-- The second subscription fails once.
abbrev one_failure : List Event
one_failure = subscribes 10 ∷ fails ∷ timer ∷ subscribes 11 ∷ subscribes 12 ∷ []

three_listeners : (run app_config (start app_config) one_failure).live ≡ 10 ∷ 11 ∷ 12 ∷ []
unfolding run step start on_subscribe on_failure
three_listeners = refl

cleanup_releases_example :
    (step app_config (run app_config (start app_config) one_failure) cleanup).live ≡ []
cleanup_releases_example = cleanup_releases app_config one_failure (tt, (tt, (tt, (tt, (tt, tt)))))

-- The clean-up comes while the first subscription is on its way.
first_call : (start app_config).phase ≡ calling
unfolding start
first_call = refl

one_failure-Drives : Drives app_config (start app_config) one_failure
unfolding step start on_subscribe on_failure
one_failure-Drives = (tt, (tt, (tt, (tt, (tt, tt)))))

loop_ends_example : length one_failure ≤ 2 * (4 * (3 + 1))
loop_ends_example = loop_ends app_config one_failure one_failure-Drives

-- A listener of the menu, registered before.
abbrev of_menu : List Listener
of_menu = made 1 (codes "click", false) ∷ []

remounted_lem_example :
    (remounted global_error_logging 1 2 of_menu
      ≡ of_menu ++ map (made 3) (added_by global_error_logging))
    × (unmount global_error_logging 3 (remounted global_error_logging 1 2 of_menu) ≡ of_menu)
remounted_lem_example = remounted_lem global_error_logging 1 2 of_menu (refl, tt)
