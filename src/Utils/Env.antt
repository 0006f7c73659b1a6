-- ===== src/Utils/Env.antt =====
-- src/utils/env.ts: whether the program runs in Tauri.
use search_every.Prelude.{Bool, false}

-- The global `window`: it is not there, reading its member `__TAURI__` throws, or gives a value that
-- counts as true or false.
pub data Window : Type 0 where
  undefined : Window
  throws : Window
  member : Bool → Window

unfoldable pub is_tauri : Window → Bool
is_tauri undefined = false
is_tauri throws = false
is_tauri (member tauri) = tauri
