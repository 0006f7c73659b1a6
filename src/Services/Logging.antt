-- ===== src/Services/Logging.antt =====
-- src/services/logging.ts and src/hooks/useGlobalErrorLogging.ts: what is written to the console. The
-- present time is a parameter.
use search_every.Prelude.{List, [], Text, Option, none, some, codes}

-- A thrown value: its `message`, its `toString()` and its `stack`, where it has them, and
-- `String(error)`.
pub record Thrown : Type 0 where
  pub message : Option Text
  pub to_string : Option Text
  pub as_string : Text
  pub stack : Option Text

pub data Level : Type 0 where
  info error : Level

-- `extra` holds the further members, by name.
pub record Entry : Type 0 where
  pub level : Level
  pub time : Text
  pub context : Option Text
  pub message : Text
  pub stack : Option Text
  pub extra : List (Text × Text)

-- `new Date().toISOString()`, and the empty text for an exception
abbrev pub now_iso : Option Text → Text
now_iso none = []
now_iso (some t) = t

-- `error?.message ?? error?.toString?.() ?? String(error)`
abbrev pub message_of : Option Text → Option Text → Text → Text
message_of (some m) shown text = m
message_of none (some shown) text = shown
message_of none none text = text

unfoldable pub log_info : Option Text → Text → Option Text → List (Text × Text) → Entry
log_info now message context extra = record {
  level = info;
  time = now_iso now;
  context = context;
  message = message;
  stack = none;
  extra = extra;
}

unfoldable pub log_error : Option Text → Thrown → Option Text → List (Text × Text) → Entry
log_error now e context extra = record {
  level = error;
  time = now_iso now;
  context = context;
  message = message_of e.message e.to_string e.as_string;
  stack = e.stack;
  extra = extra;
}

-- The events of the window; an error event has a message beside the error.
pub data WindowEvent : Type 0 where
  uncaught : Option Thrown → Text → WindowEvent
  unhandled : Thrown → WindowEvent

-- A text that is logged as an error.
abbrev text_thrown : Text → Thrown
text_thrown t = record { message = none; to_string = some t; as_string = t; stack = none }

-- `event.error ?? event.message`
abbrev or_message : Option Thrown → Text → Thrown
or_message none message = text_thrown message
or_message (some e) message = e

unfoldable pub on_window : Option Text → WindowEvent → Entry
unfolding log_error
on_window now (uncaught e message) =
    log_error now (or_message e message) (some (codes "window.onerror")) []
on_window now (unhandled e) = log_error now e (some (codes "window.onunhandledrejection")) []
