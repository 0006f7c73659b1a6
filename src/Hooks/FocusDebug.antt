-- ===== src/Hooks/FocusDebug.antt =====
-- src/hooks/useFocusDebug.ts: the element that got the focus last, as a text. The print of letters in
-- lower case is a parameter; the console is left out.
use search_every.Prelude.{
  ℕ, [], ◌∷◌, ◌++◌, Text, Bool, Option, none, some, codes, join, split, ◌==◌, if◌then◌else◌,
}

-- An element; `class_name` is `String(t.className)`.
pub record Target : Type 0 where
  pub tag_name : Text
  pub id : Text
  pub class_name : Text

-- A part of the text that is left out with its mark where it is empty.
abbrev prefixed : ℕ → Text → Text → Text
prefixed mark [] shown = []
prefixed mark (c ∷ s) shown = mark ∷ shown

-- `tag#id.class.class`
unfoldable pub describe : (Text → Text) → Option Target → Text
describe lower none = codes "unknown"
describe lower (some t) =
    lower t.tag_name
    ++ (prefixed b'#' t.id t.id
        ++ prefixed b'.' t.class_name (join (codes ".") (split (λ c. c == 32) t.class_name)))

pub data FocusEvent : Type 0 where
  focus_in : Option Target → FocusEvent
  focus_out : Option Target → FocusEvent

-- The first argument is `enabled`: nothing is listened to without it.
unfoldable pub on_focus : Bool → (Text → Text) → FocusEvent → Text → Text
unfolding describe
on_focus enabled lower (focus_in t) last_focus = if enabled then describe lower t else last_focus
on_focus enabled lower (focus_out t) last_focus = last_focus
