-- ===== src/Services/Value.antt =====
-- The values that a command takes: JSON, and the `undefined` that it leaves out.
use Prim.Native.String.{String}
use text.Mathlib.Text.{◌==◌ as str_eq}
use search_every.Prelude.{List, [], ◌∷◌, Text, Bool, Option, none, some, if◌then◌else◌}
use search_every.Prelude.Number.{Number}

mutual
  -- The members of an object, in order.
  pub data Members : Type 0 where
    no_members : Members
    member : String → Value → Members → Members

  pub data Values : Type 0 where
    no_values : Values
    and_value : Value → Values → Values

  pub data Value : Type 0 where
    string : Text → Value
    number : Number → Value
    boolean : Bool → Value
    object : Members → Value
    array : Values → Value
    undefined : Value
    null : Value

abbrev pub get_member : String → Members → Value
get_member k no_members = undefined
get_member k (member j v fs) = if str_eq j k then v else get_member k fs

-- `v.k`, and `undefined` where there is none
abbrev pub get : String → Value → Value
get k (object fs) = get_member k fs
get k _ = undefined

abbrev pub texts : List Text → Values
texts [] = no_values
texts (x ∷ xs) = and_value (string x) (texts xs)

abbrev pub optional {ℓ} : {A : Type ℓ} → (A → Value) → Option A → Value
optional f none = undefined
optional f (some a) = f a
