-- ===== src/Utils/Highlight/Pattern.antt =====
-- The pattern of escaped terms: how the code writes it, and how `RegExp` reads it.
use search_every.Prelude.{
  ℕ, List, [], ◌∷◌, ◌++◌, Text, Bool, true, false, map, Option, none, some, codes, ◌==◌,
  if◌then◌else◌, any, join, ◌≡◌, refl, arith, append_assoc, append-nil, ap, sym, ◌∙◌, Bool-cases,
  inl, inr,
}

-- `[.*+?^${}()|[\]\\]`
unfoldable pub is_special : ℕ → Bool
is_special c = any (λ d. c == d) (codes ".*+?^${}()|[]\\")

-- `t.replace(/[.*+?^${}()|[\]\\]/g, '\\$&')`
unfoldable pub escape : Text → Text
escape [] = []
escape (c ∷ s) = if is_special c then b'\\' ∷ c ∷ escape s else c ∷ escape s

-- `escTerms.join('|')`
unfoldable pub union : List Text → Text
unfolding escape
union terms = join (codes "|") (map escape terms)

abbrev before_alternatives : Text → Option (List Text) → Option (List Text)
before_alternatives cur none = none
before_alternatives cur (some alts) = some (cur ∷ alts)

-- A pattern read as an alternation of literals; `cur` is the current alternative, and the flag says
-- that a backslash stands before. `none`: it is something else.
unfoldable pub read_union : Text → Text → Bool → Option (List Text)
read_union [] cur true = none
read_union [] cur false = some (cur ∷ [])
read_union (c ∷ s) cur true =
    let literal = read_union s (cur ++ c ∷ []) false in if is_special c then literal else none
read_union (c ∷ s) cur false =
    let escaped = read_union s cur true in
    let next = before_alternatives cur (read_union s [] false) in
    let literal = read_union s (cur ++ c ∷ []) false in
    if c == b'\\'
    then escaped
    else if c == b'|'
    then next
    else if is_special c
    then none
    else literal

not_special : (c : ℕ) → is_special c ≡ false → ((c == b'\\') ≡ false) × ((c == b'|') ≡ false)
unfolding is_special
not_special c h = ground arith

read_union-escape :
    (s rest cur : Text) → read_union (escape s ++ rest) cur false ≡ read_union rest (cur ++ s) false
unfolding read_union escape
read_union-escape [] rest cur = rw append-nil
read_union-escape (c ∷ s) rest cur = elim (Bool-cases (is_special c)) [
  | inl e ↦ rw (e, e, read_union-escape s rest (cur ++ c ∷ []), append_assoc)
  | inr e ↦ rw (
    e,
    (not_special c e).0,
    (not_special c e).1,
    e,
    read_union-escape s rest (cur ++ c ∷ []),
    append_assoc,
  )
]

read_union_bar :
    (s cur : Text)
    → read_union (b'|' ∷ s) cur false ≡ before_alternatives cur (read_union s [] false)
unfolding read_union
read_union_bar s cur = refl

read_union_end : (cur : Text) → read_union [] cur false ≡ some (cur ∷ [])
unfolding read_union
read_union_end cur = refl

-- The pattern of escaped terms is read as these terms: no character of the query has a meaning of
-- its own, and the pattern is never malformed.
pub read_union-union :
    (t : Text) (ts : List Text) → read_union (union (t ∷ ts)) [] false ≡ some (t ∷ ts)
unfolding union join
read_union-union t [] =
    ap (λ p. read_union p [] false) (sym (append-nil (escape t)))
    ∙ read_union-escape t [] []
    ∙ read_union_end t
read_union-union t (t' ∷ ts) =
    read_union-escape t (b'|' ∷ union (t' ∷ ts)) []
    ∙ read_union_bar (union (t' ∷ ts)) t
    ∙ ap (before_alternatives t) (read_union-union t' ts)
