-- ===== src/Utils/Date/Relative.antt =====
-- The units of the relative time.
use search_every.Prelude.{
  ℕ, ◌/◌, ◌*◌, ◌-◌, Bool-cases, inl, inr, ◌++◌, Text, codes, ltb, if◌then◌else◌, ◌≡◌, arith,
}
use search_every.Prelude.Decimal.{show}
use search_every.Prelude.Int.{pos, pos-ℤ_pos, pos-ℤ_above}
use search_every.Utils.Date.{Locale, at, format_ts, elapsed, format_relative_ts}

-- The text for an elapsed time in milliseconds, one threshold for each unit.
unfoldable pub since : ℕ → Text → Text
since ms absolute =
    if ltb ms 5_000
    then codes "刚刚"
    else if ltb ms 60_000
    then show (ms / 1_000) ++ codes " 秒前"
    else if ltb ms 3_600_000
    then show (ms / 60_000) ++ codes " 分钟前"
    else if ltb ms 86_400_000
    then show (ms / 3_600_000) ++ codes " 小时前"
    else if ltb ms 2_592_000_000
    then show (ms / 86_400_000) ++ codes " 天前"
    else absolute

-- The nested divisions of the code are divisions of the milliseconds.
nested :
    (ms : ℕ)
    → (ms / 1000 / 60 ≡ ms / 60000)
      × (ms / 1000 / 60 / 60 ≡ ms / 3600000)
      × (ms / 1000 / 60 / 60 / 24 ≡ ms / 86400000)
nested ms = omega arith

elapsed-since : (ms : ℕ) (absolute : Text) → elapsed ms absolute ≡ since ms absolute
unfolding elapsed since
elapsed-since ms absolute = rw ((nested ms).2, (nested ms).1, (nested ms).0) (ground arith)

-- A time in the past is shown by its age, rounded down in the largest unit that fits; one in the
-- future, or thirty days ago or longer, by its date.
format_relative_ts-since :
    (locale : Locale) (now ts : ℕ)
    → format_relative_ts locale (pos now) (at (pos ts)) ≡ (
        if ltb now (ts * 1000)
        then format_ts locale (at (pos ts))
        else since (now - ts * 1000) (format_ts locale (at (pos ts))))
unfolding format_relative_ts
format_relative_ts-since locale now ts = elim (Bool-cases (ltb now (ts * 1000))) [
  | inl e ↦ rw (e, pos-ℤ_above now (ts * 1000) (ground arith))
  | inr e ↦ rw (e, pos-ℤ_pos now (ts * 1000) (ground arith), elapsed-since (now - ts * 1000))
]
