-- ===== src/Utils/Date.antt =====
-- src/utils/date.ts: timestamps for display. A timestamp is a whole number of seconds, as the back
-- end sends it; the locale's print of a date is a parameter, and so is the present time.
pub mod Relative
use search_every.Prelude.{ℕ, ◌/◌, ◌++◌, Text, Option, none, some, codes, ltb, if◌then◌else◌}
use search_every.Prelude.Decimal.{show}
use search_every.Prelude.Int.{ℤ, pos, negsuc, ◌-ℤ◌}
use search_every.Prelude.Number.{scale_ℤ}

-- The argument `ts?: number`.
pub data Timestamp : Type 0 where
  missing : Timestamp
  not_finite : Timestamp
  at : ℤ → Timestamp

-- `new Date(ms).toLocaleString()`; `none` is an exception.
abbrev pub Locale : Type 0
Locale = ℤ → Option Text

abbrev or_dash : Option Text → Text
or_dash none = codes "-"
or_dash (some t) = t

unfoldable pub format_ts : Locale → Timestamp → Text
format_ts locale missing = codes "-"
format_ts locale not_finite = codes "-"
format_ts locale (at ts) = or_dash (locale (scale_ℤ ts 1000))

-- The ladder of units, for a difference that is not negative.
unfoldable pub elapsed : ℕ → Text → Text
elapsed diff_ms absolute =
    let sec = diff_ms / 1000 in
    let min = sec / 60 in
    let hr = min / 60 in
    let day = hr / 24 in
    if ltb sec 5
    then codes "刚刚"
    else if ltb sec 60
    then show sec ++ codes " 秒前"
    else if ltb min 60
    then show min ++ codes " 分钟前"
    else if ltb hr 24
    then show hr ++ codes " 小时前"
    else if ltb day 30
    then show day ++ codes " 天前"
    else absolute

-- `if (diffMs < 0) return formatTs(ts)`
abbrev by_difference : ℤ → Text → Text
by_difference (negsuc n) absolute = absolute
by_difference (pos n) absolute = elapsed n absolute

-- The second argument is `Date.now()`.
unfoldable pub format_relative_ts : Locale → ℤ → Timestamp → Text
unfolding elapsed
format_relative_ts locale now missing = codes "-"
format_relative_ts locale now not_finite = codes "-"
format_relative_ts locale now (at ts) =
    by_difference (now -ℤ scale_ℤ ts 1000) (format_ts locale (at ts))
