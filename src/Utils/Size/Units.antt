-- ===== src/Utils/Size/Units.antt =====
-- Which unit `format_bytes` picks and how it rounds; `to_bytes_mb` and the way back.
use search_every.Prelude.{
  ℕ, suc, ◌+◌, ◌*◌, ◌/◌, ◌%◌, ◌^◌, ◌≤◌, ◌<◌, [], ◌∷◌, ◌++◌, Text, codes, ltb, if◌then◌else◌, ◌≡◌,
  refl, ap, ◌∙◌, arith, append_assoc,
}
use native.Mathlib.Nat.{one-le-pow, div-mul-le_self, lt-mul-div-succ}
use search_every.Prelude.Decimal.{show, show_ℤ}
use search_every.Prelude.Int.{pos, negsuc}
use search_every.Prelude.Number.{fin, whole, round, to_fixed}
use search_every.Utils.Size.{Digits, no_opts, or_default, format_bytes, to_bytes_mb, scale_unit}

round_whole : (n : ℕ) → round (pos n) 0 ≡ pos n
unfolding round
round_whole n = ap pos (omega arith)

round_whole_negative : (n : ℕ) → round (negsuc n) 0 ≡ negsuc n
unfolding round
round_whole_negative n = ground arith

-- The unit by the size of the number: one threshold for each power of 1024.
unfoldable pub by_threshold : ℕ → Digits → Text
by_threshold n o =
    if ltb n 1024
    then show n ++ codes " B"
    else if ltb n (2 ^ 20)
    then to_fixed n 10 (or_default o.digits_kb 0) ++ codes " KB"
    else if ltb n (2 ^ 30)
    then to_fixed n 20 (or_default o.digits_mb 2) ++ codes " MB"
    else if ltb n (2 ^ 40)
    then to_fixed n 30 (or_default o.digits_gb 2) ++ codes " GB"
    else to_fixed n 40 (or_default o.digits_tb 2) ++ codes " TB"

-- The loop over the units finds the unit whose range holds the number.
format_bytes-by_threshold : (n : ℕ) (o : Digits) → format_bytes (whole n) o ≡ by_threshold n o
unfolding format_bytes by_threshold scale_unit show_ℤ
format_bytes-by_threshold n o = ground (arith, round_whole n)

pub to_bytes_mb-whole : (n : ℕ) → to_bytes_mb (whole n) ≡ whole (n * (1024 * 1024))
unfolding to_bytes_mb
to_bytes_mb-whole n = ap (λ z. fin z 0) (round_whole (n * 1048576))

-- A negative number is shown as its opposite behind a minus sign.
pub format_bytes_negative :
    (n : ℕ) (o : Digits) → format_bytes (fin (negsuc n) 0) o ≡ b'-' ∷ format_bytes (whole (suc n)) o
unfolding format_bytes show_ℤ
format_bytes_negative n o = ground (arith, round_whole (suc n), round_whole_negative n)

-- Rounding comes after the choice of the unit: just below a megabyte the text is 1024 KB.
format_bytes_1024_kb :
    (n : ℕ) → 2 ^ 20 ≤ n + 512 → n < 2 ^ 20 → format_bytes (whole n) no_opts ≡ codes "1024 KB"
format_bytes_1024_kb n h k = format_bytes-by_threshold n no_opts ∙ in_kb
  where
    shown : by_threshold n no_opts ≡ to_fixed n 10 0 ++ codes " KB"
    shown = unfold by_threshold in ground arith

    full : to_fixed n 10 0 ≡ show 1024
    full = unfold to_fixed in ap show (omega arith)

    in_kb : by_threshold n no_opts ≡ codes "1024 KB"
    in_kb = shown ∙ rw full (unfold show in refl)

-- The nearest whole number of bytes, and the upper one of two.
pub to_bytes_mb_nearest :
    (m e : ℕ)
    → (r : ℕ) × (to_bytes_mb (fin (pos m) e) ≡ whole r)
      × (r * (2 * 2 ^ e) ≤ m * (1024 * 1024) * 2 + 2 ^ e)
      × (m * (1024 * 1024) * 2 + 2 ^ e < (r + 1) * (2 * 2 ^ e))
unfolding to_bytes_mb round
to_bytes_mb_nearest m e =
    let bytes = m * (1024 * 1024) * 2 + 2 ^ e in
    let unit = 2 * 2 ^ e in
    let positive : 0 < unit = omega (arith, one-le-pow e 2 (omega arith)) in
    (bytes / unit, refl, div-mul-le_self bytes unit, omega (arith, lt-mul-div-succ bytes positive))

hundredths :
    (k n : ℕ)
    → k ≡ n * 100
    → show (k / 100) ++ (b'.' ∷ (b'0' + k / 10 % 10) ∷ (b'0' + k % 10) ∷ []) ≡ show n ++ codes ".00"
hundredths k n h =
    let q : k / 100 ≡ n = omega arith in
    let tenths : b'0' + k / 10 % 10 ≡ b'0' = omega arith in
    let units : b'0' + k % 10 ≡ b'0' = omega arith in rw (q, tenths, units)

-- A whole number of megabytes below a gigabyte is shown as the number that was typed.
format_bytes-to_bytes_mb :
    (n : ℕ)
    → 1 ≤ n
    → n < 1024
    → format_bytes (to_bytes_mb (whole n)) no_opts ≡ show n ++ codes ".00 MB"
format_bytes-to_bytes_mb n h k = bytes ∙ format_bytes-by_threshold (n * 1048576) no_opts ∙ shown
  where
    bytes :
        format_bytes (to_bytes_mb (whole n)) no_opts ≡ format_bytes (whole (n * 1048576)) no_opts
    bytes =
        unfold to_bytes_mb in ap (λ z. format_bytes (fin z 0) no_opts) (round_whole (n * 1048576))

    cents : (n * 1048576 * 10 ^ 2 * 2 + 2 ^ 20) / (2 * 2 ^ 20) ≡ n * 100
    cents = omega arith

    exact : to_fixed (n * 1048576) 20 2 ≡ show n ++ codes ".00"
    exact = unfold to_fixed in hundredths _ n cents

    shown : by_threshold (n * 1048576) no_opts ≡ show n ++ codes ".00 MB"
    shown =
        unfold by_threshold in
        ground (arith, exact, append_assoc (show n) (codes ".00") (codes " MB"))
