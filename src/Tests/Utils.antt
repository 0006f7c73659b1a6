-- ===== src/Tests/Utils.antt =====
-- Runs of src/utils, and its theorems at concrete inputs.
use search_every.Prelude.{
  [], ◌∷◌, Text, some, codes, ◌≡◌, refl, split, trim, trim_start, trim_end, is_space, slice,
}
use search_every.Prelude.Decimal.{show}
use search_every.Prelude.Int.{pos, negsuc, ◌-ℤ◌}
use search_every.Prelude.Number.{fin, whole, to_fixed}
use search_every.Utils.Csv.{parse_csv}
use search_every.Utils.Path.{shorten_path}
use search_every.Utils.Size.{format_bytes, no_opts}
use search_every.Utils.Date.{Locale, at, format_relative_ts}

abbrev windows : Text
windows = codes "\\Windows"

abbrev program_files : Text
program_files = codes "\\Program Files"

excludes_read : parse_csv (codes "\\Windows, \\Program Files,, ") ≡ windows ∷ program_files ∷ []
unfolding parse_csv split trim trim_start trim_end is_space
excludes_read = refl

abbrev long_path : Text
long_path = codes "D:/very/long/example/path/with/many/subfolders/file.txt"

shortened : shorten_path long_path (pos 30) ≡ codes "D:/.../subfolders/file.txt"
unfolding shorten_path split slice ◌-ℤ◌
shortened = refl

cut_in_the_middle : shorten_path long_path (pos 20) ≡ codes "D:/very/lo...ile.txt"
unfolding shorten_path split slice ◌-ℤ◌
cut_in_the_middle = refl

one_and_a_half : format_bytes (whole 1572864) no_opts ≡ codes "1.50 MB"
unfolding format_bytes to_fixed show
one_and_a_half = refl

minus : format_bytes (fin (negsuc 2047) 0) no_opts ≡ codes "-2 KB"
unfolding format_bytes to_fixed show
minus = refl

abbrev locale : Locale
locale ms = some (codes "2024/1/1")

two_hours :
    format_relative_ts locale (pos 1_700_007_200_000) (at (pos 1_700_000_000)) ≡ codes "2 小时前"
unfolding format_relative_ts show ◌-ℤ◌
two_hours = refl
