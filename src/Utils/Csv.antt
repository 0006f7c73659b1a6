-- ===== src/Utils/Csv.antt =====
-- src/utils/string.ts: the comma-separated lists that the user edits (scan roots, exclude patterns,
-- extensions).
pub mod RoundTrip
use search_every.Prelude.{ℕ, List, Text, Bool, map, comma, ◌==◌, filter, truthy, trim, split}

unfoldable pub parse_csv : Text → List Text
parse_csv input = filter truthy (map trim (split (λ c. c == comma) input))
