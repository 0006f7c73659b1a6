-- ===== src/Scripts/Resize.antt =====
-- scripts/resize-ico-from-256.mjs: icons of four sizes from the largest image of an existing icon.
pub mod Largest
pub mod Ending
use search_every.Prelude.{
  ℕ, ◌*◌, List, [], ◌∷◌, ◌++◌, Text, Bool, Option, none, some, codes, ltb, if◌then◌else◌,
}
use search_every.Prelude.Decimal.{show}
use search_every.Scripts.Files.{
  Buffer, Disk, Run, returns, throws, attempt, ensure_dir, write_file, icon_name, ◌>>=◌, ◌>>◌,
}

-- An image of an icon, as the library decodes it.
pub record Image : Type 0 where
  pub width : ℕ
  pub height : ℕ
  pub buffer : Buffer

-- The image libraries: decoding an icon, scaling a picture to a square, and encoding an icon; `none`
-- is an exception.
pub record Codec : Type 0 where
  pub parse_ico : Buffer → Option (List Image)
  pub resize : Buffer → ℕ → Option Buffer
  pub png_to_ico : Buffer → Option Buffer

abbrev pub area : Image → ℕ
area i = i.width * i.height

-- `images.reduce((acc, cur) => (cur.width * cur.height > acc.width * acc.height ? cur : acc))`
unfoldable pub largest : Image → List Image → Image
largest acc [] = acc
largest acc (cur ∷ rest) = largest (if ltb (area acc) (area cur) then cur else acc) rest

abbrev pub source_ico : Text
source_ico = codes "icon-256.ico"

abbrev pub fallback_ico : Text
fallback_ico = codes "icon.ico"

abbrev pub icon_path : Disk → Text
icon_path d = if d.exists source_ico then source_ico else fallback_ico

-- `none` is an exception.
abbrev largest_of : List Image → Option Buffer
largest_of [] = none
largest_of (i ∷ is) = let best = largest i is in some best.buffer

abbrev parsed : Codec → Option Buffer → Option Buffer
parsed c none = none
parsed c (some bytes) = elim (c.parse_ico bytes) [ none ↦ none | some images ↦ largest_of images ]

-- `loadBasePngBuffer`
unfoldable pub load_base : Codec → Disk → Option Buffer
unfolding largest
load_base c d = if d.exists (icon_path d) then parsed c (d.read (icon_path d)) else none

-- The body of the loop.
unfoldable pub write_icon : Codec → Disk → Buffer → ℕ → Run (Unit {0})
write_icon c d base size = do
  resized ← attempt (c.resize base size)
  ico ← attempt (c.png_to_ico resized)
  write_file d (icon_name size) ico

unfoldable pub write_icons : Codec → Disk → Buffer → List ℕ → Run (Unit {0})
unfolding write_icon
write_icons c d base [] = returns [] tt
write_icons c d base (size ∷ sizes) = write_icon c d base size >> write_icons c d base sizes

abbrev pub sizes : List ℕ
sizes = 128 ∷ 64 ∷ 32 ∷ 16 ∷ []

unfoldable pub main : Codec → Disk → Run (Unit {0})
unfolding load_base write_icons
main c d = do ensure_dir d; base ← attempt (load_base c d); write_icons c d base sizes
