-- ===== src/Tests/Scripts.antt =====
-- Runs of the icon scripts, and their theorems at such runs.
use search_every.Prelude.{
  ℕ, [], ◌∷◌, true, false, none, some, codes, ◌≡◌, refl, text_eq, ◌==◌, if◌then◌else◌,
}
use search_every.Prelude.Decimal.{show}
use search_every.Scripts.Files.{Disk, written, exit_status}
use search_every.Scripts.Resize
use search_every.Scripts.Resize.{Image}
use search_every.Scripts.Resize.Ending.{ScriptEnds, main-ScriptEnds}
use search_every.Scripts.Generate

abbrev image : ℕ → ℕ → Image
image side color = record { width = side; height = side; buffer = color ∷ [] }

-- Pictures and icons keep their bytes; the size 32 cannot be scaled to.
abbrev codec : Resize.Codec
codec = record {
  parse_ico = λ bytes. some (image 16 1 ∷ image 256 2 ∷ image 256 3 ∷ []);
  resize = λ base size. if size == 32 then none else some base;
  png_to_ico = λ png. some png;
}

-- Only the fallback is there, and every file can be written.
abbrev disk : Disk
disk = record {
  dir_exists = true;
  exists = λ name. text_eq name Resize.fallback_ico;
  read = λ name. some (7 ∷ []);
  can_make_dir = false;
  can_write = λ name. true;
}

fallback_there : disk.exists (Resize.icon_path disk) ≡ true
unfolding text_eq
fallback_there = refl

two_icons :
    written (Resize.main codec disk)
    ≡ (codes "icon-128.ico", 2 ∷ []) ∷ (codes "icon-64.ico", 2 ∷ []) ∷ []
unfolding Resize.main Resize.load_base Resize.largest Resize.write_icons Resize.write_icon text_eq
    show
two_icons = refl

main-ScriptEnds_example :
    ScriptEnds codec disk (written (Resize.main codec disk)) (exit_status (Resize.main codec disk))
main-ScriptEnds_example = main-ScriptEnds codec disk

-- A picture is its drawing; an icon has one byte.
abbrev drawing : Generate.Codec
drawing = record { to_png = λ svg. some svg; png_to_ico = λ pictures. some (9 ∷ []) }

both_icons :
    written (Generate.main drawing disk Generate.sizes)
    ≡ (codes "icon-16.ico", 9 ∷ []) ∷ (codes "icon.ico", 9 ∷ []) ∷ []
unfolding Generate.main Generate.draw Generate.write_singles Generate.write_single
    Generate.write_multi Generate.svg_for_size show
both_icons = refl
