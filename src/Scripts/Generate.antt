-- ===== src/Scripts/Generate.antt =====
-- scripts/generate-icons.mjs: the icon of the program, drawn as SVG.
pub mod Phases
use search_every.Prelude.{
  ℕ, ◌+◌, ◌*◌, ◌/◌, List, [], ◌∷◌, ◌++◌, Text, Option, none, some, codes, map, ◌==◌, if◌then◌else◌,
}
use search_every.Prelude.Decimal.{show}
use search_every.Scripts.Files.{
  Buffer, Disk, Run, returns, throws, attempt, ensure_dir, write_file, icon_name, ◌>>=◌, ◌>>◌,
}

-- What `png-to-ico` is given: one picture or several, where a missing entry of the map is `undefined`.
pub data Pictures : Type 0 where
  one : Option Buffer → Pictures
  many : List (Option Buffer) → Pictures

-- The image libraries; `none` is an exception.
pub record Codec : Type 0 where
  pub to_png : Text → Option Buffer
  pub png_to_ico : Pictures → Option Buffer

-- `Math.round(size * 0.68)`: no product of a whole size and 17 / 25 lies half way.
abbrev pub font_size : ℕ → ℕ
font_size size = (size * 68 + 50) / 100

unfoldable pub svg_for_size : ℕ → Text
svg_for_size size =
    codes
      "<?xml version=\"1.0\" encoding=\"UTF-8\"?>\n<svg xmlns=\"http://www.w3.org/2000/svg\" width=\""
    ++ (show size
        ++ (codes "\" height=\""
            ++ (show size
                ++ (codes "\" viewBox=\"0 0 "
                    ++ (show size
                        ++ (codes " "
                            ++ (show size
                                ++ (codes "\">\n  <rect x=\"0\" y=\"0\" width=\""
                                    ++ (show size
                                        ++ (codes "\" height=\""
                                            ++ (show size
                                                ++ (codes
                                                      "\" rx=\"6\" ry=\"6\" fill=\"#000000\"/>\n  <text x=\"50%\" y=\"50%\" dy=\"0.3em\" fill=\"#25D090\" font-size=\""
                                                    ++ (show (font_size size)
                                                        ++ codes
                                                            "\" font-weight=\"700\" font-family=\"Inter, Segoe UI, Arial, sans-serif\" text-anchor=\"middle\" dominant-baseline=\"central\" alignment-baseline=\"central\">SE</text>\n</svg>")))))))))))))

-- `generatePngBuffer`
abbrev pub png_of : Codec → ℕ → Option Buffer
png_of c size = c.to_png (svg_for_size size)

-- A `Map` from sizes to pictures; the newest entry stands in front.
abbrev pub Pngs : Type 0
Pngs = List (ℕ × Buffer)

abbrev pub get : Pngs → ℕ → Option Buffer
get [] size = none
get ((s, png) ∷ rest) size = if s == size then some png else get rest size

-- The first loop.
unfoldable pub draw : Codec → Pngs → List ℕ → Run Pngs
draw c pngs [] = returns [] pngs
draw c pngs (size ∷ sizes) = attempt (png_of c size) >>= λ png. draw c ((size, png) ∷ pngs) sizes

-- The body of the second loop.
unfoldable pub write_single : Codec → Disk → Pngs → ℕ → Run (Unit {0})
write_single c d pngs size = do
  ico ← attempt (c.png_to_ico (one (get pngs size)))
  write_file d (icon_name size) ico

unfoldable pub write_singles : Codec → Disk → Pngs → List ℕ → Run (Unit {0})
unfolding write_single
write_singles c d pngs [] = returns [] tt
write_singles c d pngs (size ∷ sizes) = write_single c d pngs size >> write_singles c d pngs sizes

-- The icon of all sizes.
unfoldable pub write_multi : Codec → Disk → Pngs → List ℕ → Run (Unit {0})
write_multi c d pngs sizes = do
  ico ← attempt (c.png_to_ico (many (map (get pngs) sizes)))
  write_file d (codes "icon.ico") ico

-- `main`, for a list of sizes.
unfoldable pub main : Codec → Disk → List ℕ → Run (Unit {0})
unfolding draw write_singles write_multi
main c d sizes = do
  ensure_dir d
  pngs ← draw c [] sizes
  write_singles c d pngs sizes
  write_multi c d pngs sizes

abbrev pub sizes : List ℕ
sizes = 16 ∷ []
