-- ===== src/Scripts/Resize/Largest.antt =====
-- The image that the icons are made from.
use search_every.Prelude.{
  ◌<◌, ◌≤◌, List, [], ◌∷◌, true, some, ltb, ◌≡◌, refl, ap, arith, All, Bool-cases, inl, inr,
}
use search_every.Scripts.Files.{Buffer, Disk}
use search_every.Scripts.Resize.{Image, Codec, area, largest, load_base, icon_path}

-- The image is the first in the list of those that are largest.
pub data FirstLargest (best : Image) : List Image → Type 0 where
  here :
      (i : Image) (rest : List Image)
      → i ≡ best
      → All (λ j. area j ≤ area best) rest
      → FirstLargest best (i ∷ rest)
  later :
      (i : Image) (rest : List Image)
      → area i < area best
      → FirstLargest best rest
      → FirstLargest best (i ∷ rest)

le-largest : (acc : Image) (rest : List Image) → area acc ≤ area (largest acc rest)
unfolding largest
le-largest acc [] = omega arith
le-largest acc (cur ∷ rest) = elim (Bool-cases (ltb (area acc) (area cur))) [
  | inl e ↦ rw (e, largest) (ground (arith, le-largest cur rest))
  | inr e ↦ rw (e, largest) (le-largest acc rest)
]

-- A smaller image behind the head changes nothing.
FirstLargest-insert :
    (best acc cur : Image) (rest : List Image)
    → area cur ≤ area acc
    → FirstLargest best (acc ∷ rest)
    → FirstLargest best (acc ∷ cur ∷ rest)
FirstLargest-insert best acc cur rest h (here i r e a) =
    here acc (cur ∷ rest) e (omega (arith, ap area e), a)
FirstLargest-insert best acc cur rest h (later i r l f) =
    later acc (cur ∷ rest) l (later cur rest (omega arith) f)

largest-FirstLargest :
    (acc : Image) (rest : List Image) → FirstLargest (largest acc rest) (acc ∷ rest)
unfolding largest
largest-FirstLargest acc [] = here acc [] refl tt
largest-FirstLargest acc (cur ∷ rest) = elim (Bool-cases (ltb (area acc) (area cur))) [
  | inl e ↦
      rw e (
        later acc (cur ∷ rest) (ground (arith, le-largest cur rest))
          (largest-FirstLargest cur rest))
  | inr e ↦ rw e (
      FirstLargest-insert (largest acc rest) acc cur rest (ground arith)
        (largest-FirstLargest acc rest))
]

-- If one of the two icons is there, can be read, and is decoded to one image or more, the picture is
-- that of the first image among the largest; `icon-256.ico` goes before `icon.ico`.
load_base-FirstLargest :
    (c : Codec) (d : Disk) (bytes : Buffer) (i : Image) (rest : List Image)
    → d.exists (icon_path d) ≡ true
    → d.read (icon_path d) ≡ some bytes
    → c.parse_ico bytes ≡ some (i ∷ rest)
    → (best : Image) × (load_base c d ≡ some best.buffer) × FirstLargest best (i ∷ rest)
unfolding load_base
load_base-FirstLargest c d bytes i rest there read decoded =
    (largest i rest, ground arith, largest-FirstLargest i rest)
