-- ===== src/BayerTile.antt =====
-- The tiling of a Bayer mosaic: core-driver/cam_driver/bayer_tile.py. An array of bytes is a function
-- of row and column, made from a list by `array` and turned into one by `bytes`; a shape that numpy
-- refuses is `none`.
mod Tables
mod Recolour
pub mod Untile
mod Tests
use camera_service.Common.{
  ℕ, zero, suc, ◌+◌, ◌-◌, ◌*◌, ◌/◌, ◌%◌, Bool, true, false, ◌&&◌, ◌||◌, Option, none, some, List,
  [], ◌∷◌, length, leb, ◌==◌, if◌then◌else◌,
}
use camera_service.Common.Text.{codes, text_eq}
use camera_service.Formats.{one_of}

-- What `recording.bayer_tile` holds.
pub data Value : Type 0 where
  flag : Bool → Value
  missing : Value
  word : List ℕ → Value

abbrev pub is_space : ℕ → Bool
is_space c = c == 32 || (leb 9 c && leb c 13) || (leb 28 c && leb c 31)

-- `text.strip()` and `text.lower()` on ASCII.
unfoldable pub strip_front : List ℕ → List ℕ
strip_front [] = []
strip_front (c ∷ cs) = if is_space c then strip_front cs else c ∷ cs

unfoldable pub strip_back : List ℕ → List ℕ
strip_back [] = []
strip_back (c ∷ cs) =
    let rest = strip_back cs in if is_space c && text_eq rest [] then [] else c ∷ rest

unfoldable pub lower : List ℕ → List ℕ
lower [] = []
lower (c ∷ cs) = (if leb 65 c && leb c 90 then c + 32 else c) ∷ lower cs

pub data Mode : Type 0 where
  off plain green_diff rct : Mode

unfoldable pub named_mode : List ℕ → Mode
named_mode s =
    if one_of s (codes "1" ∷ codes "true" ∷ codes "on" ∷ codes "yes" ∷ [])
    then plain
    else if text_eq s (codes "plain")
    then plain
    else if text_eq s (codes "green_diff")
    then green_diff
    else if text_eq s (codes "rct")
    then rct
    else off

unfoldable pub normalize_mode : Value → Mode
normalize_mode (flag true) = plain
normalize_mode (flag false) = off
normalize_mode missing = off
normalize_mode (word s) = named_mode (lower (strip_front (strip_back s)))

-- A quadrant, by the row and the column phase of its colour.
pub record Phase : Type 0 where
  pub row : ℕ
  pub col : ℕ

abbrev pub phase : ℕ → ℕ → Phase
phase r c = record { row = r; col = c }

pub record Phases : Type 0 where
  pub red : Phase
  pub green1 : Phase
  pub green2 : Phase
  pub blue : Phase

-- `_PHASES`, with its default for an unknown pattern.
unfoldable pub phases_of : List ℕ → Phases
phases_of p =
    if text_eq p (codes "grbg")
    then record { red = phase 0 1; green1 = phase 0 0; green2 = phase 1 1; blue = phase 1 0 }
    else if text_eq p (codes "gbrg")
    then record { red = phase 1 0; green1 = phase 0 0; green2 = phase 1 1; blue = phase 0 1 }
    else if text_eq p (codes "bggr")
    then record { red = phase 1 1; green1 = phase 0 1; green2 = phase 1 0; blue = phase 0 0 }
    else record { red = phase 0 0; green1 = phase 0 1; green2 = phase 1 0; blue = phase 1 1 }

unfoldable pub phases : Option (List ℕ) → Phases
phases none = phases_of (codes "rggb")
phases (some p) = phases_of (lower p)

-- The quadrants that a mode recolours.
unfoldable pub targets : Mode → Phases → List Phase
targets off ph = []
targets plain ph = []
targets green_diff ph = ph.green2 ∷ []
targets rct ph = ph.green2 ∷ ph.red ∷ ph.blue ∷ []

abbrev pub Array : Type 0
Array = ℕ → ℕ → ℕ

unfoldable pub cell : List ℕ → ℕ → ℕ
cell [] j = 0
cell (x ∷ xs) zero = x
cell (x ∷ xs) (suc j) = cell xs j

unfoldable pub tabulate : ℕ → (ℕ → ℕ) → List ℕ
tabulate zero f = []
tabulate (suc n) f = f 0 ∷ tabulate n (λ j. f (suc j))

unfoldable pub array : List ℕ → ℕ → Array
array m w r c = cell m (r * w + c)

unfoldable pub bytes : ℕ → ℕ → Array → List ℕ
bytes h w t = tabulate (h * w) (λ j. t (j / w) (j % w))

-- The row or column of the mosaic that an index of the tiled frame comes from, and back; `n` is half
-- the size.
unfoldable pub spread : ℕ → ℕ → ℕ
spread n i = 2 * (i % n) + i / n

unfoldable pub gathered : ℕ → ℕ → ℕ
gathered n i = (i % 2) * n + i / 2

unfoldable pub in_quadrant : ℕ → ℕ → ℕ → ℕ → Phase → Bool
in_quadrant h2 w2 r c p = r / h2 == p.row && c / w2 == p.col

-- `t[sl] = f(t[sl], g1)`
unfoldable pub recolour : (ℕ → ℕ → ℕ) → Array → ℕ → ℕ → Phase → Array → Array
recolour f g h2 w2 p t r c =
    if in_quadrant h2 w2 r c p then f (t r c) (g (r % h2) (c % w2)) else t r c

unfoldable pub recolour_all : (ℕ → ℕ → ℕ) → Array → ℕ → ℕ → List Phase → Array → Array
recolour_all f g h2 w2 [] t = t
recolour_all f g h2 w2 (p ∷ ps) t = recolour_all f g h2 w2 ps (recolour f g h2 w2 p t)

-- `t[_quad_slice(phase)]`
unfoldable pub quadrant : ℕ → ℕ → Phase → Array → Array
quadrant h2 w2 p t i k = t (p.row * h2 + i) (p.col * w2 + k)

-- `(x - g1 + 128) & 0xFF` and `(x - 128 + g1) & 0xFF` on bytes, kept above zero.
unfoldable pub difference : ℕ → ℕ → ℕ
difference x g = (x + 384 - g) % 256

unfoldable pub restored : ℕ → ℕ → ℕ
restored x g = (x + 128 + g) % 256

-- Whether the bytes can be shaped as the code does: in halves, and as rows.
unfoldable pub has_shape : List ℕ → ℕ → ℕ → Bool
has_shape m w h = length m == h / 2 * 2 * (w / 2) * 2 && length m == h * w

unfoldable pub tiled : Array → ℕ → ℕ → Mode → Phases → Array
tiled a h2 w2 mode ph =
    let t : Array = λ r c. a (spread h2 r) (spread w2 c) in
    recolour_all difference (quadrant h2 w2 ph.green1 t) h2 w2 (targets mode ph) t

unfoldable pub untiled : Array → ℕ → ℕ → Mode → Phases → Array
untiled t h2 w2 mode ph =
    let u = recolour_all restored (quadrant h2 w2 ph.green1 t) h2 w2 (targets mode ph) t in
    λ r c. u (gathered h2 r) (gathered w2 c)

unfoldable pub tile_cfa : List ℕ → ℕ → ℕ → Mode → Option (List ℕ) → Option (List ℕ)
tile_cfa mosaic w h mode pattern =
    if has_shape mosaic w h
    then some (bytes h w (tiled (array mosaic w) (h / 2) (w / 2) mode (phases pattern)))
    else none

unfoldable pub untile_cfa : List ℕ → ℕ → ℕ → Mode → Option (List ℕ) → Option (List ℕ)
untile_cfa t w h mode pattern =
    if has_shape t w h
    then some (bytes h w (untiled (array t w) (h / 2) (w / 2) mode (phases pattern)))
    else none
