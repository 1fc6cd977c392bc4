-- ===== src/Preview.antt =====
-- The size of the WebRTC preview: parse_max_size and fit_within of
-- plugins/webrtc-bridge/tools/scale_plan.py. A text is its code points, ASCII.
pub mod Fits
mod Tests
use camera_service.Common.{
  ℕ, ◌+◌, ◌-◌, ◌*◌, ◌/◌, Bool, true, false, not, ◌&&◌, ◌||◌, List, [], ◌∷◌, max, ltb, leb, ◌==◌,
  if◌then◌else◌,
}
use camera_service.Common.Text.{codes, text_eq}
use camera_service.BayerTile.{lower, is_space}
use camera_service.Formats.{one_of}

-- `"".join(spec.split())`
unfoldable pub unspaced : List ℕ → List ℕ
unspaced [] = []
unspaced (c ∷ cs) = let rest = unspaced cs in if is_space c then rest else c ∷ rest

abbrev pub off_forms : List (List ℕ)
off_forms = [] ∷ codes "0" ∷ codes "off" ∷ codes "false" ∷ codes "no" ∷ codes "none" ∷ []

-- `s.split("x")`
unfoldable pub onto_first : ℕ → List (List ℕ) → List (List ℕ)
onto_first c [] = (c ∷ []) ∷ []
onto_first c (p ∷ ps) = (c ∷ p) ∷ ps

unfoldable pub split_x : List ℕ → List (List ℕ)
split_x [] = [] ∷ []
split_x (c ∷ cs) = let rest = split_x cs in if c == 120 then [] ∷ rest else onto_first c rest

-- `p.isdigit()` and `int(p)`
unfoldable pub all_digits : List ℕ → Bool
all_digits [] = true
all_digits (c ∷ cs) = leb 48 c && leb c 57 && all_digits cs

abbrev pub is_digit : List ℕ → Bool
is_digit p = not (text_eq p []) && all_digits p

unfoldable pub int_from : ℕ → List ℕ → ℕ
int_from n [] = n
int_from n (c ∷ cs) = int_from (n * 10 + (c - 48)) cs

pub data MaxSize : Type 0 where
  off bad : MaxSize
  box : ℕ → ℕ → MaxSize

unfoldable pub box_of : List ℕ → List ℕ → MaxSize
box_of p q =
    let w = int_from 0 p in
    let h = int_from 0 q in
    if not (is_digit p && is_digit q) then bad else if ltb w 2 || ltb h 2 then bad else box w h

unfoldable pub parts_of : List (List ℕ) → MaxSize
parts_of (p ∷ []) = box_of p p
parts_of (p ∷ q ∷ []) = box_of p q
parts_of (p ∷ q ∷ r ∷ more) = bad
parts_of [] = bad

unfoldable pub parse_max_size : List ℕ → MaxSize
parse_max_size spec =
    let s = lower (unspaced spec) in if one_of s off_forms then off else parts_of (split_x s)

-- The size to scale to, that the frame passes as it is, or that its size is refused.
pub data Fit : Type 0 where
  refused passes : Fit
  scaled : ℕ → ℕ → Fit

abbrev pub even_down : ℕ → ℕ
even_down n = max 2 (n / 2 * 2)

unfoldable pub fit_within : ℕ → ℕ → ℕ → ℕ → Fit
fit_within width height max_w max_h =
    if width == 0 || height == 0
    then refused
    else if leb width max_w && leb height max_h
    then passes
    else if leb (max_w * height) (max_h * width)
    then scaled (even_down max_w) (even_down (height * max_w / width))
    else scaled (even_down (width * max_h / height)) (even_down max_h)
