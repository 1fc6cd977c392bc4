-- ===== src/VideoLevel.antt =====
-- The H.264 level of the WebRTC preview: plugins/webrtc-bridge/tools/h264_level.py. A frame rate is a rational
-- number where the code has a float.
pub mod Lowest
mod Tests
use camera_service.Common.{
  ℕ, zero, suc, ◌+◌, ◌*◌, ◌/◌, ◌%◌, Bool, true, false, ◌&&◌, ◌||◌, Option, none, some, List, [],
  ◌∷◌, get_elem?, min, ltb, leb, ◌==◌, if◌then◌else◌,
}
use camera_service.Common.Text.{codes, text_eq}

pub record Row : Type 0 where
  pub name : List ℕ
  pub max_fs : ℕ
  pub max_mbps : ℕ
  pub max_br : ℕ

abbrev row : List ℕ → ℕ → ℕ → ℕ → Row
row name fs mbps br = record { name = name; max_fs = fs; max_mbps = mbps; max_br = br }

-- _LEVELS
abbrev pub levels : List Row
levels =
    row (codes "1") 99 1485 64
    ∷ row (codes "1b") 99 1485 128
    ∷ row (codes "1.1") 396 3000 192
    ∷ row (codes "1.2") 396 6000 384
    ∷ row (codes "1.3") 396 11880 768
    ∷ row (codes "2") 396 11880 2000
    ∷ row (codes "2.1") 792 19800 4000
    ∷ row (codes "2.2") 1620 20250 4000
    ∷ row (codes "3") 1620 40500 10000
    ∷ row (codes "3.1") 3600 108000 14000
    ∷ row (codes "3.2") 5120 216000 20000
    ∷ row (codes "4") 8192 245760 20000
    ∷ row (codes "4.1") 8192 245760 50000
    ∷ row (codes "4.2") 8704 522240 50000
    ∷ row (codes "5") 22080 589824 135000
    ∷ row (codes "5.1") 36864 983040 240000
    ∷ row (codes "5.2") 36864 2073600 240000
    ∷ []

abbrev pub after : Option ℕ → Option ℕ
after none = none
after (some i) = some (suc i)

-- _INDEX, and the name of a row.
unfoldable pub index_of : List ℕ → List Row → Option ℕ
index_of n [] = none
index_of n (r ∷ rs) = let rest = index_of n rs in if text_eq r.name n then some 0 else after rest

unfoldable pub name_at : List Row → ℕ → List ℕ
name_at [] i = []
name_at (r ∷ rs) zero = r.name
name_at (r ∷ rs) (suc i) = name_at rs i

abbrev pub macroblocks : ℕ → ℕ → ℕ
macroblocks width height = (width + 15) / 16 * ((height + 15) / 16)

pub record Rate : Type 0 where
  pub num : ℕ
  pub den : ℕ

-- `int(round(fps))`, a half to the even side.
unfoldable pub rounded : Rate → ℕ
rounded r =
    let q = r.num / r.den in
    let twice = 2 * (r.num % r.den) in
    if ltb twice r.den then q else if ltb r.den twice then q + 1 else q + q % 2

-- What a stream needs.
pub record Load : Type 0 where
  pub fs : ℕ
  pub mbps : ℕ
  pub bitrate : Option ℕ

unfoldable pub load : ℕ → ℕ → Rate → Option ℕ → Load
load width height fps bitrate =
    let fs = macroblocks width height in
    record { fs = fs; mbps = fs * rounded fps; bitrate = bitrate }

abbrev pub allows : ℕ → Option ℕ → Bool
allows max_br none = true
allows max_br (some b) = leb b max_br

abbrev pub fits : Load → Row → Bool
fits l r = leb l.fs r.max_fs && leb l.mbps r.max_mbps && allows r.max_br l.bitrate

unfoldable pub first_fit : Load → List Row → Option ℕ
first_fit l [] = none
first_fit l (r ∷ rs) = let rest = first_fit l rs in if fits l r then some 0 else after rest

pub data Answer : Type 0 where
  bad_input unknown_level : Answer
  level : List ℕ → Answer

-- The row of the fit, clamped.
abbrev pub clamped : Option ℕ → ℕ → ℕ
clamped none cap = cap
clamped (some i) cap = min i cap

unfoldable pub answer_at : Load → Option ℕ → Answer
answer_at l none = unknown_level
answer_at l (some cap) = level (name_at levels (clamped (first_fit l levels) cap))

unfoldable pub h264_level_for : ℕ → ℕ → Rate → Option ℕ → List ℕ → Answer
h264_level_for width height fps bitrate max_level =
    if width == 0 || height == 0 || fps.num == 0
    then bad_input
    else answer_at (load width height fps bitrate) (index_of max_level levels)

unfoldable pub fits_at : Load → List Row → ℕ → Bool
fits_at l [] i = false
fits_at l (r ∷ rs) zero = fits l r
fits_at l (r ∷ rs) (suc i) = fits_at l rs i

abbrev pub fits_index : Load → Option ℕ → Bool
fits_index l none = false
fits_index l (some i) = fits_at l levels i

unfoldable pub level_covers : List ℕ → ℕ → ℕ → Rate → Option ℕ → Bool
level_covers name width height fps bitrate =
    fits_index (load width height fps bitrate) (index_of name levels)
