-- ===== src/Transport/Bytes.antt =====
-- The integers and the tables of core-driver/cam_driver/transport.py: what is written is read.
use camera_service.Common.{
  ℕ, zero, suc, ◌/◌, ◌^◌, ◌<◌, ◌≡◌, Bool, true, false, not, ◌&&◌, some, List, [], ◌∷◌, ◌==◌, ltb,
  arith,
}
use camera_service.Common.Text.{text_eq-eq}
use camera_service.Transport.{to_bytes, from_little, Table, code_of, name_of}

quotient_bound : (w n : ℕ) → n < 256 ^ suc w → n / 256 < 256 ^ w
quotient_bound w n h = omega arith

pub from_little-to_bytes : (w n : ℕ) → n < 256 ^ w → from_little (to_bytes w n) ≡ n
unfolding from_little to_bytes
from_little-to_bytes zero n h = omega (arith, h)
from_little-to_bytes (suc w) n h =
    omega (arith, from_little-to_bytes w (n / 256) (quotient_bound w n h))

-- No two rows have the same code.
abbrev absent : ℕ → Table → Bool
absent code [] = true
absent code ((c, n) ∷ rest) = not (c == code) && absent code rest

abbrev pub distinct : Table → Bool
distinct [] = true
distinct ((c, n) ∷ rest) = absent c rest && distinct rest

code_of-absent :
    (name : List ℕ) (c code : ℕ) (t : Table)
    → absent code t ≡ true
    → code_of name t ≡ some c
    → (c == code) ≡ false
unfolding code_of
code_of-absent name c code [] a h = ground arith
code_of-absent name c code ((k, n) ∷ rest) a h = ground (arith, code_of-absent name c code rest)

pub name_of-code_of :
    (name : List ℕ) (c : ℕ) (t : Table)
    → distinct t ≡ true
    → code_of name t ≡ some c
    → name_of c t ≡ some name
unfolding code_of name_of
name_of-code_of name c [] d h = ground arith
name_of-code_of name c ((k, n) ∷ rest) d h =
    ground (arith, text_eq-eq name n, code_of-absent name c k rest, name_of-code_of name c rest)

-- The codes of a table fit their field.
abbrev pub within : ℕ → Table → Bool
within bound [] = true
within bound ((c, n) ∷ rest) = ltb c bound && within bound rest

pub code_of-within :
    (name : List ℕ) (c bound : ℕ) (t : Table)
    → within bound t ≡ true
    → code_of name t ≡ some c
    → c < bound
unfolding code_of
code_of-within name c bound [] a h = ground arith
code_of-within name c bound ((k, n) ∷ rest) a h = ground (arith, code_of-within name c bound rest)
