-- ===== src/BayerTile/Tables.antt =====
-- Arrays and the lists of their bytes in core-driver/cam_driver/bayer_tile.py.
use native.Mathlib.Nat.{div-eq_of_lt, mul-add-div_right, mod-lt, div-add-mod, div-lt_iff_lt-mul}
use camera_service.Common.{
  ℕ, zero, suc, ◌+◌, ◌*◌, ◌/◌, ◌%◌, ◌<◌, ◌≡◌, refl, ◌∙◌, sym, ap, List, [], ◌∷◌, length, All, arith,
}
use camera_service.BayerTile.{Array, cell, tabulate, array, bytes}

-- Lists and tables.
pub length-tabulate : (n : ℕ) (f : ℕ → ℕ) → length (tabulate n f) ≡ n
unfolding tabulate
length-tabulate zero f = refl
length-tabulate (suc n) f = ground (arith, length-tabulate n (λ j. f (suc j)))

cell-tabulate : (n : ℕ) (f : ℕ → ℕ) (j : ℕ) → j < n → cell (tabulate n f) j ≡ f j
unfolding tabulate cell
cell-tabulate zero f j h = absurd (omega arith)
cell-tabulate (suc n) f zero h = refl
cell-tabulate (suc n) f (suc j) h = cell-tabulate n (λ i. f (suc i)) j (omega arith)

tabulate_same : (n : ℕ) (f g : ℕ → ℕ) → ((j : ℕ) → j < n → f j ≡ g j) → tabulate n f ≡ tabulate n g
unfolding tabulate
tabulate_same zero f g h = refl
tabulate_same (suc n) f g h =
    rw
      (
        h 0 (omega arith),
        tabulate_same n (λ j. f (suc j)) (λ j. g (suc j)) (λ j l. h (suc j) (omega arith)),
      )
      refl

tabulate-cell : (m : List ℕ) → tabulate (length m) (cell m) ≡ m
unfolding tabulate cell
tabulate-cell [] = refl
tabulate-cell (x ∷ xs) = ap (◌∷◌ x) (tabulate-cell xs)

pub cell_byte : (m : List ℕ) (j : ℕ) → All (λ x. x < 256) m → cell m j < 256
unfolding cell
cell_byte [] j p = omega arith
cell_byte (x ∷ xs) zero (p, ps) = p
cell_byte (x ∷ xs) (suc j) (p, ps) = cell_byte xs j ps

-- Rows and columns of a list.
pub positive_width : (h w j : ℕ) → j < h * w → 0 < w
positive_width h zero j l = absurd (grind (arith, l))
positive_width h (suc w) j l = omega arith

pub row_bound : (h w j : ℕ) → j < h * w → j / w < h
row_bound h w j l = (div-lt_iff_lt-mul (positive_width h w j l)).1 l

pub array-bytes :
    (h w : ℕ) (t : Array) (r c : ℕ) → r < h → c < w → array (bytes h w t) w r c ≡ t r c
unfolding array bytes
array-bytes h w t r c a b =
    let z : 0 < w = omega (arith, b) in
    let l : r * w + c < h * w = grind (arith, a, b) in
    let d : (r * w + c) / w ≡ r = omega (arith, mul-add-div_right z r c, div-eq_of_lt b) in
    let m : (r * w + c) % w ≡ c = grind (arith, div-add-mod (r * w + c) w, d) in
    cell-tabulate (h * w) (λ j. t (j / w) (j % w)) (r * w + c) l
    ∙ ap (λ x. t x ((r * w + c) % w)) d
    ∙ ap (t r) m

row_column : (j w : ℕ) → j / w * w + j % w ≡ j
row_column j w = grind (arith, div-add-mod j w)

pub bytes-array :
    (m : List ℕ) (h w : ℕ) (t : Array)
    → length m ≡ h * w
    → ((r c : ℕ) → r < h → c < w → t r c ≡ array m w r c)
    → bytes h w t ≡ m
unfolding bytes array
bytes-array m h w t l s =
    tabulate_same (h * w) (λ j. t (j / w) (j % w)) (cell m)
      (λ j b.
        s (j / w) (j % w) (row_bound h w j b) (mod-lt j (positive_width h w j b))
        ∙ ap (cell m) (row_column j w))
    ∙ ap (λ n. tabulate n (cell m)) (sym l)
    ∙ tabulate-cell m
