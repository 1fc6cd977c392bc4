-- ===== src/BayerTile/Recolour.antt =====
-- The colour transform of core-driver/cam_driver/bayer_tile.py, which is undone exactly.
use native.Mathlib.Nat.{div-eq_of_lt, mul-add-div_right, mod-lt}
use camera_service.Common.{
  ℕ, ◌+◌, ◌*◌, ◌%◌, ◌≤◌, ◌<◌, ◌≡◌, refl, ◌∙◌, Bool, true, false, ◌&&◌, ◌||◌, not, List, [], ◌∷◌,
  ◌==◌, if◌then◌else◌, arith,
}
use camera_service.BayerTile.{
  Phase, Array, in_quadrant, recolour, recolour_all, quadrant, difference, restored,
}

restored-difference : (x g : ℕ) → x < 256 → g < 256 → restored (difference x g) g ≡ x
unfolding restored difference
restored-difference x g h k = omega arith

-- Recolouring: every quadrant of a list without repetitions is recoloured once.
hit : ℕ → ℕ → ℕ → ℕ → List Phase → Bool
hit h2 w2 r c [] = false
hit h2 w2 r c (p ∷ ps) = in_quadrant h2 w2 r c p || hit h2 w2 r c ps

unfoldable pub same_phase : Phase → Phase → Bool
same_phase p q = p.row == q.row && p.col == q.col

unfoldable pub apart : Phase → List Phase → Bool
apart p [] = true
apart p (q ∷ qs) = not (same_phase p q) && apart p qs

unfoldable pub distinct : List Phase → Bool
distinct [] = true
distinct (p ∷ ps) = apart p ps && distinct ps

hit-apart :
    (h2 w2 r c : ℕ) (p : Phase) (ps : List Phase)
    → apart p ps ≡ true
    → in_quadrant h2 w2 r c p ≡ true
    → hit h2 w2 r c ps ≡ false
unfolding hit apart same_phase in_quadrant
hit-apart h2 w2 r c p [] a e = refl
hit-apart h2 w2 r c p (q ∷ qs) a e = ground (arith, a, e, hit-apart h2 w2 r c p qs)

recolour_all_once :
    (f : ℕ → ℕ → ℕ) (g : Array) (h2 w2 : ℕ) (ps : List Phase) (t : Array) (r c : ℕ)
    → distinct ps ≡ true
    → recolour_all f g h2 w2 ps t r c
      ≡ (if hit h2 w2 r c ps then f (t r c) (g (r % h2) (c % w2)) else t r c)
unfolding recolour_all hit distinct recolour
recolour_all_once f g h2 w2 [] t r c d = refl
recolour_all_once f g h2 w2 (p ∷ ps) t r c d = ground (
  arith,
  d,
  hit-apart h2 w2 r c p ps,
  recolour_all_once f g h2 w2 ps (recolour f g h2 w2 p t) r c,
)

-- The reference quadrant is not among those recoloured.
in_own_quadrant :
    (h2 w2 i k : ℕ) (p : Phase)
    → i < h2
    → k < w2
    → in_quadrant h2 w2 (p.row * h2 + i) (p.col * w2 + k) p ≡ true
unfolding in_quadrant
in_own_quadrant h2 w2 i k p a b =
    let x : 0 < h2 = omega (arith, a) in
    let y : 0 < w2 = omega (arith, b) in
    ground (
      arith,
      mul-add-div_right x p.row i,
      mul-add-div_right y p.col k,
      div-eq_of_lt a,
      div-eq_of_lt b,
    )

reference_kept :
    (f : ℕ → ℕ → ℕ) (g : Array) (h2 w2 i k : ℕ) (p : Phase) (ps : List Phase) (t : Array)
    → i < h2
    → k < w2
    → distinct (p ∷ ps) ≡ true
    → quadrant h2 w2 p (recolour_all f g h2 w2 ps t) i k ≡ quadrant h2 w2 p t i k
unfolding quadrant distinct
reference_kept f g h2 w2 i k p ps t a b d =
    let r = p.row * h2 + i in
    let c = p.col * w2 + k in
    ground (
      arith,
      d,
      recolour_all_once f g h2 w2 ps t r c,
      hit-apart h2 w2 r c p ps,
      in_own_quadrant h2 w2 i k p a b,
    )

abbrev pub Same : ℕ → ℕ → Array → Array → Type 0
Same h2 w2 t u = (r c : ℕ) → r < 2 * h2 → c < 2 * w2 → t r c ≡ u r c

-- A quadrant's phase, in the frame.
abbrev pub InFrame : Phase → Type 0
InFrame p = (p.row ≤ 1) × (p.col ≤ 1)

index_bound : (p n i : ℕ) → p ≤ 1 → i < n → p * n + i < 2 * n
index_bound p n i h k = grind arith

pub undone :
    (h2 w2 : ℕ) (p : Phase) (ps : List Phase) (t u : Array)
    → InFrame p
    → distinct (p ∷ ps) ≡ true
    → ((r c : ℕ) → t r c < 256)
    → Same h2 w2 u (recolour_all difference (quadrant h2 w2 p t) h2 w2 ps t)
    → Same h2 w2 (recolour_all restored (quadrant h2 w2 p u) h2 w2 ps u) t
unfolding distinct quadrant
undone h2 w2 p ps t u (pr, pc) d byte s r c a b =
    let i = r % h2 in
    let k = c % w2 in
    let x : i < h2 = mod-lt r (omega (arith, a)) in
    let y : k < w2 = mod-lt c (omega (arith, b)) in
    let g = quadrant h2 w2 p t in
    let same : quadrant h2 w2 p u i k ≡ g i k =
      s (p.row * h2 + i) (p.col * w2 + k) (index_bound p.row h2 i pr x)
        (index_bound p.col w2 k pc y)
      ∙ reference_kept difference g h2 w2 i k p ps t x y d in
    ground (
      arith,
      d,
      same,
      s r c a b,
      recolour_all_once restored (quadrant h2 w2 p u) h2 w2 ps u r c,
      recolour_all_once difference g h2 w2 ps t r c,
      restored-difference (t r c) (g i k) (byte r c) (byte (p.row * h2 + i) (p.col * w2 + k)),
    )
