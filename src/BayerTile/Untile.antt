-- ===== src/BayerTile/Untile.antt =====
-- The tiling of core-driver/cam_driver/bayer_tile.py is undone exactly.
use native.Mathlib.Nat.{mod-eq_of_lt, div-eq_of_lt, add-mod_left, add-div_left}
use camera_service.Common.{
  ℕ, ◌+◌, ◌*◌, ◌/◌, ◌%◌, ◌<◌, ◌≡◌, refl, ◌∙◌, ap, true, Option, none, some, List, ◌∷◌, length, ◌==◌,
  All, arith, Bool-cases, inl, inr,
}
use camera_service.Common.Text.{codes}
use camera_service.BayerTile.{
  lower, Phases, phases_of, phases, Mode, off, plain, green_diff, rct, targets, Array, array, bytes,
  spread, gathered, has_shape, tiled, untiled, tile_cfa, untile_cfa,
}
use camera_service.BayerTile.Tables.{length-tabulate, cell_byte, array-bytes, bytes-array}
use camera_service.BayerTile.Recolour.{Same, InFrame, undone, apart, same_phase, distinct}

-- One axis: what was gathered is spread again.
near : (n i : ℕ) → i < n → spread n i ≡ 2 * i
unfolding spread
near n i h = omega (arith, mod-eq_of_lt h, div-eq_of_lt h)

far : (n i : ℕ) → i < n → spread n (n + i) ≡ 2 * i + 1
unfolding spread
far n i h =
    let k : 0 < n = omega (arith, h) in
    omega (arith, add-mod_left n i, mod-eq_of_lt h, add-div_left i k, div-eq_of_lt h)

spread-gathered : (n r : ℕ) → r < 2 * n → spread n (gathered n r) ≡ r
unfolding gathered
spread-gathered n r h = elim (Bool-cases (r % 2 == 0)) [
  | inl e ↦ ap (spread n) (ground arith) ∙ near n (r / 2) (omega arith) ∙ ground arith
  | inr e ↦ ap (spread n) (ground arith) ∙ far n (r / 2) (omega arith) ∙ ground arith
]

gathered_bound : (n r : ℕ) → r < 2 * n → gathered n r < 2 * n
unfolding gathered
gathered_bound n r h = elim (Bool-cases (r % 2 == 0)) [
  | inl e ↦ ground arith
  | inr e ↦ ground arith
]

record Sound (mode : Mode) (ph : Phases) : Type 0 where
  frame : InFrame ph.green1
  apart_targets : distinct (ph.green1 ∷ targets mode ph) ≡ true

phases_of-Sound : (mode : Mode) (p : List ℕ) → Sound mode (phases_of p)
unfolding phases_of targets distinct apart same_phase
phases_of-Sound off p = ground arith
phases_of-Sound plain p = ground arith
phases_of-Sound green_diff p = ground arith
phases_of-Sound rct p = ground arith

phases-Sound : (mode : Mode) (pattern : Option (List ℕ)) → Sound mode (phases pattern)
unfolding phases
phases-Sound mode none = phases_of-Sound mode (codes "rggb")
phases-Sound mode (some p) = phases_of-Sound mode (lower p)

untiled-tiled :
    (a u : Array) (h2 w2 : ℕ) (mode : Mode) (ph : Phases)
    → Sound mode ph
    → ((r c : ℕ) → a r c < 256)
    → Same h2 w2 u (tiled a h2 w2 mode ph)
    → Same h2 w2 (untiled u h2 w2 mode ph) a
unfolding tiled untiled
untiled-tiled a u h2 w2 mode ph v byte s r c x y =
    let t : Array = λ i k. a (spread h2 i) (spread w2 k) in
    undone h2 w2 ph.green1 (targets mode ph) t u v.frame v.apart_targets
      (λ i k. byte (spread h2 i) (spread w2 k)) s (gathered h2 r) (gathered w2 c)
      (gathered_bound h2 r x) (gathered_bound w2 c y)
    ∙ ap (λ i. a i (spread w2 (gathered w2 c))) (spread-gathered h2 r x)
    ∙ ap (a r) (spread-gathered w2 c y)

twice : (h k : ℕ) → h * k * 2 ≡ h * (k * 2)
twice h k = grind arith

shape_even : (h w : ℕ) → h % 2 ≡ 0 → w % 2 ≡ 0 → h / 2 * 2 * (w / 2) * 2 ≡ h * w
shape_even h w a b =
    let x : h / 2 * 2 ≡ h = omega (arith, a) in
    let y : w / 2 * 2 ≡ w = omega (arith, b) in
    ap (λ u. u * (w / 2) * 2) x ∙ twice h (w / 2) ∙ ap (λ u. h * u) y

shaped : (m : List ℕ) (w h : ℕ) → length m ≡ h * w → h % 2 ≡ 0 → w % 2 ≡ 0 → has_shape m w h ≡ true
unfolding has_shape
shaped m w h l a b = ground (arith, l, shape_even h w a b)

tile_shaped :
    (m : List ℕ) (w h : ℕ) (mode : Mode) (pattern : Option (List ℕ))
    → has_shape m w h ≡ true
    → tile_cfa m w h mode pattern
      ≡ some (bytes h w (tiled (array m w) (h / 2) (w / 2) mode (phases pattern)))
unfolding tile_cfa
tile_shaped m w h mode pattern e = rw e refl

untile_shaped :
    (m : List ℕ) (w h : ℕ) (mode : Mode) (pattern : Option (List ℕ))
    → has_shape m w h ≡ true
    → untile_cfa m w h mode pattern
      ≡ some (bytes h w (untiled (array m w) (h / 2) (w / 2) mode (phases pattern)))
unfolding untile_cfa
untile_shaped m w h mode pattern e = rw e refl

-- A mosaic of bytes with an even width and height: tiling succeeds, in every mode and for every
-- pattern, and what it gives is untiled to the same bytes.
pub untile_cfa-tile_cfa :
    (m : List ℕ) (w h : ℕ) (mode : Mode) (pattern : Option (List ℕ))
    → All (λ x. x < 256) m
    → length m ≡ h * w
    → h % 2 ≡ 0
    → w % 2 ≡ 0
    → (t : List ℕ) × (tile_cfa m w h mode pattern ≡ some t)
      × (untile_cfa t w h mode pattern ≡ some m)
unfolding bytes array
untile_cfa-tile_cfa m w h mode pattern byte l a b =
    let ph = phases pattern in
    let h2 = h / 2 in
    let w2 = w / 2 in
    let x : 2 * h2 ≡ h = omega (arith, a) in
    let y : 2 * w2 ≡ w = omega (arith, b) in
    let t = tiled (array m w) h2 w2 mode ph in
    let out = bytes h w t in
    let len : length out ≡ h * w = length-tabulate (h * w) (λ j. t (j / w) (j % w)) in
    let back : Same h2 w2 (untiled (array out w) h2 w2 mode ph) (array m w) =
      untiled-tiled (array m w) (array out w) h2 w2 mode ph (phases-Sound mode pattern)
        (λ r c. cell_byte m (r * w + c) byte)
        (λ r c p q. array-bytes h w t r c (omega (arith, p, x)) (omega (arith, q, y))) in
    (
      out,
      tile_shaped m w h mode pattern (shaped m w h l a b),
      untile_shaped out w h mode pattern (shaped out w h len a b)
          ∙ ap some (
              bytes-array m h w (untiled (array out w) h2 w2 mode ph) l
                (λ r c p q. back r c (omega (arith, p, x)) (omega (arith, q, y)))),
    )
