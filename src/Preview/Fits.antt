-- ===== src/Preview/Fits.antt =====
-- A preview fits its box, is not enlarged, and keeps its aspect: plugins/webrtc-bridge/tools/scale_plan.py.
use native.Mathlib.Nat.{div-lt_iff_lt-mul, le-div_iff_mul-le, mul-le-mul}
use camera_service.Common.{
  ℕ, ◌+◌, ◌*◌, ◌/◌, ◌%◌, ◌≤◌, ◌<◌, ◌≡◌, refl, Bool, true, false, ◌&&◌, ◌||◌, inl, inr, ◌⊎◌, List,
  [], ◌∷◌, max, ltb, leb, ◌==◌, if◌then◌else◌, arith, Bool-cases,
}
use camera_service.BayerTile.{lower}
use camera_service.Formats.{one_of}
use camera_service.Preview.{
  off, box, box_of, parts_of, parse_max_size, is_digit, int_from, split_x, Fit, refused, passes,
  scaled, even_down, fit_within, unspaced, off_forms,
}

box_of-box : (p q : List ℕ) (w h : ℕ) → box_of p q ≡ box w h → 2 ≤ w × 2 ≤ h
unfolding box_of
box_of-box p q w h e = elim (Bool-cases (is_digit p && is_digit q)) [
  | inl d ↦ elim (Bool-cases (ltb (int_from 0 p) 2 || ltb (int_from 0 q) 2)) [
    | inl s ↦ absurd (ground (arith, d, s, e))
    | inr s ↦ ground (arith, d, s, e)
  ]
  | inr d ↦ absurd (ground (arith, d, e))
]

even_down_even : (n : ℕ) → even_down n % 2 ≡ 0
even_down_even n = omega arith

even_down_least : (n : ℕ) → 2 ≤ even_down n
even_down_least n = omega arith

even_down_most : (n m : ℕ) → n ≤ m → even_down n ≤ max 2 m
even_down_most n m h = omega arith

even_down_near : (n : ℕ) → n < even_down n + 2
even_down_near n = omega arith

-- `n` is the largest even number that times `b` is at most `a`, and at least 2.
pub record EvenQuotient (n a b : ℕ) : Type 0 where
  pub at_most : (n * b ≤ a) ⊎ (n ≡ 2)
  pub nearest : a < (n + 2) * b

even_down-EvenQuotient : (a b : ℕ) → 0 < b → EvenQuotient (even_down (a / b)) a b
even_down-EvenQuotient a b p = record {
  at_most = elim (Bool-cases (ltb (a / b) 2)) [
    | inl e ↦ inr (ground (arith, e))
    | inr e ↦ inl ((le-div_iff_mul-le p).0 (ground (arith, e)))
  ];
  nearest = (div-lt_iff_lt-mul p).0 (even_down_near (a / b));
}

narrower : (w h mw mh : ℕ) → 0 < w → mw * h ≤ mh * w → (w ≤ mw → h ≤ mh → true ≡ false) → mw ≤ w
narrower w h mw mh p k n = elim (Bool-cases (leb w mw)) [
  | inl e ↦ elim (Bool-cases (leb h mh)) [
    | inl f ↦ absurd (let t = n (ground (arith, e)) (ground (arith, f)) in cc)
    | inr f ↦
        let big : w * (mh + 1) ≤ mw * h = mul-le-mul (ground (arith, e)) (ground (arith, f)) in
        absurd (omega (arith, big, k, p))
  ]
  | inr e ↦ ground (arith, e)
]

-- The axis that is bound by the box, for a frame that does not fit.
bound_axis :
    (w h mw mh : ℕ)
    → 0 < w
    → mw * h ≤ mh * w
    → (w ≤ mw → h ≤ mh → true ≡ false)
    → (mw ≤ w × h * mw / w ≤ mh) × h * mw / w ≤ h
bound_axis w h mw mh p k n =
    let narrow : mw ≤ w = narrower w h mw mh p k n in
    let up : h * mw ≤ h * w = mul-le-mul (omega arith) narrow in
    let below : h * mw / w < mh + 1 = (div-lt_iff_lt-mul p).1 (omega (arith, k, p)) in
    let least : h * mw / w < h + 1 = (div-lt_iff_lt-mul p).1 (omega (arith, up, p)) in
    ((narrow, omega (arith, below)), omega (arith, least))

-- What a frame of w by h is scaled to, for a box of mw by mh.
pub record Scaled (w h mw mh ow oh : ℕ) : Type 0 where
  pub too_large : (mw < w) ⊎ (mh < h)
  pub inside : ow ≤ mw × oh ≤ mh
  pub even : ow % 2 ≡ 0 × oh % 2 ≡ 0
  pub least : 2 ≤ ow × 2 ≤ oh
  pub not_larger : ow ≤ max 2 w × oh ≤ max 2 h
  pub aspect :
      (ow ≡ even_down mw × EvenQuotient oh (h * mw) w)
      ⊎ (oh ≡ even_down mh × EvenQuotient ow (w * mh) h)

unfoldable pub Outcome : ℕ → ℕ → ℕ → ℕ → Fit → Type 0
Outcome w h mw mh refused = (w ≡ 0) ⊎ (h ≡ 0)
Outcome w h mw mh passes = (0 < w × 0 < h) × (w ≤ mw × h ≤ mh)
Outcome w h mw mh (scaled ow oh) = Scaled w h mw mh ow oh

parts_of-box : (ps : List (List ℕ)) (w h : ℕ) → parts_of ps ≡ box w h → 2 ≤ w × 2 ≤ h
unfolding parts_of
parts_of-box [] w h e = absurd (cc)
parts_of-box (p ∷ []) w h e = box_of-box p p w h e
parts_of-box (p ∷ q ∷ []) w h e = box_of-box p q w h e
parts_of-box (p ∷ q ∷ r ∷ more) w h e = absurd (cc)

read :
    (is_off : Bool) (ps : List (List ℕ)) (w h : ℕ)
    → (if is_off then off else parts_of ps) ≡ box w h
    → 2 ≤ w × 2 ≤ h
read true ps w h e = absurd (cc)
read false ps w h e = parts_of-box ps w h e

parse_max_size-box : (spec : List ℕ) (mw mh : ℕ) → parse_max_size spec ≡ box mw mh → 2 ≤ mw × 2 ≤ mh
unfolding parse_max_size parts_of
parse_max_size-box spec mw mh e =
    let s = lower (unspaced spec) in read (one_of s off_forms) (split_x s) mw mh e

wide :
    (w h mw mh : ℕ)
    → 0 < w
    → 0 < h
    → 2 ≤ mw
    → 2 ≤ mh
    → (leb w mw && leb h mh) ≡ false
    → leb (mw * h) (mh * w) ≡ true
    → Scaled w h mw mh (even_down mw) (even_down (h * mw / w))
wide w h mw mh p q a b n k =
    let bound : mw * h ≤ mh * w = ground (arith, k) in
    let ((narrow, inside), least) = bound_axis w h mw mh p bound (λ x y. ground (arith, n, x, y)) in
    record {
      too_large = elim (Bool-cases (leb w mw)) [
        | inl e ↦ inr (ground (arith, n, e))
        | inr e ↦ inl (ground (arith, e))
      ];
      inside = (omega (arith, a), omega (arith, b, inside));
      even = (even_down_even mw, even_down_even (h * mw / w));
      least = (even_down_least mw, even_down_least (h * mw / w));
      not_larger = (even_down_most mw w narrow, even_down_most (h * mw / w) h least);
      aspect = inl (refl, even_down-EvenQuotient (h * mw) w p);
    }

tall :
    (w h mw mh : ℕ)
    → 0 < w
    → 0 < h
    → 2 ≤ mw
    → 2 ≤ mh
    → (leb w mw && leb h mh) ≡ false
    → leb (mw * h) (mh * w) ≡ false
    → Scaled w h mw mh (even_down (w * mh / h)) (even_down mh)
tall w h mw mh p q a b n k =
    let bound : mh * w ≤ mw * h = ground (arith, k) in
    let ((narrow, inside), least) = bound_axis h w mh mw q bound (λ x y. ground (arith, n, x, y)) in
    record {
      too_large = elim (Bool-cases (leb w mw)) [
        | inl e ↦ inr (ground (arith, n, e))
        | inr e ↦ inl (ground (arith, e))
      ];
      inside = (omega (arith, a, inside), omega (arith, b));
      even = (even_down_even (w * mh / h), even_down_even mh);
      least = (even_down_least (w * mh / h), even_down_least mh);
      not_larger = (even_down_most (w * mh / h) w least, even_down_most mh h narrow);
      aspect = inr (refl, even_down-EvenQuotient (w * mh) h q);
    }

-- A bound for the preview that parse_max_size reads as a box: a frame of any size is refused only where it
-- has no pixels; it passes as it is where it fits the box; and else it is scaled to a size inside
-- the box that is even and at least 2 on both axes and not larger than the frame (or 2), where one axis is the
-- box's rounded down to even, and the other the largest even size that keeps the aspect (or 2).
pub fit_within-Outcome :
    (spec : List ℕ) (w h mw mh : ℕ)
    → parse_max_size spec ≡ box mw mh
    → Outcome w h mw mh (fit_within w h mw mh)
unfolding fit_within Outcome
fit_within-Outcome spec w h mw mh e =
    let (a, b) = parse_max_size-box spec mw mh e in
    elim (Bool-cases (w == 0 || h == 0)) [
      | inl z ↦ rw z (elim (Bool-cases (w == 0)) [
        | inl x ↦ inl (ground (arith, x))
        | inr x ↦ inr (ground (arith, x, z))
      ])
      | inr z ↦
          let p : 0 < w = ground (arith, z) in
          let q : 0 < h = ground (arith, z) in
          elim (Bool-cases (leb w mw && leb h mh)) [
            | inl f ↦ rw (z, f) ((p, q), ground (arith, f))
            | inr f ↦ elim (Bool-cases (leb (mw * h) (mh * w))) [
              | inl k ↦ rw (z, f, k) (wide w h mw mh p q a b f k)
              | inr k ↦ rw (z, f, k) (tall w h mw mh p q a b f k)
            ]
          ]
    ]
