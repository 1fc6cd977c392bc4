-- ===== src/VideoLevel/Lowest.antt =====
-- The level that is advertised is the lowest that covers the stream: plugins/webrtc-bridge/tools/h264_level.py.
use camera_service.Common.{
  ℕ, zero, suc, ◌≤◌, ◌<◌, ◌≡◌, ◌≢◌, refl, sym, ◌∙◌, ap, Bool, true, false, ◌&&◌, ◌||◌, inl, inr,
  ◌⊎◌, Option, none, some, List, [], ◌∷◌, length, min, leb, ◌==◌, arith, Bool-cases,
}
use camera_service.Common.Text.{text_eq, text_eq-eq}
use camera_service.VideoLevel.{
  Row, levels, after, index_of, name_at, Rate, Load, load, fits, first_fit, Answer, bad_input,
  unknown_level, level, clamped, answer_at, h264_level_for, fits_at, level_covers,
}

after_some : (o : Option ℕ) (i : ℕ) → after o ≡ some i → (j : ℕ) × ((o ≡ some j) × (i ≡ suc j))
after_some none i e = absurd (cc)
after_some (some j) i e = (j, (refl, cc))

index_of_empty : (n : List ℕ) (i : ℕ) → index_of n [] ≢ some i
unfolding index_of
index_of_empty n i e = cc

index_of_here :
    (n : List ℕ) (r : Row) (rs : List Row) → text_eq r.name n ≡ true → index_of n (r ∷ rs) ≡ some 0
unfolding index_of
index_of_here n r rs h = rw (h, index_of) refl

index_of_later :
    (n : List ℕ) (r : Row) (rs : List Row)
    → text_eq r.name n ≡ false
    → index_of n (r ∷ rs) ≡ after (index_of n rs)
unfolding index_of
index_of_later n r rs h = rw (h, index_of) refl

-- The row that is found under a name has the name.
name_at-index_of : (n : List ℕ) (rs : List Row) (i : ℕ) → index_of n rs ≡ some i → name_at rs i ≡ n
unfolding name_at
name_at-index_of n [] i e = absurd (index_of_empty n i e)
name_at-index_of n (r ∷ rs) i e = elim (Bool-cases (text_eq r.name n)) [
  | inl t ↦
      let first : i ≡ 0 = (let both = sym (index_of_here n r rs t) ∙ e in cc) in
      rw first (text_eq-eq r.name n t)
  | inr t ↦
      let (j, (found, next)) = after_some (index_of n rs) i (sym (index_of_later n r rs t) ∙ e) in
      rw next (name_at-index_of n rs j found)
]

-- The rows that a first fit finds and skips.
pub record Found (l : Load) (rs : List Row) (i : ℕ) : Type 0 where
  pub within : i < length rs
  pub fitting : fits_at l rs i ≡ true
  pub skipped : (j : ℕ) → j < i → fits_at l rs j ≡ false

unfoldable pub Search : Load → List Row → Option ℕ → Type 0
Search l rs none = (j : ℕ) → fits_at l rs j ≡ false
Search l rs (some i) = Found l rs i

skip :
    (l : Load) (r : Row) (rs : List Row) (j : ℕ)
    → fits l r ≡ false
    → ((i : ℕ) → fits_at l rs i ≡ false)
    → fits_at l (r ∷ rs) j ≡ false
unfolding fits_at
skip l r rs zero n s = n
skip l r rs (suc j) n s = s j

skip_below :
    (l : Load) (r : Row) (rs : List Row) (i j : ℕ)
    → fits l r ≡ false
    → ((k : ℕ) → k < i → fits_at l rs k ≡ false)
    → j < suc i
    → fits_at l (r ∷ rs) j ≡ false
unfolding fits_at
skip_below l r rs i zero n s h = n
skip_below l r rs i (suc j) n s h = s j (omega (arith, h))

after-Search :
    (l : Load) (r : Row) (rs : List Row) (o : Option ℕ)
    → fits l r ≡ false
    → Search l rs o
    → Search l (r ∷ rs) (after o)
unfolding Search fits_at
after-Search l r rs none n s = λ j. skip l r rs j n s
after-Search l r rs (some i) n s = record {
  within = omega (arith, s.within);
  fitting = s.fitting;
  skipped = λ j h. skip_below l r rs i j n s.skipped h;
}

first_fit-Search : (l : Load) (rs : List Row) → Search l rs (first_fit l rs)
unfolding Search first_fit fits_at
first_fit-Search l [] = λ j. refl
first_fit-Search l (r ∷ rs) = elim (Bool-cases (fits l r)) [
  | inl f ↦
      rw (f, first_fit)
        (record { within = omega arith; fitting = f; skipped = λ j h. absurd (omega (arith, h)) })
  | inr f ↦ rw (f, first_fit) (after-Search l r rs (first_fit l rs) f (first_fit-Search l rs))
]

-- Every level of the table is found under its own name.
abbrev is_index : Option ℕ → ℕ → Bool
is_index none i = false
is_index (some j) i = j == i

is_index-some : (o : Option ℕ) (i : ℕ) → is_index o i ≡ true → o ≡ some i
is_index-some none i e = absurd (cc)
is_index-some (some j) i e = ap some (ground (arith, e))

found_below : ℕ → Bool
found_below zero = true
found_below (suc n) = is_index (index_of (name_at levels n) levels) n && found_below n

found_one :
    (n i : ℕ)
    → found_below n ≡ true
    → i < n
    → is_index (index_of (name_at levels i) levels) i ≡ true
unfolding found_below
found_one zero i e h = absurd (omega (arith, h))
found_one (suc n) i e h = elim (Bool-cases (i == n)) [
  | inl t ↦ let same : i ≡ n = ground (arith, t) in rw same (ground (arith, e))
  | inr t ↦ found_one n i (ground (arith, e)) (ground (arith, t, h))
]

index_of-name_at : (i : ℕ) → i < 17 → index_of (name_at levels i) levels ≡ some i
unfolding found_below index_of name_at text_eq
index_of-name_at i h = is_index-some (index_of (name_at levels i) levels) i (found_one 17 i refl h)

-- The level is in the table and not above `top`; no lower one covers the stream; and it covers the stream, unless it
-- is `top`, which does not.
pub record Lowest (width height : ℕ) (fps : Rate) (bitrate : Option ℕ) (top name : List ℕ)
    : Type 0 where
  pub index : ℕ
  pub cap : ℕ
  pub listed : index_of name levels ≡ some index
  pub cap_listed : index_of top levels ≡ some cap
  pub not_above : index ≤ cap
  pub lower :
      (n : List ℕ) (j : ℕ)
      → index_of n levels ≡ some j
      → j < index
      → level_covers n width height fps bitrate ≡ false
  pub covers :
      (level_covers name width height fps bitrate ≡ true)
      ⊎ ((name ≡ top) × (level_covers top width height fps bitrate ≡ false))

unfoldable pub Advises : ℕ → ℕ → Rate → Option ℕ → List ℕ → Answer → Type 0
Advises width height fps bitrate top bad_input = (width ≡ 0) ⊎ ((height ≡ 0) ⊎ (fps.num ≡ 0))
Advises width height fps bitrate top unknown_level = index_of top levels ≡ none
Advises width height fps bitrate top (level name) = Lowest width height fps bitrate top name

top-Lowest :
    (width height : ℕ) (fps : Rate) (bitrate : Option ℕ) (top : List ℕ) (cap : ℕ)
    → index_of top levels ≡ some cap
    → ((j : ℕ) → j ≤ cap → fits_at (load width height fps bitrate) levels j ≡ false)
    → Lowest width height fps bitrate top top
unfolding level_covers
top-Lowest width height fps bitrate top cap e s = record {
  index = cap;
  cap = cap;
  listed = e;
  cap_listed = e;
  not_above = omega arith;
  lower = λ n j f h. rw f (s j (omega (arith, h)));
  covers = inr (refl, rw e (s cap (omega arith)));
}

clamp-Lowest :
    (width height : ℕ) (fps : Rate) (bitrate : Option ℕ) (top : List ℕ) (cap : ℕ) (o : Option ℕ)
    → index_of top levels ≡ some cap
    → Search (load width height fps bitrate) levels o
    → Lowest width height fps bitrate top (name_at levels (clamped o cap))
unfolding Search level_covers
clamp-Lowest width height fps bitrate top cap none e s =
    rw (name_at-index_of top levels cap e)
      (top-Lowest width height fps bitrate top cap e (λ j h. s j))
clamp-Lowest width height fps bitrate top cap (some i) e s = elim (Bool-cases (leb i cap)) [
  | inl h ↦
      let here : min i cap ≡ i = ground (arith, h) in
      let listed = index_of-name_at i s.within in
      rw here (record {
        index = i;
        cap = cap;
        listed = listed;
        cap_listed = e;
        not_above = ground (arith, h);
        lower = λ n j f k. rw f (s.skipped j k);
        covers = inl (rw listed s.fitting);
      })
  | inr h ↦
      let there : min i cap ≡ cap = ground (arith, h) in
      rw (there, name_at-index_of top levels cap e)
        (top-Lowest width height fps bitrate top cap e (λ j k. s.skipped j (ground (arith, h, k))))
]

answer_at-Advises :
    (width height : ℕ) (fps : Rate) (bitrate : Option ℕ) (top : List ℕ) (o : Option ℕ)
    → index_of top levels ≡ o
    → Advises width height fps bitrate top (answer_at (load width height fps bitrate) o)
unfolding answer_at Advises
answer_at-Advises width height fps bitrate top none e = e
answer_at-Advises width height fps bitrate top (some cap) e =
    let l = load width height fps bitrate in
    clamp-Lowest width height fps bitrate top cap (first_fit l levels) e (first_fit-Search l levels)

-- The level that is advertised for a stream, with the clamp `top`: a size or rate of 0 and an unknown clamp are
-- refused; else it is a level of the table that is not above the clamp, no lower level covers the stream, and it
-- covers the stream itself, unless it is the clamp and the clamp does not.
pub h264_level_for-Advises :
    (width height : ℕ) (fps : Rate) (bitrate : Option ℕ) (top : List ℕ)
    → Advises width height fps bitrate top (h264_level_for width height fps bitrate top)
unfolding h264_level_for Advises
h264_level_for-Advises width height fps bitrate top =
    elim (Bool-cases (width == 0 || height == 0 || fps.num == 0)) [
      | inl z ↦ rw z (elim (Bool-cases (width == 0)) [
        | inl x ↦ inl (ground (arith, x))
        | inr x ↦ inr (elim (Bool-cases (height == 0)) [
          | inl y ↦ inl (ground (arith, y))
          | inr y ↦ inr (ground (arith, x, y, z))
        ])
      ])
      | inr z ↦ rw z (answer_at-Advises width height fps bitrate top (index_of top levels) refl)
    ]
