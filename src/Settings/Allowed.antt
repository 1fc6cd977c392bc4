-- ===== src/Settings/Allowed.antt =====
-- What a remote patch can make of the recording settings, against a list of the fields and their values:
-- apply_patch of core-driver/cam_driver/recording_settings.py.
use camera_service.Common.{
  ℕ, ◌≤◌, ◌≡◌, refl, sym, ◌∙◌, Bool, true, false, inl, inr, ◌⊎◌, Option, none, some, List, [], ◌∷◌,
  if◌then◌else◌, arith, Bool-cases,
}
use camera_service.Common.Int.{pos, negsuc}
use camera_service.Common.Text.{codes, text_eq, text_eq-eq}
use camera_service.Common.Dict.{get}
use camera_service.Formats.{one_of, valid_encoders}
use camera_service.Settings.{
  Value, text, whole, real, flag, other, accepted, Range, is_choice, is_within, is_flag, too_large,
  overflows, bad_bound, bad_choice, Error, check, field_error, presets, integers,
}
use camera_service.Settings.Accepted.{AllAdmissible, latest, Answer}

-- The fields that may be changed from outside.
abbrev pub remote : List (List ℕ)
remote =
    codes "encoder"
    ∷ codes "x264_preset"
    ∷ codes "bayer_tile"
    ∷ codes "nvenc_preset"
    ∷ codes "x264_crf"
    ∷ codes "segment_seconds"
    ∷ codes "keyframe_interval_s"
    ∷ codes "bframes"
    ∷ codes "videoconvert_threads"
    ∷ codes "nvenc_maxperf"
    ∷ []

-- A check that gives no error.
passes : (b : Bool) (x : Error) → (if b then none else some x) ≡ none → b ≡ true
passes true x e = refl
passes false x e = absurd (cc)

passes_second :
    (a b : Bool) (x y : Error)
    → (if a then some x else if b then none else some y) ≡ none
    → b ≡ true
passes_second true b x y e = absurd (cc)
passes_second false b x y e = passes b y e

module _ {F : Type 0} (between : ℕ → ℕ → F → Bool) where
  abbrev pub Fields : Type 0
  Fields = List (List ℕ × Value F)

  -- An integer between two bounds, such a number, one of some texts, and a Boolean.
  abbrev pub WholeIn : ℕ → ℕ → Value F → Type 0
  WholeIn lo hi v = (n : ℕ) × ((v ≡ whole (pos n)) × ((lo ≤ n) × (n ≤ hi)))

  abbrev pub NumberIn : ℕ → ℕ → Value F → Type 0
  NumberIn lo hi v = WholeIn lo hi v ⊎ ((x : F) × ((v ≡ real x) × (between lo hi x ≡ true)))

  abbrev pub IsOne : List ℕ → List (List ℕ) → Type 0
  IsOne t [] = true ≡ false
  IsOne t (x ∷ xs) = (t ≡ x) ⊎ IsOne t xs

  abbrev pub TextOf : List (List ℕ) → Value F → Type 0
  TextOf ts v = (t : List ℕ) × ((v ≡ text t) × IsOne t ts)

  abbrev pub BooleanOf : Value F → Type 0
  BooleanOf v = (b : Bool) × (v ≡ flag b)

  -- If the field is there, its value is such a one.
  abbrev pub Has : List ℕ → (Value F → Type 0) → Fields → Type 0
  Has k P cfg = (v : Value F) → get k cfg ≡ some v → P v

  pub record Allowed (cfg : Fields) : Type 0 where
    pub encoder :
        Has
          (codes "encoder")
          (TextOf (
            codes "auto"
            ∷ codes "hw-hevc-lossless"
            ∷ codes "ffv1"
            ∷ codes "x265-lossless"
            ∷ codes "stream-copy"
            ∷ codes "x264"
            ∷ []))
          cfg
    pub x264_preset :
        Has
          (codes "x264_preset")
          (TextOf (
            codes "ultrafast"
            ∷ codes "superfast"
            ∷ codes "veryfast"
            ∷ codes "faster"
            ∷ codes "fast"
            ∷ codes "medium"
            ∷ codes "slow"
            ∷ codes "slower"
            ∷ codes "veryslow"
            ∷ codes "placebo"
            ∷ []))
          cfg
    pub bayer_tile :
        Has
          (codes "bayer_tile")
          (TextOf (codes "off" ∷ codes "plain" ∷ codes "green_diff" ∷ codes "rct" ∷ []))
          cfg
    pub nvenc_preset :
        Has
          (codes "nvenc_preset")
          (TextOf (
            codes ""
            ∷ codes "disable"
            ∷ codes "ultrafast"
            ∷ codes "fast"
            ∷ codes "medium"
            ∷ codes "slow"
            ∷ []))
          cfg
    pub x264_crf : Has (codes "x264_crf") (WholeIn 1 50) cfg
    pub segment_seconds : Has (codes "segment_seconds") (WholeIn 1 86400) cfg
    pub keyframe_interval_s : Has (codes "keyframe_interval_s") (NumberIn 0 3600) cfg
    pub bframes : Has (codes "bframes") (WholeIn 0 16) cfg
    pub videoconvert_threads : Has (codes "videoconvert_threads") (WholeIn 0 64) cfg
    pub nvenc_maxperf : Has (codes "nvenc_maxperf") BooleanOf cfg

  -- What passes the checks is such a value.
  one_of-IsOne : (t : List ℕ) (ts : List (List ℕ)) → one_of t ts ≡ true → IsOne t ts
  unfolding one_of
  one_of-IsOne t [] e = cc
  one_of-IsOne t (x ∷ xs) e = elim (Bool-cases (text_eq t x)) [
    | inl h ↦ inl (text_eq-eq t x h)
    | inr h ↦ inr (one_of-IsOne t xs (ground (arith, e, h)))
  ]

  choice-TextOf :
      (k : List ℕ) (v : Value F) (ts : List (List ℕ)) (r : Option Range)
      → check between k v (some ts) r ≡ none
      → TextOf ts v
  unfolding check is_choice
  choice-TextOf k (text t) ts r e =
      (t, (refl, one_of-IsOne t ts (passes (one_of t ts) (bad_choice k) e)))
  choice-TextOf k (whole n) ts r e = absurd (cc)
  choice-TextOf k (real x) ts r e = absurd (cc)
  choice-TextOf k (flag b) ts r e = absurd (cc)
  choice-TextOf k other ts r e = absurd (cc)

  flag-BooleanOf : (k : List ℕ) (v : Value F) → check between k v none none ≡ none → BooleanOf v
  unfolding check is_flag
  flag-BooleanOf k (text t) e = absurd (cc)
  flag-BooleanOf k (whole n) e = absurd (cc)
  flag-BooleanOf k (real x) e = absurd (cc)
  flag-BooleanOf k (flag b) e = (b, refl)
  flag-BooleanOf k other e = absurd (cc)

  bounded :
      (k : List ℕ) (v : Value F) (r : Range)
      → check between k v none (some r) ≡ none
      → is_within between r v ≡ true
  unfolding check
  bounded k v r e =
      passes_second (too_large between v) (is_within between r v) (overflows k) (bad_bound k) e

  within-NumberIn :
      (r : Range) (v : Value F) → is_within between r v ≡ true → NumberIn r.low r.high v
  unfolding is_within
  within-NumberIn r (text t) e = absurd (cc)
  within-NumberIn r (whole (pos n)) e = inl (n, (refl, (ground (arith, e), ground (arith, e))))
  within-NumberIn r (whole (negsuc n)) e = absurd (cc)
  within-NumberIn r (real x) e = inr (x, (refl, ground (arith, e)))
  within-NumberIn r (flag b) e = absurd (cc)
  within-NumberIn r other e = absurd (cc)

  within-WholeIn :
      (r : Range) (v : Value F)
      → r.integral ≡ true
      → is_within between r v ≡ true
      → WholeIn r.low r.high v
  unfolding is_within
  within-WholeIn r (text t) i e = absurd (cc)
  within-WholeIn r (whole (pos n)) i e = (n, (refl, (ground (arith, e), ground (arith, e))))
  within-WholeIn r (whole (negsuc n)) i e = absurd (cc)
  within-WholeIn r (real x) i e = absurd (ground (arith, i, e))
  within-WholeIn r (flag b) i e = absurd (cc)
  within-WholeIn r other i e = absurd (cc)

  pick :
      (P : Value F → Type 0) (b : Bool) (w x : Value F) (old : Option (Value F))
      → (b ≡ true → P w)
      → ((y : Value F) → old ≡ some y → P y)
      → (if b then some w else old) ≡ some x
      → P x
  pick P true w x old p h e = let same : w ≡ x = cc in rw (sym same) (p refl)
  pick P false w x old p h e = h x e

  latest_keeps :
      (k : List ℕ) (P : Value F → Type 0)
      → ((v : Value F) → field_error between k v ≡ none → P v)
      → (v : Value F) (patch : Fields) (old : Option (Value F)) → AllAdmissible between patch
      → ((w : Value F) → old ≡ some w → P w)
      → latest between k patch old ≡ some v
      → P v
  unfolding latest AllAdmissible
  latest_keeps k P sound v [] old a h e = h v e
  latest_keeps k P sound v ((j, w) ∷ rest) old (p, a) h e =
      latest_keeps k P sound v rest (if text_eq j k then some w else old) a
        (λ x q.
          pick P (text_eq j k) w x old
            (λ t. sound w (let good = p.good_value in rw (sym (text_eq-eq j k t)) good)) h q)
        e

  answer-Has :
      (k : List ℕ) (P : Value F → Type 0)
      → ((v : Value F) → field_error between k v ≡ none → P v)
      → (cfg c : Fields) (p : Option Fields) → Answer between cfg p (accepted c)
      → Has k P cfg
      → Has k P c
  unfolding Answer
  answer-Has k P sound cfg c none w h v e = absurd (cc)
  answer-Has k P sound cfg c (some patch) ((n, a), g) h v e =
      latest_keeps k P sound v patch (get k cfg) a h (sym (g k) ∙ e)

  text_field :
      (k : List ℕ) (ts : List (List ℕ)) (r : Option Range) (cfg c : Fields) (p : Option Fields)
      → ((v : Value F) → field_error between k v ≡ check between k v (some ts) r)
      → Answer between cfg p (accepted c)
      → Has k (TextOf ts) cfg
      → Has k (TextOf ts) c
  text_field k ts r cfg c p f =
      answer-Has k (TextOf ts) (λ v e. choice-TextOf k v ts r (sym (f v) ∙ e)) cfg c p

  whole_field :
      (k : List ℕ) (r : Range) (cfg c : Fields) (p : Option Fields)
      → r.integral ≡ true
      → ((v : Value F) → field_error between k v ≡ check between k v none (some r))
      → Answer between cfg p (accepted c)
      → Has k (WholeIn r.low r.high) cfg
      → Has k (WholeIn r.low r.high) c
  whole_field k r cfg c p i f =
      answer-Has k (WholeIn r.low r.high)
        (λ v e. within-WholeIn r v i (bounded k v r (sym (f v) ∙ e))) cfg c p

  number_field :
      (k : List ℕ) (r : Range) (cfg c : Fields) (p : Option Fields)
      → ((v : Value F) → field_error between k v ≡ check between k v none (some r))
      → Answer between cfg p (accepted c)
      → Has k (NumberIn r.low r.high) cfg
      → Has k (NumberIn r.low r.high) c
  number_field k r cfg c p f =
      answer-Has k (NumberIn r.low r.high)
        (λ v e. within-NumberIn r v (bounded k v r (sym (f v) ∙ e))) cfg c p

  boolean_field :
      (k : List ℕ) (cfg c : Fields) (p : Option Fields)
      → ((v : Value F) → field_error between k v ≡ check between k v none none)
      → Answer between cfg p (accepted c)
      → Has k BooleanOf cfg
      → Has k BooleanOf c
  boolean_field k cfg c p f =
      answer-Has k BooleanOf (λ v e. flag-BooleanOf k v (sym (f v) ∙ e)) cfg c p

  pub answer-Allowed :
      (cfg c : Fields) (p : Option Fields)
      → Answer between cfg p (accepted c)
      → Allowed cfg
      → Allowed c
  unfolding field_error get text_eq
  answer-Allowed cfg c p w a = record {
    encoder = text_field (codes "encoder") valid_encoders none cfg c p (λ v. refl) w a.encoder;
    x264_preset = text_field (codes "x264_preset") presets none cfg c p (λ v. refl) w a.x264_preset;
    bayer_tile =
        text_field (codes "bayer_tile")
          (codes "off" ∷ codes "plain" ∷ codes "green_diff" ∷ codes "rct" ∷ []) none cfg c p
          (λ v. refl) w a.bayer_tile;
    nvenc_preset =
        text_field (codes "nvenc_preset")
          (codes ""
            ∷ codes "disable"
            ∷ codes "ultrafast"
            ∷ codes "fast"
            ∷ codes "medium"
            ∷ codes "slow"
            ∷ [])
          none cfg c p (λ v. refl) w a.nvenc_preset;
    x264_crf = whole_field (codes "x264_crf") (integers 1 50) cfg c p refl (λ v. refl) w a.x264_crf;
    segment_seconds =
        whole_field (codes "segment_seconds") (integers 1 86400) cfg c p refl (λ v. refl) w
          a.segment_seconds;
    keyframe_interval_s =
        number_field (codes "keyframe_interval_s")
          (record { low = 0; high = 3600; integral = false }) cfg c p (λ v. refl) w
          a.keyframe_interval_s;
    bframes = whole_field (codes "bframes") (integers 0 16) cfg c p refl (λ v. refl) w a.bframes;
    videoconvert_threads =
        whole_field (codes "videoconvert_threads") (integers 0 64) cfg c p refl (λ v. refl) w
          a.videoconvert_threads;
    nvenc_maxperf = boolean_field (codes "nvenc_maxperf") cfg c p (λ v. refl) w a.nvenc_maxperf;
  }
