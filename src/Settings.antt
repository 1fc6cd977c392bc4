-- ===== src/Settings.antt =====
-- Changes of the recording settings: apply_patch of core-driver/cam_driver/recording_settings.py. A configuration
-- is its fields by name, each with a value; a float of Python is a parameter, with its test against two bounds. An
-- error names the unknown fields in the order of the patch.
pub mod Accepted
pub mod Allowed
pub mod Patched
mod Tests
use camera_service.Common.{
  ℕ, suc, ◌-◌, ◌^◌, Bool, true, false, not, ◌&&◌, Option, none, some, List, [], ◌∷◌, ◌++◌, leb,
  if◌then◌else◌,
}
use camera_service.Common.Int.{ℤ, pos, negsuc}
use camera_service.Common.Text.{codes, text_eq}
use camera_service.Common.Dict.{get, put}
use camera_service.Formats.{one_of, valid_encoders}

-- What JSON can give for a setting.
pub data Value (F : Type 0) : Type 0 where
  text : List ℕ → Value F
  whole : ℤ → Value F
  real : F → Value F
  flag : Bool → Value F
  other : Value F

abbrev pub presets : List (List ℕ)
presets =
    codes "ultrafast"
    ∷ codes "superfast"
    ∷ codes "veryfast"
    ∷ codes "faster"
    ∷ codes "fast"
    ∷ codes "medium"
    ∷ codes "slow"
    ∷ codes "slower"
    ∷ codes "veryslow"
    ∷ codes "placebo"
    ∷ []

abbrev pub choices : List (List ℕ × List (List ℕ))
choices =
    (codes "encoder", valid_encoders)
    ∷ (codes "x264_preset", presets)
    ∷ (codes "bayer_tile", codes "off" ∷ codes "plain" ∷ codes "green_diff" ∷ codes "rct" ∷ [])
    ∷ (
      codes "nvenc_preset",
      [] ∷ codes "disable" ∷ codes "ultrafast" ∷ codes "fast" ∷ codes "medium" ∷ codes "slow" ∷ [],
    )
    ∷ []

-- The least and the greatest value, and whether only an integer is taken.
pub record Range : Type 0 where
  pub low : ℕ
  pub high : ℕ
  pub integral : Bool

abbrev pub integers : ℕ → ℕ → Range
integers lo hi = record { low = lo; high = hi; integral = true }

abbrev pub bounds : List (List ℕ × Range)
bounds =
    (codes "x264_crf", integers 1 50)
    ∷ (codes "segment_seconds", integers 1 86400)
    ∷ (codes "keyframe_interval_s", record { low = 0; high = 3600; integral = false })
    ∷ (codes "bframes", integers 0 16)
    ∷ (codes "videoconvert_threads", integers 0 64)
    ∷ []

-- `set(d)`
unfoldable pub keys : {A : Type 0} → List (List ℕ × A) → List (List ℕ)
keys [] = []
keys ((k, a) ∷ rest) = k ∷ keys rest

abbrev pub editable : List (List ℕ)
editable = keys choices ++ keys bounds ++ codes "nvenc_maxperf" ∷ []

pub data Error : Type 0 where
  not_an_object : Error
  not_editable : List (List ℕ) → Error
  bad_choice bad_bound not_boolean overflows : List ℕ → Error

-- `set(patch) - set(EDITABLE)`
unfoldable pub unknown : List (List ℕ) → List (List ℕ)
unknown [] = []
unknown (k ∷ ks) = let rest = unknown ks in if one_of k editable then rest else k ∷ rest

pub data Outcome (A : Type 0) : Type 0 where
  refused : Error → Outcome A
  accepted : A → Outcome A

abbrev pub in_range : ℕ → ℕ → ℤ → Bool
in_range lo hi (pos n) = leb lo n && leb n hi
in_range lo hi (negsuc n) = false

-- What no float holds: from here on `math.isfinite` raises an OverflowError, which the caller of
-- configure_recording answers as a refusal too.
abbrev pub magnitude : ℤ → ℕ
magnitude (pos n) = n
magnitude (negsuc n) = suc n

abbrev pub float_limit : ℕ
float_limit = 2 ^ 1024 - 2 ^ 970

module _ {F : Type 0} (between : ℕ → ℕ → F → Bool) where
  -- `value in CHOICES[key]`
  unfoldable pub is_choice : List (List ℕ) → Value F → Bool
  is_choice names (text t) = one_of t names
  is_choice names (whole n) = false
  is_choice names (real x) = false
  is_choice names (flag b) = false
  is_choice names other = false

  unfoldable pub is_within : Range → Value F → Bool
  is_within r (text t) = false
  is_within r (whole n) = in_range r.low r.high n
  is_within r (real x) = not r.integral && between r.low r.high x
  is_within r (flag b) = false
  is_within r other = false

  unfoldable pub is_flag : Value F → Bool
  is_flag (text t) = false
  is_flag (whole n) = false
  is_flag (real x) = false
  is_flag (flag b) = true
  is_flag other = false

  unfoldable pub too_large : Value F → Bool
  too_large (text t) = false
  too_large (whole n) = leb float_limit (magnitude n)
  too_large (real x) = false
  too_large (flag b) = false
  too_large other = false

  -- The check of one field: the error, or none.
  unfoldable pub check : List ℕ → Value F → Option (List (List ℕ)) → Option Range → Option Error
  check k v (some names) range = if is_choice names v then none else some (bad_choice k)
  check k v none (some r) =
      if too_large v then some (overflows k) else if is_within r v then none else some (bad_bound k)
  check k v none none = if is_flag v then none else some (not_boolean k)

  unfoldable pub field_error : List ℕ → Value F → Option Error
  field_error k v = check k v (get k choices) (get k bounds)

  -- The first error of the fields.
  unfoldable pub first_error : List (List ℕ × Value F) → Option Error
  first_error [] = none
  first_error ((k, v) ∷ rest) = elim (field_error k v) [ none ↦ first_error rest | some e ↦ some e ]

  -- `{**requested(cfg), **patch}`
  unfoldable pub overlaid :
      List (List ℕ × Value F) → List (List ℕ × Value F) → List (List ℕ × Value F)
  overlaid cfg [] = cfg
  overlaid cfg ((k, v) ∷ rest) = overlaid (put k v cfg) rest

  -- What follows from the fields that are unknown and from the first error.
  unfoldable pub decide :
      List (List ℕ × Value F)
      → List (List ℕ × Value F)
      → List (List ℕ)
      → Option Error
      → Outcome (List (List ℕ × Value F))
  decide cfg patch (k ∷ ks) e = refused (not_editable (k ∷ ks))
  decide cfg patch [] (some e) = refused e
  decide cfg patch [] none = accepted (overlaid cfg patch)

  unfoldable pub apply_patch :
      List (List ℕ × Value F) → Option (List (List ℕ × Value F)) → Outcome (List (List ℕ × Value F))
  apply_patch cfg none = refused not_an_object
  apply_patch cfg (some []) = refused not_an_object
  apply_patch cfg (some (p ∷ ps)) =
      decide cfg (p ∷ ps) (unknown (keys (p ∷ ps))) (first_error (p ∷ ps))
