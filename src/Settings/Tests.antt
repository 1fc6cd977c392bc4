-- ===== src/Settings/Tests.antt =====
-- Patches of a configuration of one field; a float is a number of seconds.
use camera_service.Common.{
  ℕ, ◌≡◌, refl, sym, ◌∙◌, Bool, true, false, ◌&&◌, none, some, List, [], ◌∷◌, leb, arith,
}
use camera_service.Common.Int.{pos}
use camera_service.Common.Text.{codes, text_eq}
use camera_service.Common.Dict.{get, put}
use camera_service.Formats.{one_of}
use camera_service.Settings.{
  Value, text, whole, flag, keys, unknown, not_editable, bad_bound, refused, accepted, is_choice,
  is_within, too_large, check, field_error, first_error, overlaid, decide, apply_patch,
}
use camera_service.Settings.Accepted.{Answer, apply_patch-Answer}
use camera_service.Settings.Allowed.{remote, Fields, Has, Allowed}
use camera_service.Settings.Patched.{patched, patched-Allowed}

abbrev between : ℕ → ℕ → ℕ → Bool
between lo hi x = leb lo x && leb x hi

abbrev config : Fields between
config = (codes "bframes", whole (pos 0)) ∷ []

abbrev good : Fields between
good = (codes "encoder", text (codes "ffv1")) ∷ (codes "bframes", whole (pos 2)) ∷ []

abbrev too_many : Fields between
too_many = (codes "encoder", text (codes "ffv1")) ∷ (codes "bframes", whole (pos 17)) ∷ []

abbrev a_flag : Fields between
a_flag = (codes "bframes", flag true) ∷ []

apply_patch-Answer_example :
    Answer between config (some good) (apply_patch between config (some good))
apply_patch-Answer_example = apply_patch-Answer between config (some good)

absent : (k : List ℕ) (P : Value ℕ → Type 0) → get k config ≡ none → Has between k P config
absent k P h v e = absurd (let both = sym h ∙ e in cc)

config-Allowed : Allowed between config
unfolding get text_eq
config-Allowed = record {
  encoder = absent (codes "encoder") _ refl;
  x264_preset = absent (codes "x264_preset") _ refl;
  bayer_tile = absent (codes "bayer_tile") _ refl;
  nvenc_preset = absent (codes "nvenc_preset") _ refl;
  x264_crf = absent (codes "x264_crf") _ refl;
  segment_seconds = absent (codes "segment_seconds") _ refl;
  keyframe_interval_s = absent (codes "keyframe_interval_s") _ refl;
  bframes = λ v e. (0, (cc, (omega arith, omega arith)));
  videoconvert_threads = absent (codes "videoconvert_threads") _ refl;
  nvenc_maxperf = absent (codes "nvenc_maxperf") _ refl;
}

-- Two bad patches, a Boolean for an integer, a good patch and one that is no object.
patched-Allowed_example :
    Allowed between (patched between config (some too_many ∷ some a_flag ∷ some good ∷ none ∷ []))
    × ((k : List ℕ)
        → one_of k remote ≡ false
        → get k (patched between config (some too_many ∷ some a_flag ∷ some good ∷ none ∷ []))
          ≡ get k config)
patched-Allowed_example =
    patched-Allowed between config (some too_many ∷ some a_flag ∷ some good ∷ none ∷ [])
      config-Allowed

good_accepted :
    apply_patch between config (some good)
    ≡ accepted ((codes "bframes", whole (pos 2)) ∷ (codes "encoder", text (codes "ffv1")) ∷ [])
unfolding apply_patch decide unknown keys first_error field_error check is_choice is_within
    too_large overlaid get put one_of text_eq
good_accepted = refl

all_or_nothing : apply_patch between config (some too_many) ≡ refused (bad_bound (codes "bframes"))
unfolding apply_patch decide unknown keys first_error field_error check is_choice is_within
    too_large overlaid get put one_of text_eq
all_or_nothing = refl

deployment_only :
    apply_patch between config (some ((codes "output_dir", text (codes "/tmp")) ∷ []))
    ≡ refused (not_editable (codes "output_dir" ∷ []))
unfolding apply_patch decide unknown keys first_error one_of text_eq
deployment_only = refl
