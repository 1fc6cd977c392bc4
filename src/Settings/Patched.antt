-- ===== src/Settings/Patched.antt =====
-- A configuration after any number of remote patches: apply_patch of
-- core-driver/cam_driver/recording_settings.py, whose caller keeps the configuration of a refused patch.
use camera_service.Common.{
  ℕ, ◌≡◌, refl, sym, ◌∙◌, Bool, true, false, inl, inr, Option, none, some, List, [], ◌∷◌,
  Bool-cases,
}
use camera_service.Common.Text.{text_eq, text_eq-eq}
use camera_service.Common.Dict.{get}
use camera_service.Formats.{one_of}
use camera_service.Settings.{Value, keys, editable, Outcome, refused, accepted, apply_patch}
use camera_service.Settings.Accepted.{AllAdmissible, latest, Answer, apply_patch-Answer}
use camera_service.Settings.Allowed.{remote, Fields, Allowed, answer-Allowed}

module _ {F : Type 0} (between : ℕ → ℕ → F → Bool) where
  -- The configuration after a patch, and after several.
  unfoldable pub kept : Fields between → Outcome (Fields between) → Fields between
  kept cfg (refused e) = cfg
  kept cfg (accepted c) = c

  unfoldable pub patched : Fields between → List (Option (Fields between)) → Fields between
  patched cfg [] = cfg
  patched cfg (p ∷ ps) = patched (kept cfg (apply_patch between cfg p)) ps

  kept-Allowed :
      (cfg : Fields between) (p : Option (Fields between)) (o : Outcome (Fields between))
      → Answer between cfg p o
      → Allowed between cfg
      → Allowed between (kept cfg o)
  unfolding kept
  kept-Allowed cfg p (refused e) w a = a
  kept-Allowed cfg p (accepted c) w a = answer-Allowed between cfg c p w a

  patched_keeps :
      (cfg : Fields between) (ps : List (Option (Fields between)))
      → Allowed between cfg
      → Allowed between (patched cfg ps)
  unfolding patched
  patched_keeps cfg [] a = a
  patched_keeps cfg (p ∷ ps) a =
      let o = apply_patch between cfg p in
      patched_keeps (kept cfg o) ps (kept-Allowed cfg p o (apply_patch-Answer between cfg p) a)

  foreign_name :
      (j k : List ℕ) → one_of j editable ≡ true → one_of k editable ≡ false → text_eq j k ≡ false
  foreign_name j k m f = elim (Bool-cases (text_eq j k)) [
    | inl t ↦ absurd (let same : one_of k editable ≡ true = rw (sym (text_eq-eq j k t)) m in cc)
    | inr t ↦ t
  ]

  latest_foreign :
      (k : List ℕ) (patch : Fields between) (old : Option (Value F))
      → one_of k editable ≡ false
      → AllAdmissible between patch
      → latest between k patch old ≡ old
  unfolding latest AllAdmissible
  latest_foreign k [] old f a = refl
  latest_foreign k ((j, v) ∷ rest) old f (p, a) =
      rw (foreign_name j k p.may_change f) (latest_foreign k rest old f a)

  kept_foreign :
      (k : List ℕ) (cfg : Fields between) (p : Option (Fields between))
      (o : Outcome (Fields between))
      → one_of k editable ≡ false
      → Answer between cfg p o
      → get k (kept cfg o) ≡ get k cfg
  unfolding kept Answer
  kept_foreign k cfg p (refused e) f w = refl
  kept_foreign k cfg none (accepted c) f w = absurd (cc)
  kept_foreign k cfg (some patch) (accepted c) f ((n, a), g) =
      g k ∙ latest_foreign k patch (get k cfg) f a

  patched_foreign :
      (k : List ℕ) (cfg : Fields between) (ps : List (Option (Fields between)))
      → one_of k editable ≡ false
      → get k (patched cfg ps) ≡ get k cfg
  unfolding patched
  patched_foreign k cfg [] f = refl
  patched_foreign k cfg (p ∷ ps) f =
      let o = apply_patch between cfg p in
      patched_foreign k (kept cfg o) ps f
      ∙ kept_foreign k cfg p o f (apply_patch-Answer between cfg p)

  -- From a configuration whose encoder, presets and tiling are texts of their lists, whose x264_crf,
  -- segment_seconds, bframes and videoconvert_threads are integers within 1 to 50, 1 to 86400, 0 to 16 and
  -- 0 to 64, whose keyframe interval is a number within 0 to 3600 and whose nvenc_maxperf is a Boolean, each where
  -- it is there, any sequence of patches, the refused ones among them, gives such a configuration again; and a
  -- field of any other name has the value that it had.
  pub patched-Allowed :
      (cfg : Fields between) (ps : List (Option (Fields between)))
      → Allowed between cfg
      → Allowed between (patched cfg ps)
        × ((k : List ℕ) → one_of k remote ≡ false → get k (patched cfg ps) ≡ get k cfg)
  unfolding keys
  patched-Allowed cfg ps a = (patched_keeps cfg ps a, λ k f. patched_foreign k cfg ps f)
