-- ===== src/Settings/Accepted.antt =====
-- Which changes of the recording settings are accepted, and what they change: apply_patch of
-- core-driver/cam_driver/recording_settings.py.
use camera_service.Common.{
  ℕ, ◌≡◌, ◌≢◌, refl, sym, ◌∙◌, ap, Bool, true, false, inl, inr, ◌⊎◌, Option, none, some, List, [],
  ◌∷◌, ◌++◌, if◌then◌else◌, Bool-cases, Option-cases,
}
use camera_service.Common.Text.{text_eq, text_eq-eq}
use camera_service.Common.Dict.{get, put, get-put, get-put_other}
use camera_service.Formats.{one_of}
use camera_service.Settings.{
  Value, keys, editable, Error, not_an_object, unknown, Outcome, refused, accepted, field_error,
  first_error, overlaid, decide, apply_patch,
}

unknown-editable :
    (k : List ℕ) (ks : List (List ℕ)) → one_of k editable ≡ true → unknown (k ∷ ks) ≡ unknown ks
unfolding unknown
unknown-editable k ks h = rw h refl

unknown_foreign :
    (k : List ℕ) (ks : List (List ℕ))
    → one_of k editable ≡ false
    → unknown (k ∷ ks) ≡ k ∷ unknown ks
unfolding unknown
unknown_foreign k ks h = rw h refl

module _ {F : Type 0} (between : ℕ → ℕ → F → Bool) where
  -- A field that may be changed, to a value that it may have.
  pub record Admissible (k : List ℕ) (v : Value F) : Type 0 where
    pub may_change : one_of k editable ≡ true
    pub good_value : field_error between k v ≡ none

  unfoldable pub AllAdmissible : List (List ℕ × Value F) → Type 0
  AllAdmissible [] = Unit
  AllAdmissible ((k, v) ∷ rest) = Admissible k v × AllAdmissible rest

  -- The value under a key once the patch is applied.
  unfoldable pub latest : List ℕ → List (List ℕ × Value F) → Option (Value F) → Option (Value F)
  latest k [] old = old
  latest k ((j, v) ∷ rest) old = latest k rest (if text_eq j k then some v else old)

  -- A field of the patch that is not to be changed, or not to this value.
  pub record Faulty (patch : List (List ℕ × Value F)) : Type 0 where
    pub front : List (List ℕ × Value F)
    pub key : List ℕ
    pub value : Value F
    pub rest : List (List ℕ × Value F)
    pub among : patch ≡ front ++ (key, value) ∷ rest
    pub fault :
        (one_of key editable ≡ false) ⊎ ((e : Error) × (field_error between key value ≡ some e))

  unfoldable pub Answer :
      List (List ℕ × Value F)
      → Option (List (List ℕ × Value F))
      → Outcome (List (List ℕ × Value F))
      → Type 0
  Answer cfg none (refused e) = e ≡ not_an_object
  Answer cfg none (accepted c) = true ≡ false
  Answer cfg (some patch) (refused e) = (patch ≡ []) ⊎ Faulty patch
  Answer cfg (some patch) (accepted c) =
      ((patch ≢ []) × AllAdmissible patch) × ((k : List ℕ) → get k c ≡ latest k patch (get k cfg))

  get-overlaid :
      (k : List ℕ) (cfg patch : List (List ℕ × Value F))
      → get k (overlaid between cfg patch) ≡ latest k patch (get k cfg)
  unfolding overlaid latest
  get-overlaid k cfg [] = refl
  get-overlaid k cfg ((j, v) ∷ rest) = elim (Bool-cases (text_eq j k)) [
    | inl e ↦
        let now : get k (put j v cfg) ≡ some v = rw (text_eq-eq j k e) (get-put k v cfg) in
        rw e (get-overlaid k (put j v cfg) rest ∙ ap (latest k rest) now)
    | inr e ↦
        rw e (get-overlaid k (put j v cfg) rest ∙ ap (latest k rest) (get-put_other k j v cfg e))
  ]

  Faulty-later :
      (k : List ℕ) (v : Value F) (rest : List (List ℕ × Value F))
      → Faulty rest
      → Faulty ((k, v) ∷ rest)
  Faulty-later k v rest f = record {
    front = (k, v) ∷ f.front;
    key = f.key;
    value = f.value;
    rest = f.rest;
    among = ap (λ (l : List (List ℕ × Value F)). (k, v) ∷ l) f.among;
    fault = f.fault;
  }

  first_error_good :
      (k : List ℕ) (v : Value F) (rest : List (List ℕ × Value F))
      → field_error between k v ≡ none
      → first_error between ((k, v) ∷ rest) ≡ first_error between rest
  unfolding first_error
  first_error_good k v rest h = rw (h, first_error) refl

  first_error_bad :
      (k : List ℕ) (v : Value F) (rest : List (List ℕ × Value F)) (x : Error)
      → field_error between k v ≡ some x
      → first_error between ((k, v) ∷ rest) ≡ some x
  unfolding first_error
  first_error_bad k v rest x h = rw (h, first_error) refl

  unknown-Faulty :
      (patch : List (List ℕ × Value F)) (k : List ℕ) (ks : List (List ℕ))
      → unknown (keys patch) ≡ k ∷ ks
      → Faulty patch
  unfolding unknown keys
  unknown-Faulty [] k ks e = absurd (cc)
  unknown-Faulty ((j, v) ∷ rest) k ks e = elim (Bool-cases (one_of j editable)) [
    | inl h ↦
        Faulty-later j v rest
          (unknown-Faulty rest k ks (sym (unknown-editable j (keys rest) h) ∙ e))
    | inr h ↦ record { front = []; key = j; value = v; rest = rest; among = refl; fault = inl h }
  ]

  first_error-Faulty :
      (patch : List (List ℕ × Value F)) (x : Error)
      → first_error between patch ≡ some x
      → Faulty patch
  unfolding first_error
  first_error-Faulty [] x e = absurd (cc)
  first_error-Faulty ((k, v) ∷ rest) x e = elim (Option-cases (field_error between k v)) [
    | inl h ↦
        Faulty-later k v rest (first_error-Faulty rest x (sym (first_error_good k v rest h) ∙ e))
    | inr (y, h) ↦ record {
      front = [];
      key = k;
      value = v;
      rest = rest;
      among = refl;
      fault = inr (y, h);
    }
  ]

  clean-AllAdmissible :
      (patch : List (List ℕ × Value F))
      → unknown (keys patch) ≡ []
      → first_error between patch ≡ none
      → AllAdmissible patch
  unfolding unknown keys first_error AllAdmissible
  clean-AllAdmissible [] u e = tt
  clean-AllAdmissible ((k, v) ∷ rest) u e = elim (Bool-cases (one_of k editable)) [
    | inl h ↦ elim (Option-cases (field_error between k v)) [
      | inl f ↦ (
        record { may_change = h; good_value = f },
        clean-AllAdmissible rest (sym (unknown-editable k (keys rest) h) ∙ u)
            (sym (first_error_good k v rest f) ∙ e),
      )
      | inr (y, f) ↦ absurd (let t = sym (first_error_bad k v rest y f) ∙ e in cc)
    ]
    | inr h ↦ absurd (let t = sym (unknown_foreign k (keys rest) h) ∙ u in cc)
  ]

  decide-Answer :
      (cfg : List (List ℕ × Value F)) (p : List ℕ × Value F) (ps : List (List ℕ × Value F))
      (u : List (List ℕ)) (e : Option Error)
      → unknown (keys (p ∷ ps)) ≡ u
      → first_error between (p ∷ ps) ≡ e
      → Answer cfg (some (p ∷ ps)) (decide between cfg (p ∷ ps) u e)
  unfolding decide Answer
  decide-Answer cfg p ps (k ∷ ks) e f g = inr (unknown-Faulty (p ∷ ps) k ks f)
  decide-Answer cfg p ps [] (some x) f g = inr (first_error-Faulty (p ∷ ps) x g)
  decide-Answer cfg p ps [] none f g =
      (((λ h. cc), clean-AllAdmissible (p ∷ ps) f g), λ k. get-overlaid k cfg (p ∷ ps))

  -- A patch of the settings is refused only where it is no object, is empty, or has a field that must not be
  -- changed or not to that value; nothing of it is applied then. Else it is accepted: it is not empty,
  -- all its fields may be changed to their values, and in the new configuration each field that the patch
  -- names has the value that the patch gave it, and every other the value it had.
  pub apply_patch-Answer :
      (cfg : List (List ℕ × Value F)) (p : Option (List (List ℕ × Value F)))
      → Answer cfg p (apply_patch between cfg p)
  unfolding apply_patch Answer
  apply_patch-Answer cfg none = refl
  apply_patch-Answer cfg (some []) = inl refl
  apply_patch-Answer cfg (some (p ∷ ps)) =
      decide-Answer cfg p ps (unknown (keys (p ∷ ps))) (first_error between (p ∷ ps)) refl refl
