-- ===== src/Health/Limits/Crossed.antt =====
-- What the level of the limits says of the values: `evaluate_limits` of core-driver/cam_driver/health.py.
use camera_service.Common.{
  ℕ, ◌≡◌, refl, ap, Bool, true, false, ◌||◌, Option, none, some, List, [], ◌∷◌, if◌then◌else◌,
  arith,
}
use camera_service.Common.Dict.{get}
use camera_service.Health.{Order, Value, number, word, flag, null, ok}
use camera_service.Health.Limits.{
  warn, error, Bound, error_above, error_below, warn_above, warn_below, Rule, over, beneath,
  crossed, crossed_by, note_limit, evaluate_limits,
}

abbrev pub severity : Bool → Bool → ℕ
severity true w = error
severity false true = warn
severity false false = ok

first_bound :
    (k : List ℕ) (msgs : List (List ℕ × Bound)) (a b c d e w : Bool)
    → (note_limit k
        (if a
          then some error_above
          else if b
          then some error_below
          else if c
          then some warn_above
          else if d
          then some warn_below
          else none)
        (severity e w, msgs)).0
      ≡ severity ((a || b) || e) ((c || d) || w)
unfolding note_limit
first_bound k msgs a b c d e w = ground arith

module _ {V : Type 0} ⦃o : Order V⦄ where
  -- A value is out of its error bounds, or of its warning bounds.
  abbrev pub in_error : Rule V → Option (Value V) → Bool
  in_error r (some (number v)) = over v r.error_high || beneath v r.error_low
  in_error r (some (word w)) = false
  in_error r (some (flag b)) = false
  in_error r (some null) = false
  in_error r none = false

  abbrev pub in_warning : Rule V → Option (Value V) → Bool
  in_warning r (some (number v)) = over v r.warn_high || beneath v r.warn_low
  in_warning r (some (word w)) = false
  in_warning r (some (flag b)) = false
  in_warning r (some null) = false
  in_warning r none = false

  -- Some rule finds its value so.
  unfoldable pub any_rule :
      (Rule V → Option (Value V) → Bool) → List (List ℕ × Value V) → List (List ℕ × Rule V) → Bool
  any_rule test values [] = false
  any_rule test values ((k, r) ∷ rules) = test r (get k values) || any_rule test values rules

  severity-crossed :
      (k : List ℕ) (r : Rule V) (v : Option (Value V)) (e w : Bool) (msgs : List (List ℕ × Bound))
      → (note_limit k (crossed_by r v) (severity e w, msgs)).0
        ≡ severity (in_error r v || e) (in_warning r v || w)
  unfolding note_limit crossed_by crossed
  severity-crossed k r none e w msgs = refl
  severity-crossed k r (some null) e w msgs = refl
  severity-crossed k r (some (word x)) e w msgs = refl
  severity-crossed k r (some (flag x)) e w msgs = refl
  severity-crossed k r (some (number v)) e w msgs =
      first_bound k msgs (over v r.error_high) (beneath v r.error_low) (over v r.warn_high)
        (beneath v r.warn_low) e w

  -- Numbers are ordered by a strict order. The level of the limits is ERROR where some rule finds its value
  -- beyond one of its error bounds, else WARN where some rule finds its value beyond one of its warning
  -- bounds, and OK otherwise; what is not a number crosses nothing.
  evaluate_limits-severity :
      (values : List (List ℕ × Value V)) (rules : List (List ℕ × Rule V))
      → (evaluate_limits values rules).0
        ≡ severity (any_rule in_error values rules) (any_rule in_warning values rules)
  unfolding evaluate_limits any_rule
  evaluate_limits-severity values [] = refl
  evaluate_limits-severity values ((k, r) ∷ rules) =
      let rest = evaluate_limits values rules in
      let same : rest
          ≡ (severity (any_rule in_error values rules) (any_rule in_warning values rules), rest.1) =
        ap (λ l. (l, rest.1)) (evaluate_limits-severity values rules) in
      rw same (
        severity-crossed k r (get k values) (any_rule in_error values rules)
          (any_rule in_warning values rules) rest.1)
