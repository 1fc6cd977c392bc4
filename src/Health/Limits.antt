-- ===== src/Health/Limits.antt =====
-- The configured limits: `evaluate_limits` of core-driver/cam_driver/health.py. The message of a crossed limit is
-- the bound that was crossed, with its key.
pub mod Crossed
use camera_service.Common.{
  ℕ, ◌≡◌, Bool, true, false, ◌||◌, Option, none, some, List, [], ◌∷◌, ltb, if◌then◌else◌, max,
}
use camera_service.Common.Dict.{get}
use camera_service.Health.{Order, Value, number, word, flag, null, ok}

abbrev pub warn : ℕ
warn = 1

abbrev pub error : ℕ
error = 2

pub data Bound : Type 0 where
  error_above error_below warn_above warn_below : Bound

pub record Rule (V : Type 0) : Type 0 where
  pub error_high : Option V
  pub error_low : Option V
  pub warn_high : Option V
  pub warn_low : Option V

abbrev pub level_of : Bound → ℕ
level_of error_above = error
level_of error_below = error
level_of warn_above = warn
level_of warn_below = warn

unfoldable pub note_limit :
    List ℕ → Option Bound → ℕ × List (List ℕ × Bound) → ℕ × List (List ℕ × Bound)
note_limit k none found = found
note_limit k (some b) (level, msgs) = (max level (level_of b), (k, b) ∷ msgs)

module _ {V : Type 0} ⦃o : Order V⦄ where
  abbrev pub over : V → Option V → Bool
  over v none = false
  over v (some t) = o.below t v

  abbrev pub beneath : V → Option V → Bool
  beneath v none = false
  beneath v (some t) = o.below v t

  -- The first bound of the rule that the value crosses.
  unfoldable pub crossed : Rule V → V → Option Bound
  crossed r v =
      if over v r.error_high
      then some error_above
      else if beneath v r.error_low
      then some error_below
      else if over v r.warn_high
      then some warn_above
      else if beneath v r.warn_low
      then some warn_below
      else none

  unfoldable pub crossed_by : Rule V → Option (Value V) → Option Bound
  crossed_by r (some (number v)) = crossed r v
  crossed_by r (some (word w)) = none
  crossed_by r (some (flag b)) = none
  crossed_by r (some null) = none
  crossed_by r none = none

  -- The rules in their order; the messages come in the same order.
  unfoldable pub evaluate_limits :
      List (List ℕ × Value V) → List (List ℕ × Rule V) → ℕ × List (List ℕ × Bound)
  evaluate_limits values [] = (ok, [])
  evaluate_limits values ((k, r) ∷ rules) =
      note_limit k (crossed_by r (get k values)) (evaluate_limits values rules)
