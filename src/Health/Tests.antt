-- ===== src/Health/Tests.antt =====
-- Snapshots of a camera that warms up and of a disk that fills.
use camera_service.Common.{ℕ, ◌≡◌, refl, true, false, none, some, List, [], ◌∷◌, ltb, arith}
use camera_service.Common.Text.{codes, text_eq}
use camera_service.Common.Dict.{get, put}
use camera_service.Health.{
  Order, Value, number, word, null, Snapshot, range, new_window, new_entry, entry_for, unset,
  take_level, widen, add_value, add_values, add_status, add_statuses, add, add_all,
}
use camera_service.Health.Ranges.{nothing, said, history, field_of, held, Refines}
use camera_service.Health.Refinement.{window-Refines}
use camera_service.Health.Worst.{Tells, all_named, window-Tells}
use camera_service.Health.Limits.{
  Rule, warn_above, crossed, crossed_by, note_limit, evaluate_limits,
}

ltb_trans : (x y z : ℕ) → ltb x y ≡ true → ltb y z ≡ true → ltb x z ≡ true
ltb_trans x y z a b = ground arith

ltb_irrefl : (x : ℕ) → ltb x x ≡ false
ltb_irrefl x = ground arith

instance abbrev nat_order : Order ℕ
nat_order = record { below = ltb; below_irrefl = ltb_irrefl; below_trans = ltb_trans }

abbrev camera : ℕ → Value ℕ → Snapshot ℕ
camera level v = record {
  stamp_unix_ns = 5;
  status =
      record {
        name = codes "cam: camera";
        level = level;
        message = codes "warm";
        hardware_id = [];
        values = (codes "temp.core_c", v) ∷ [];
      }
      ∷ [];
}

abbrev session : List (Snapshot ℕ)
session = camera 0 (number 40) ∷ camera 1 null ∷ camera 2 (number 38) ∷ camera 2 (number 55) ∷ []

window-Refines_example :
    Refines
      (said nothing (history (codes "cam: camera") (codes "temp.core_c") session))
      (held (codes "cam: camera") (codes "temp.core_c") (add_all session new_window))
window-Refines_example = window-Refines (codes "cam: camera") (codes "temp.core_c") session

window-Tells_example :
    Tells
      (all_named (codes "cam: camera") session)
      (get (codes "cam: camera") (add_all session new_window).status)
window-Tells_example = window-Tells (codes "cam: camera") session

warmed :
    held (codes "cam: camera") (codes "temp.core_c") (add_all session new_window)
    ≡ some (range 40 55 38 55)
unfolding held field_of add_all add add_statuses add_status entry_for new_entry take_level unset
    add_values add_value widen get put new_window text_eq
warmed = refl

abbrev limits : List (List ℕ × Rule ℕ)
limits =
    (
      codes "temp.core_c",
      record { error_high = some 70; error_low = none; warn_high = some 50; warn_low = none },
    )
    ∷ (
      codes "disk.free_pct",
      record { error_high = none; error_low = some 2; warn_high = none; warn_low = some 10 },
    )
    ∷ []

abbrev measured : List (List ℕ × Value ℕ)
measured = (codes "temp.core_c", number 55) ∷ (codes "disk.free_pct", word (codes "?")) ∷ []

too_warm : evaluate_limits measured limits ≡ (1, (codes "temp.core_c", warn_above) ∷ [])
unfolding evaluate_limits crossed_by crossed note_limit get text_eq
too_warm = refl
