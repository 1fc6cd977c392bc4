-- ===== src/Health.antt =====
-- The health of a recording session: HealthWindow of core-driver/cam_driver/health.py, and the levels of
-- `evaluate_limits`. A dict is a list of pairs with the keys in the order of their first insertion. A number is a
-- finite number of Python; the model takes their order as a parameter.
pub mod Limits
pub mod Ranges
pub mod Refinement
pub mod Worst
mod Tests
use camera_service.Common.{
  ℕ, ◌+◌, ◌≡◌, Bool, true, false, not, ◌&&◌, ◌||◌, Option, none, some, List, [], ◌∷◌, ltb, leb,
  if◌then◌else◌,
}
use camera_service.Common.Dict.{get, put}

-- `<` of finite numbers.
pub record Order (V : Type 0) : Type 0 where
  pub below : V → V → Bool
  pub below_irrefl : (x : V) → below x x ≡ false
  pub below_trans : (x y z : V) → below x y ≡ true → below y z ≡ true → below x z ≡ true

-- What a snapshot says under a key, as `_scalar` leaves it.
pub data Value (V : Type 0) : Type 0 where
  number : V → Value V
  word : List ℕ → Value V
  flag : Bool → Value V
  null : Value V

pub record Status (V : Type 0) : Type 0 where
  pub name : List ℕ
  pub level : ℕ
  pub message : List ℕ
  pub hardware_id : List ℕ
  pub values : List (List ℕ × Value V)

pub record Snapshot (V : Type 0) : Type 0 where
  pub stamp_unix_ns : ℕ
  pub status : List (Status V)

-- What a window keeps under a key: the dict of four, or the value as it is.
pub data Kept (V : Type 0) : Type 0 where
  range : V → V → V → V → Kept V
  plain : Value V → Kept V

pub record Entry (V : Type 0) : Type 0 where
  pub worst_level : ℕ
  pub worst_message : Option (List ℕ)
  pub hardware_id : List ℕ
  pub values : List (List ℕ × Kept V)

pub record Window (V : Type 0) : Type 0 where
  pub samples : ℕ
  pub from_ns : Option ℕ
  pub to_ns : Option ℕ
  pub status : List (List ℕ × Entry V)

unfoldable pub new_window : {V : Type 0} → Window V
new_window = record { samples = 0; from_ns = none; to_ns = none; status = [] }

abbrev pub ok : ℕ
ok = 0

unfoldable pub new_entry : {V : Type 0} → Status V → Entry V
new_entry st = record {
  worst_level = ok;
  worst_message = none;
  hardware_id = st.hardware_id;
  values = [];
}

-- `setdefault`
unfoldable pub entry_for : {V : Type 0} → Status V → Option (Entry V) → Entry V
entry_for st none = new_entry st
entry_for st (some e) = e

-- The worst level and its message.
unfoldable pub unset : Option (List ℕ) → Bool
unset none = true
unset (some m) = false

unfoldable pub take_level : {V : Type 0} → Status V → Entry V → Entry V
take_level st e =
    if unset e.worst_message || ltb e.worst_level st.level
    then record e { worst_level = st.level; worst_message = some st.message }
    else e

module _ {V : Type 0} ⦃o : Order V⦄ where
  unfoldable pub widen : V → Option (Kept V) → Kept V
  widen v none = range v v v v
  widen v (some (plain x)) = range v v v v
  widen v (some (range first last low high)) =
      range first v (if o.below v low then v else low) (if o.below high v then v else high)

  unfoldable pub add_value : List ℕ → Value V → List (List ℕ × Kept V) → List (List ℕ × Kept V)
  add_value k (number v) kept = put k (widen v (get k kept)) kept
  add_value k (word w) kept = put k (plain (word w)) kept
  add_value k (flag b) kept = put k (plain (flag b)) kept
  add_value k null kept = kept

  unfoldable pub add_values :
      List (List ℕ × Value V) → List (List ℕ × Kept V) → List (List ℕ × Kept V)
  add_values [] kept = kept
  add_values ((k, v) ∷ rest) kept = add_values rest (add_value k v kept)

  -- One status of a snapshot.
  unfoldable pub add_status : Status V → List (List ℕ × Entry V) → List (List ℕ × Entry V)
  add_status st entries =
      let found = entry_for st (get st.name entries) in
      put st.name (record (take_level st found) { values = add_values st.values found.values })
        entries

  unfoldable pub add_statuses : List (Status V) → List (List ℕ × Entry V) → List (List ℕ × Entry V)
  add_statuses [] entries = entries
  add_statuses (st ∷ sts) entries = add_statuses sts (add_status st entries)

  unfoldable pub add : Snapshot V → Window V → Window V
  add snap w =
      let from : Option ℕ = elim w.from_ns [ none ↦ some snap.stamp_unix_ns | some t ↦ some t ] in
      record {
        samples = w.samples + 1;
        from_ns = from;
        to_ns = some snap.stamp_unix_ns;
        status = add_statuses snap.status w.status;
      }

  unfoldable pub add_all : List (Snapshot V) → Window V → Window V
  add_all [] w = w
  add_all (s ∷ ss) w = add_all ss (add s w)
