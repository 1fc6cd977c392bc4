-- ===== src/Health/Refinement.antt =====
-- A health window refines the specification that keeps all values: HealthWindow of
-- core-driver/cam_driver/health.py.
use camera_service.Common.{
  ℕ, ◌≡◌, refl, false, inl, inr, Option, none, some, List, [], ◌∷◌, Bool-cases,
}
use camera_service.Common.Text.{text_eq, text_eq-eq}
use camera_service.Common.Dict.{get, get-put, get-put_other}
use camera_service.Health.{
  Order, Value, number, word, flag, null, Status, Snapshot, Kept, plain, Entry, Window, new_window,
  new_entry, entry_for, take_level, widen, add_value, add_values, add_status, add_statuses, add,
  add_all,
}
use camera_service.Health.Ranges.{
  Said, nothing, say, said, said-append, under, reported, history, field_of, held, Refines,
  widen-Refines,
}

module _ {V : Type 0} ⦃o : Order V⦄ where
  -- A value under the key, and under another.
  same_key :
      (s : Said V) (k : List ℕ) (v : Value V) (kept : List (List ℕ × Kept V))
      → Refines s (get k kept)
      → Refines (say s v) (get k (add_value k v kept))
  unfolding say add_value Refines
  same_key s k (number v) kept r =
      rw (get-put k (widen v (get k kept)) kept) (widen-Refines s (get k kept) v r)
  same_key s k (word w) kept r = rw (get-put k (plain (word w)) kept) refl
  same_key s k (flag b) kept r = rw (get-put k (plain (flag b)) kept) refl
  same_key s k null kept r = r

  other_key :
      (j k : List ℕ) (v : Value V) (kept : List (List ℕ × Kept V))
      → text_eq j k ≡ false
      → get k (add_value j v kept) ≡ get k kept
  unfolding add_value
  other_key j k (number v) kept n = get-put_other k j (widen v (get j kept)) kept n
  other_key j k (word w) kept n = get-put_other k j (plain (word w)) kept n
  other_key j k (flag b) kept n = get-put_other k j (plain (flag b)) kept n
  other_key j k null kept n = refl

  add_values-Refines :
      (s : Said V) (k : List ℕ) (kvs : List (List ℕ × Value V)) (kept : List (List ℕ × Kept V))
      → Refines s (get k kept)
      → Refines (said s (under k kvs)) (get k (add_values kvs kept))
  unfolding said under add_values
  add_values-Refines s k [] kept r = r
  add_values-Refines s k ((j, v) ∷ rest) kept r = elim (Bool-cases (text_eq j k)) [
    | inl e ↦
        let same = text_eq-eq j k e in
        let now : Refines (say s v) (get k (add_value j v kept)) =
          rw same (same_key s k v kept r) in
        rw e (add_values-Refines (say s v) k rest (add_value j v kept) now)
    | inr e ↦
        let still : Refines s (get k (add_value j v kept)) = rw (other_key j k v kept e) r in
        rw e (add_values-Refines s k rest (add_value j v kept) still)
  ]

  -- What stands under a status's name afterwards.
  abbrev entry_after : Status V → List (List ℕ × Entry V) → Entry V
  entry_after st entries =
      let found = entry_for st (get st.name entries) in
      record (take_level st found) { values = add_values st.values found.values }

  entry_for-Refines :
      (s : Said V) (k : List ℕ) (st : Status V) (e : Option (Entry V))
      → Refines s (field_of k e)
      → Refines s (get k (entry_for st e).values)
  unfolding entry_for field_of new_entry get
  entry_for-Refines s k st none r = r
  entry_for-Refines s k st (some e) r = r

  named_status :
      (s : Said V) (k : List ℕ) (st : Status V) (entries : List (List ℕ × Entry V))
      → Refines s (field_of k (get st.name entries))
      → Refines (said s (under k st.values)) (field_of k (get st.name (add_status st entries)))
  unfolding add_status field_of
  named_status s k st entries r =
      let found = entry_for st (get st.name entries) in
      rw (get-put st.name (entry_after st entries) entries) (
        add_values-Refines s k st.values found.values
          (entry_for-Refines s k st (get st.name entries) r))

  add_statuses-Refines :
      (s : Said V) (n k : List ℕ) (sts : List (Status V)) (entries : List (List ℕ × Entry V))
      → Refines s (field_of k (get n entries))
      → Refines (said s (reported n k sts)) (field_of k (get n (add_statuses sts entries)))
  unfolding said reported add_statuses add_status
  add_statuses-Refines s n k [] entries r = r
  add_statuses-Refines s n k (st ∷ sts) entries r = elim (Bool-cases (text_eq st.name n)) [
    | inl e ↦
        let before : Refines s (field_of k (get st.name entries)) = rw (text_eq-eq st.name n e) r in
        let now : Refines (said s (under k st.values))
            (field_of k (get n (add_status st entries))) =
          rw⁻¹ (text_eq-eq st.name n e) (named_status s k st entries before) in
        rw (e, said-append s (under k st.values) (reported n k sts))
          (add_statuses-Refines (said s (under k st.values)) n k sts (add_status st entries) now)
    | inr e ↦
        let still : Refines s (field_of k (get n (add_status st entries))) =
          rw (get-put_other n st.name (entry_after st entries) entries e) r in
        rw e (add_statuses-Refines s n k sts (add_status st entries) still)
  ]

  add_all-Refines :
      (s : Said V) (n k : List ℕ) (ss : List (Snapshot V)) (w : Window V)
      → Refines s (held n k w)
      → Refines (said s (history n k ss)) (held n k (add_all ss w))
  unfolding said history add_all add held
  add_all-Refines s n k [] w r = r
  add_all-Refines s n k (x ∷ xs) w r = rw (said-append s (reported n k x.status) (history n k xs)) (
      add_all-Refines (said s (reported n k x.status)) n k xs (add x w)
        (add_statuses-Refines s n k x.status w.status r))

  -- Numbers are ordered by a strict order. A window to which any snapshots were added holds, under each name
  -- and key, what the values that the snapshots had there come to: nothing if there were none; the last of them
  -- if it was not a number; else the first, the last, the lowest and the highest of the numbers behind the last
  -- value that was not one. Values that are null do not count.
  pub window-Refines :
      (n k : List ℕ) (ss : List (Snapshot V))
      → Refines (said nothing (history n k ss)) (held n k (add_all ss new_window))
  unfolding new_window held field_of get Refines
  window-Refines n k ss = add_all-Refines nothing n k ss new_window tt
