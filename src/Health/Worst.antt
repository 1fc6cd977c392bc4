-- ===== src/Health/Worst.antt =====
-- The worst level that a health window reports for a name: HealthWindow of core-driver/cam_driver/health.py.
use mathlib.Core.List.{append_assoc, append-nil}
use camera_service.Common.{
  ℕ, ◌≤◌, ◌<◌, ◌≡◌, refl, sym, ◌∙◌, ap, true, false, ◌||◌, inl, inr, Option, none, some, List, [],
  ◌∷◌, ◌++◌, All, arith, ltb, if◌then◌else◌, Bool-cases,
}
use camera_service.Common.Text.{text_eq, text_eq-eq}
use camera_service.Common.Dict.{get, get-put, get-put_other}
use camera_service.Health.{
  Order, Status, Snapshot, Entry, Window, new_window, new_entry, entry_for, unset, take_level,
  add_values, add_status, add_statuses, add, add_all,
}

module _ {V : Type 0} where
  -- The statuses of a name, in the order of their arrival.
  unfoldable pub named : List ℕ → List (Status V) → List (Status V)
  named n [] = []
  named n (st ∷ sts) = let more = named n sts in if text_eq st.name n then st ∷ more else more

  unfoldable pub all_named : List ℕ → List (Snapshot V) → List (Status V)
  all_named n [] = []
  all_named n (s ∷ ss) = named n s.status ++ all_named n ss

  -- The entry has the level and the message of a status that is above all before it, and that no later
  -- one is above.
  pub record Worst (sts : List (Status V)) (e : Entry V) : Type 0 where
    pub before : List (Status V)
    pub worst : Status V
    pub later : List (Status V)
    pub among : sts ≡ before ++ worst ∷ later
    pub level : e.worst_level ≡ worst.level
    pub message : e.worst_message ≡ some worst.message
    pub above : All (λ st. st.level < worst.level) before
    pub not_below : All (λ st. st.level ≤ worst.level) later

  unfoldable pub Tells : List (Status V) → Option (Entry V) → Type 0
  Tells sts none = sts ≡ []
  Tells sts (some e) = Worst sts e

  -- The level and the message are all that counts.
  Worst-along :
      (sts : List (Status V)) (d e : Entry V)
      → d.worst_level ≡ e.worst_level
      → d.worst_message ≡ e.worst_message
      → Worst sts d
      → Worst sts e
  Worst-along sts d e l m w = record {
    before = w.before;
    worst = w.worst;
    later = w.later;
    among = w.among;
    level = sym l ∙ w.level;
    message = sym m ∙ w.message;
    above = w.above;
    not_below = w.not_below;
  }

  All-snoc :
      (P : Status V → Type 0) (xs : List (Status V)) (x : Status V)
      → All P xs
      → P x
      → All P (xs ++ x ∷ [])
  All-snoc P [] x w p = (p, tt)
  All-snoc P (y ∷ ys) x (q, w) p = (q, All-snoc P ys x w p)

  -- What is at most a level is below every higher one.
  All-below :
      (m l : ℕ) (xs : List (Status V))
      → m < l
      → All (λ st. st.level ≤ m) xs
      → All (λ st. st.level < l) xs
  All-below m l [] h w = tt
  All-below m l (x ∷ xs) h (p, w) = (omega arith, All-below m l xs h w)

  All-append :
      (P : Status V → Type 0) (xs ys : List (Status V)) → All P xs → All P ys → All P (xs ++ ys)
  All-append P [] ys v w = w
  All-append P (x ∷ xs) ys (p, v) w = (p, All-append P xs ys v w)

  All-weaken :
      (l : ℕ) (xs : List (Status V)) → All (λ st. st.level < l) xs → All (λ st. st.level ≤ l) xs
  All-weaken l [] w = tt
  All-weaken l (x ∷ xs) (p, w) = (omega arith, All-weaken l xs w)

  take_level-Worst :
      (sts : List (Status V)) (st : Status V) (e : Entry V)
      → Worst sts e
      → Worst (sts ++ st ∷ []) (take_level st e)
  unfolding take_level unset
  take_level-Worst sts st e w = elim (Bool-cases (ltb e.worst_level st.level)) [
    | inl h ↦
        let taken : (unset e.worst_message || ltb e.worst_level st.level) ≡ true =
          ground (arith, h) in
        let higher : w.worst.level < st.level = let l = w.level in ground (arith, h, l) in
        rw taken (record {
          before = sts;
          worst = st;
          later = [];
          among = refl;
          level = refl;
          message = refl;
          above = rw w.among (
              All-below w.worst.level st.level (w.before ++ w.worst ∷ w.later) higher (
                All-append (λ x. x.level ≤ w.worst.level) w.before (w.worst ∷ w.later)
                  (All-weaken w.worst.level w.before w.above) (omega arith, w.not_below)));
          not_below = tt;
        })
    | inr h ↦
        let set : unset e.worst_message ≡ false = ap unset w.message in
        let kept : (unset e.worst_message || ltb e.worst_level st.level) ≡ false =
          ground (arith, h, set) in
        let lower : st.level ≤ w.worst.level = let l = w.level in ground (arith, h, l) in
        rw kept (record {
          before = w.before;
          worst = w.worst;
          later = w.later ++ st ∷ [];
          among =
              ap (λ (l : List (Status V)). l ++ st ∷ []) w.among
              ∙ append_assoc w.before (w.worst ∷ w.later) (st ∷ []);
          level = w.level;
          message = w.message;
          above = w.above;
          not_below = All-snoc (λ x. x.level ≤ w.worst.level) w.later st w.not_below lower;
        })
  ]

  new_entry-Worst : (st : Status V) → Worst (st ∷ []) (take_level st (new_entry st))
  unfolding take_level new_entry unset
  new_entry-Worst st = record {
    before = [];
    worst = st;
    later = [];
    among = refl;
    level = refl;
    message = refl;
    above = tt;
    not_below = tt;
  }

  entry_for-Worst :
      (sts : List (Status V)) (st : Status V) (e : Option (Entry V))
      → Tells sts e
      → Worst (sts ++ st ∷ []) (take_level st (entry_for st e))
  unfolding Tells entry_for
  entry_for-Worst sts st none w = rw w (new_entry-Worst st)
  entry_for-Worst sts st (some e) w = take_level-Worst sts st e w

module _ {V : Type 0} ⦃o : Order V⦄ where
  named_status :
      (sts : List (Status V)) (st : Status V) (entries : List (List ℕ × Entry V))
      → Tells sts (get st.name entries)
      → Tells (sts ++ st ∷ []) (get st.name (add_status st entries))
  unfolding add_status Tells
  named_status sts st entries w =
      let found = entry_for st (get st.name entries) in
      let after : Entry V = record (take_level st found) {
        values = add_values st.values found.values;
      } in
      rw (get-put st.name after entries) (
        Worst-along (sts ++ st ∷ []) (take_level st found) after refl refl
          (entry_for-Worst sts st (get st.name entries) w))

  other_status :
      (n : List ℕ) (sts : List (Status V)) (st : Status V) (entries : List (List ℕ × Entry V))
      → text_eq st.name n ≡ false
      → Tells sts (get n entries)
      → Tells sts (get n (add_status st entries))
  unfolding add_status
  other_status n sts st entries e w =
      let found = entry_for st (get st.name entries) in
      let after : Entry V = record (take_level st found) {
        values = add_values st.values found.values;
      } in
      rw (get-put_other n st.name after entries e) w

  add_statuses-Tells :
      (n : List ℕ) (seen sts : List (Status V)) (entries : List (List ℕ × Entry V))
      → Tells seen (get n entries)
      → Tells (seen ++ named n sts) (get n (add_statuses sts entries))
  unfolding named add_statuses
  add_statuses-Tells n seen [] entries w = rw (append-nil seen) w
  add_statuses-Tells n seen (st ∷ sts) entries w = elim (Bool-cases (text_eq st.name n)) [
    | inl e ↦
        let before : Tells seen (get st.name entries) = rw (text_eq-eq st.name n e) w in
        let now : Tells (seen ++ st ∷ []) (get n (add_status st entries)) =
          rw⁻¹ (text_eq-eq st.name n e) (named_status seen st entries before) in
        rw (e, sym (append_assoc seen (st ∷ []) (named n sts)))
          (add_statuses-Tells n (seen ++ st ∷ []) sts (add_status st entries) now)
    | inr e ↦
        let still : Tells seen (get n (add_status st entries)) =
          other_status n seen st entries e w in
        rw e (add_statuses-Tells n seen sts (add_status st entries) still)
  ]

  add_all-Tells :
      (n : List ℕ) (seen : List (Status V)) (ss : List (Snapshot V)) (w : Window V)
      → Tells seen (get n w.status)
      → Tells (seen ++ all_named n ss) (get n (add_all ss w).status)
  unfolding all_named add_all add
  add_all-Tells n seen [] w t = rw (append-nil seen) t
  add_all-Tells n seen (s ∷ ss) w t =
      rw (sym (append_assoc seen (named n s.status) (all_named n ss))) (
        add_all-Tells n (seen ++ named n s.status) ss (add s w)
          (add_statuses-Tells n seen s.status w.status t))

  -- A window to which any snapshots were added has an entry for exactly the names of which they held a
  -- status. Its level and message are those of one of these statuses, the first that has the highest level
  -- among them.
  pub window-Tells :
      (n : List ℕ) (ss : List (Snapshot V))
      → Tells (all_named n ss) (get n (add_all ss new_window).status)
  unfolding new_window get Tells
  window-Tells n ss = add_all-Tells n [] ss new_window refl
