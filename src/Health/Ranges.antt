-- ===== src/Health/Ranges.antt =====
-- What a health window keeps of the values under a key, against a specification that keeps them all:
-- HealthWindow of core-driver/cam_driver/health.py.
use mathlib.Core.List.{append_assoc}
use camera_service.Common.{
  ℕ, ◌≡◌, refl, ◌∙◌, ap, true, false, inl, inr, Option, none, some, List, [], ◌∷◌, ◌++◌, All,
  if◌then◌else◌, Bool-cases,
}
use camera_service.Common.Text.{text_eq}
use camera_service.Common.Dict.{get}
use camera_service.Health.{
  Order, Value, number, word, flag, null, Status, Snapshot, Kept, range, plain, Entry, Window,
  widen,
}

-- The specification: of the values that came, the last where it was not a number, else all the
-- numbers behind the last that was not.
pub data Said (V : Type 0) : Type 0 where
  nothing : Said V
  other : Value V → Said V
  numbers : List V → Said V

module _ {V : Type 0} where
  unfoldable pub say_number : V → Said V → Said V
  say_number v nothing = numbers (v ∷ [])
  say_number v (other x) = numbers (v ∷ [])
  say_number v (numbers vs) = numbers (vs ++ v ∷ [])

  unfoldable pub say : Said V → Value V → Said V
  say s (number v) = say_number v s
  say s (word w) = other (word w)
  say s (flag b) = other (flag b)
  say s null = s

  unfoldable pub said : Said V → List (Value V) → Said V
  said s [] = s
  said s (x ∷ xs) = said (say s x) xs

  pub said-append : (s : Said V) (xs ys : List (Value V)) → said s (xs ++ ys) ≡ said (said s xs) ys
  unfolding said
  said-append s [] ys = refl
  said-append s (x ∷ xs) ys = said-append (say s x) xs ys

  -- The values under a key, and under a name and a key, in the order of their arrival.
  unfoldable pub under : List ℕ → List (List ℕ × Value V) → List (Value V)
  under k [] = []
  under k ((j, v) ∷ rest) = let more = under k rest in if text_eq j k then v ∷ more else more

  unfoldable pub reported : List ℕ → List ℕ → List (Status V) → List (Value V)
  reported n k [] = []
  reported n k (st ∷ sts) =
      let more = reported n k sts in if text_eq st.name n then under k st.values ++ more else more

  unfoldable pub history : List ℕ → List ℕ → List (Snapshot V) → List (Value V)
  history n k [] = []
  history n k (s ∷ ss) = reported n k s.status ++ history n k ss

  -- What the window holds under a name and a key.
  unfoldable pub field_of : List ℕ → Option (Entry V) → Option (Kept V)
  field_of k none = none
  field_of k (some e) = get k e.values

  unfoldable pub held : List ℕ → List ℕ → Window V → Option (Kept V)
  held n k w = field_of k (get n w.status)

module _ {V : Type 0} ⦃o : Order V⦄ where
  -- The numbers that a range stands for: its first and its last, and its low and high are among them
  -- with none below the low and none above the high.
  pub record Spans (vs : List V) (first last low high : V) : Type 0 where
    pub starts : (rest : List V) × (vs ≡ first ∷ rest)
    pub ends : (front : List V) × (vs ≡ front ++ last ∷ [])
    pub has_low : (front : List V) × ((rest : List V) × (vs ≡ front ++ low ∷ rest))
    pub has_high : (front : List V) × ((rest : List V) × (vs ≡ front ++ high ∷ rest))
    pub lowest : All (λ v. o.below v low ≡ false) vs
    pub highest : All (λ v. o.below high v ≡ false) vs

  unfoldable pub Refines : Said V → Option (Kept V) → Type 0
  Refines nothing none = Unit
  Refines nothing (some c) = true ≡ false
  Refines (other x) none = true ≡ false
  Refines (other x) (some (plain y)) = x ≡ y
  Refines (other x) (some (range first last low high)) = true ≡ false
  Refines (numbers vs) none = true ≡ false
  Refines (numbers vs) (some (plain y)) = true ≡ false
  Refines (numbers vs) (some (range first last low high)) = Spans vs first last low high

  one-Spans : (v : V) → Spans (v ∷ []) v v v v
  one-Spans v = record {
    starts = ([], refl);
    ends = ([], refl);
    has_low = ([], ([], refl));
    has_high = ([], ([], refl));
    lowest = (o.below_irrefl v, tt);
    highest = (o.below_irrefl v, tt);
  }

  All-snoc : (P : V → Type 0) (vs : List V) (v : V) → All P vs → P v → All P (vs ++ v ∷ [])
  All-snoc P [] v w p = (p, tt)
  All-snoc P (x ∷ xs) v (q, w) p = (q, All-snoc P xs v w p)

  All-imp : (P Q : V → Type 0) (f : (x : V) → P x → Q x) (vs : List V) → All P vs → All Q vs
  All-imp P Q f [] w = tt
  All-imp P Q f (x ∷ xs) (p, w) = (f x p, All-imp P Q f xs w)

  -- A number below all the others stays so below what they are not below.
  under_low : (v low x : V) → o.below v low ≡ true → o.below x low ≡ false → o.below x v ≡ false
  under_low v low x a b = elim (Bool-cases (o.below x v)) [
    | inl e ↦ (let t = o.below_trans x v low e a in cc)
    | inr e ↦ e
  ]

  over_high : (v high x : V) → o.below high v ≡ true → o.below high x ≡ false → o.below v x ≡ false
  over_high v high x a b = elim (Bool-cases (o.below v x)) [
    | inl e ↦ (let t = o.below_trans high v x a e in cc)
    | inr e ↦ e
  ]

  kept-snoc :
      (vs : List V) (m v : V)
      → (front : List V) × ((rest : List V) × (vs ≡ front ++ m ∷ rest))
      → (front : List V) × ((rest : List V) × (vs ++ v ∷ [] ≡ front ++ m ∷ rest))
  kept-snoc vs m v (front, (rest, e)) = (
    front,
    (rest ++ v ∷ [], ap (λ (l : List V). l ++ v ∷ []) e ∙ append_assoc front (m ∷ rest) (v ∷ [])),
  )

  snoc_low :
      (vs : List V) (low v : V)
      → (front : List V) × ((rest : List V) × (vs ≡ front ++ low ∷ rest))
      → All (λ x. o.below x low ≡ false) vs
      → ((front : List V) × ((rest : List V) × (vs ++ v ∷ []
              ≡ front ++ (if o.below v low then v else low) ∷ rest)))
        × All (λ x. o.below x (if o.below v low then v else low) ≡ false) (vs ++ v ∷ [])
  snoc_low vs low v h w = elim (Bool-cases (o.below v low)) [
    | inl e ↦
        let under =
          All-imp (λ x. o.below x low ≡ false) (λ x. o.below x v ≡ false) (λ x. under_low v low x e)
            vs w in
        rw e ((vs, ([], refl)), All-snoc (λ x. o.below x v ≡ false) vs v under (o.below_irrefl v))
    | inr e ↦ rw e (kept-snoc vs low v h, All-snoc (λ x. o.below x low ≡ false) vs v w e)
  ]

  snoc_high :
      (vs : List V) (high v : V)
      → (front : List V) × ((rest : List V) × (vs ≡ front ++ high ∷ rest))
      → All (λ x. o.below high x ≡ false) vs
      → ((front : List V) × ((rest : List V) × (vs ++ v ∷ []
              ≡ front ++ (if o.below high v then v else high) ∷ rest)))
        × All (λ x. o.below (if o.below high v then v else high) x ≡ false) (vs ++ v ∷ [])
  snoc_high vs high v h w = elim (Bool-cases (o.below high v)) [
    | inl e ↦
        let over =
          All-imp (λ x. o.below high x ≡ false) (λ x. o.below v x ≡ false)
            (λ x. over_high v high x e) vs w in
        rw e ((vs, ([], refl)), All-snoc (λ x. o.below v x ≡ false) vs v over (o.below_irrefl v))
    | inr e ↦ rw e (kept-snoc vs high v h, All-snoc (λ x. o.below high x ≡ false) vs v w e)
  ]

  snoc-Spans :
      (vs : List V) (first last low high v : V)
      → Spans vs first last low high
      → Spans
          (vs ++ v ∷ [])
          first
          v
          (if o.below v low then v else low)
          (if o.below high v then v else high)
  snoc-Spans vs first last low high v h =
      let (has_low, lowest) = snoc_low vs low v h.has_low h.lowest in
      let (has_high, highest) = snoc_high vs high v h.has_high h.highest in
      record {
        starts = (h.starts.0 ++ v ∷ [], ap (λ (l : List V). l ++ v ∷ []) h.starts.1);
        ends = (vs, refl);
        has_low = has_low;
        has_high = has_high;
        lowest = lowest;
        highest = highest;
      }

  pub widen-Refines :
      (s : Said V) (c : Option (Kept V)) (v : V)
      → Refines s c
      → Refines (say_number v s) (some (widen v c))
  unfolding say_number widen Refines
  widen-Refines nothing none v r = one-Spans v
  widen-Refines nothing (some c) v r = absurd (cc)
  widen-Refines (other x) none v r = absurd (cc)
  widen-Refines (other x) (some (plain y)) v r = one-Spans v
  widen-Refines (other x) (some (range first last low high)) v r = absurd (cc)
  widen-Refines (numbers vs) none v r = absurd (cc)
  widen-Refines (numbers vs) (some (plain y)) v r = absurd (cc)
  widen-Refines (numbers vs) (some (range first last low high)) v r =
      snoc-Spans vs first last low high v r
