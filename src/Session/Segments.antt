-- ===== src/Session/Segments.antt =====
-- The reconciliation of `finish_close` in core-driver/cam_driver/session.py: `sorted(set(a) | set(b))`
-- against its description as a strictly ascending list with given members.
use camera_service.Common.{
  ℕ, ◌≡◌, refl, inl, inr, Bool, true, false, ◌||◌, List, [], ◌∷◌, ◌++◌, All, arith, ap, ◌∙◌,
  Bool-cases,
}
use camera_service.Common.Text.{text_eq, text_eq-eq}
use camera_service.Session.{Session}
use camera_service.Session.Close.{text_lt, insert_text, sorted_set, reconcile}

text_lt_trans : (a b c : List ℕ) → text_lt a b ≡ true → text_lt b c ≡ true → text_lt a c ≡ true
unfolding text_lt
text_lt_trans [] b [] h k = ground arith
text_lt_trans [] b (z ∷ c) h k = refl
text_lt_trans (x ∷ a) [] c h k = ground arith
text_lt_trans (x ∷ a) (y ∷ b) [] h k = ground arith
text_lt_trans (x ∷ a) (y ∷ b) (z ∷ c) h k = ground (arith, text_lt_trans a b c)

text_lt_or : (a b : List ℕ) → text_lt a b ≡ false → text_eq a b ≡ false → text_lt b a ≡ true
unfolding text_lt text_eq
text_lt_or [] [] h k = ground arith
text_lt_or [] (y ∷ b) h k = ground arith
text_lt_or (x ∷ a) [] h k = refl
text_lt_or (x ∷ a) (y ∷ b) h k = ground (arith, text_lt_or a b)

-- Each text comes before every later one: in order, and no text twice.
abbrev pub Ascending : List (List ℕ) → Type 0
Ascending [] = Unit
Ascending (x ∷ xs) = All (λ (y : List ℕ). text_lt x y ≡ true) xs × Ascending xs

-- The members, by the equality test.
abbrev pub has : List ℕ → List (List ℕ) → Bool
has a [] = false
has a (x ∷ xs) = text_eq a x || has a xs

text_eq_trans : (a b c : List ℕ) → text_eq b c ≡ true → text_eq a b ≡ text_eq a c
text_eq_trans a b c h = ap (text_eq a) (text_eq-eq b c h)

has-insert :
    (a x : List ℕ) (xs : List (List ℕ)) → has a (insert_text x xs) ≡ (text_eq a x || has a xs)
unfolding insert_text
has-insert a x [] = refl
has-insert a x (b ∷ bs) = ground (arith, has-insert a x bs, text_eq_trans a x b)

has-sorted_set : (a : List ℕ) (xs : List (List ℕ)) → has a (sorted_set xs) ≡ has a xs
unfolding sorted_set
has-sorted_set a [] = refl
has-sorted_set a (x ∷ xs) = ground (arith, has-insert a x (sorted_set xs), has-sorted_set a xs)

has-append : (a : List ℕ) (xs ys : List (List ℕ)) → has a (xs ++ ys) ≡ (has a xs || has a ys)
has-append a [] ys = refl
has-append a (x ∷ xs) ys = ground (arith, has-append a xs ys)

-- `y` comes before every text of the list.
abbrev pub Before : List ℕ → List (List ℕ) → Type 0
Before y xs = All (λ (z : List ℕ). text_lt y z ≡ true) xs

Before-insert :
    (y x : List ℕ) (xs : List (List ℕ))
    → text_lt y x ≡ true
    → Before y xs
    → Before y (insert_text x xs)
unfolding insert_text
Before-insert y x [] h k = (h, tt)
Before-insert y x (b ∷ bs) h (k, ks) = elim (Bool-cases (text_lt x b)) [
  | inl l ↦ rw l (h, (k, ks))
  | inr l ↦ elim (Bool-cases (text_eq x b)) [
    | inl e ↦ rw (l, e) (k, ks)
    | inr e ↦ rw (l, e) (k, Before-insert y x bs h ks)
  ]
]

Before-text_lt :
    (x y : List ℕ) (xs : List (List ℕ)) → text_lt x y ≡ true → Before y xs → Before x xs
Before-text_lt x y [] h k = tt
Before-text_lt x y (z ∷ zs) h (k, ks) = (text_lt_trans x y z h k, Before-text_lt x y zs h ks)

insert-Ascending : (x : List ℕ) (xs : List (List ℕ)) → Ascending xs → Ascending (insert_text x xs)
unfolding insert_text
insert-Ascending x [] h = (tt, tt)
insert-Ascending x (b ∷ bs) (k, ks) = elim (Bool-cases (text_lt x b)) [
  | inl l ↦ rw l ((l, Before-text_lt x b bs l k), (k, ks))
  | inr l ↦ elim (Bool-cases (text_eq x b)) [
    | inl e ↦ rw (l, e) (k, ks)
    | inr e ↦ rw (l, e) (Before-insert b x bs (text_lt_or x b l e) k, insert-Ascending x bs ks)
  ]
]

sorted_set-Ascending : (xs : List (List ℕ)) → Ascending (sorted_set xs)
unfolding sorted_set
sorted_set-Ascending [] = tt
sorted_set-Ascending (x ∷ xs) = insert-Ascending x (sorted_set xs) (sorted_set-Ascending xs)

-- Whatever the bus reported and whatever is on the disk: after the reconciliation the session's
-- segments are in strictly ascending order, so that none stands twice, and a file is among them
-- exactly if the bus reported it or it is on the disk.
pub reconcile-Ascending :
    (on_disk : List (List ℕ)) (s : Session)
    → let t = reconcile on_disk s in
      Ascending t.segments × ((a : List ℕ) → has a t.segments ≡ (has a s.segments || has a on_disk))
unfolding reconcile
reconcile-Ascending on_disk s = (
  sorted_set-Ascending (s.segments ++ on_disk),
  λ a. has-sorted_set a (s.segments ++ on_disk) ∙ has-append a s.segments on_disk,
)
