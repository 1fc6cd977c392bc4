-- ===== src/Common/Dict.antt =====
-- A Python dict as a list of pairs, with the keys in the order of their first insertion.
use Prim.Native.Nat.{ℕ}
use mathlib.Core.Path.{◌≡◌, refl}
use mathlib.Core.Logic.{inl, inr}
use mathlib.Core.Bool.{false}
use mathlib.Core.Option.{Option, none, some}
use mathlib.Core.List.{List, [], ◌∷◌}
use camera_service.Common.Tests.{if◌then◌else◌, Bool-cases}
use camera_service.Common.Text.{text_eq, text_eq-eq, text_eq_self}

-- `d.get(key)`, and `d[key] = value`.
unfoldable pub get : {A : Type 0} → List ℕ → List (List ℕ × A) → Option A
get k [] = none
get k ((j, a) ∷ rest) = if text_eq j k then some a else get k rest

unfoldable pub put : {A : Type 0} → List ℕ → A → List (List ℕ × A) → List (List ℕ × A)
put k a [] = (k, a) ∷ []
put k a ((j, b) ∷ rest) =
    let over = put k a rest in if text_eq j k then (j, a) ∷ rest else (j, b) ∷ over

module _ {A : Type 0} where
  pub get-put : (k : List ℕ) (a : A) (xs : List (List ℕ × A)) → get k (put k a xs) ≡ some a
  unfolding get put
  get-put k a [] = rw (text_eq_self k) refl
  get-put k a ((j, b) ∷ rest) = elim (Bool-cases (text_eq j k)) [
    | inl e ↦ rw (e, e) refl
    | inr e ↦ rw (e, e) (get-put k a rest)
  ]

  pub get-put_other :
      (j k : List ℕ) (a : A) (xs : List (List ℕ × A))
      → text_eq k j ≡ false
      → get j (put k a xs) ≡ get j xs
  unfolding get put
  get-put_other j k a [] n = rw n refl
  get-put_other j k a ((i, b) ∷ rest) n = elim (Bool-cases (text_eq i k)) [
    | inl e ↦
        let same = text_eq-eq i k e in
        let other : text_eq i j ≡ false = rw same n in rw (e, other) refl
    | inr e ↦ rw e (elim (Bool-cases (text_eq i j)) [
      | inl f ↦ rw f refl
      | inr f ↦ rw f (get-put_other j k a rest n)
    ])
  ]
