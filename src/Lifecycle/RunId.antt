-- ===== src/Lifecycle/RunId.antt =====
-- `sanitize_run_id` of core-driver/cam_driver/lifecycle.py, which makes a part of a file's name of an
-- operator's label. The label is its code points.
use camera_service.Common.{
  ℕ, suc, ◌≤◌, ◌≡◌, ap, subst, Bool, true, false, ◌&&◌, ◌||◌, Option, none, some, List, [], ◌∷◌,
  length, take, All, leb, ◌==◌, arith, if◌then◌else◌, zero,
}

-- [A-Za-z0-9_.-]
unfoldable pub kept : ℕ → Bool
kept c =
    (leb 65 c && leb c 90)
    || (leb 97 c && leb c 122)
    || (leb 48 c && leb c 57)
    || c == 95
    || c == 46
    || c == 45

-- `_RUN_ID_STRIP.sub("-", s)`: a dash for each run of other characters. `inside` says whether the
-- last one was in such a run.
unfoldable pub dashed : Bool → List ℕ → List ℕ
dashed inside [] = []
dashed inside (c ∷ cs) =
    let within = dashed true cs in
    let after = dashed false cs in
    if kept c then c ∷ after else if inside then within else 45 ∷ within

abbrev pub at_edge : ℕ → Bool
at_edge c = c == 45 || c == 46

-- `lstrip("-.")` and `rstrip("-.")`.
unfoldable pub strip_left : List ℕ → List ℕ
strip_left [] = []
strip_left (c ∷ cs) = let rest = strip_left cs in if at_edge c then rest else c ∷ cs

unfoldable pub strip_right : List ℕ → List ℕ
strip_right [] = []
strip_right (c ∷ cs) = elim (strip_right cs) [
  | [] ↦ if at_edge c then [] else c ∷ []
  | d ∷ ds ↦ c ∷ d ∷ ds
]

abbrev pub run_id_max : ℕ
run_id_max = 64

abbrev pub some_text : List ℕ → Option (List ℕ)
some_text [] = none
some_text (c ∷ cs) = some (c ∷ cs)

unfoldable pub sanitize_run_id : Option (List ℕ) → Option (List ℕ)
sanitize_run_id none = none
sanitize_run_id (some value) =
    some_text (take run_id_max (strip_right (strip_left (dashed false value))))

abbrev pub Kept : List ℕ → Type 0
Kept = All (λ (c : ℕ). kept c ≡ true)

dashed-Kept : (inside : Bool) (cs : List ℕ) → Kept (dashed inside cs)
unfolding dashed kept
dashed-Kept inside [] = tt
dashed-Kept inside (c ∷ cs) = ground (arith, dashed-Kept true cs, dashed-Kept false cs)

strip_left-Kept : (cs : List ℕ) → Kept cs → Kept (strip_left cs)
unfolding strip_left
strip_left-Kept [] h = tt
strip_left-Kept (c ∷ cs) (k, ks) = ground (arith, k, ks, strip_left-Kept cs ks)

strip_right-Kept : (cs : List ℕ) → Kept cs → Kept (strip_right cs)
unfolding strip_right
strip_right-Kept [] h = tt
strip_right-Kept (c ∷ cs) (k, ks) = ground (arith, k, strip_right-Kept cs ks)

take-Kept : (n : ℕ) (cs : List ℕ) → Kept cs → Kept (take n cs)
take-Kept zero cs h = tt
take-Kept (suc n) [] h = tt
take-Kept (suc n) (c ∷ cs) (k, ks) = (k, take-Kept n cs ks)

take_bounded : (n : ℕ) (cs : List ℕ) → length (take n cs) ≤ n
take_bounded zero cs = omega arith
take_bounded (suc n) [] = omega arith
take_bounded (suc n) (c ∷ cs) = omega (arith, take_bounded n cs)

-- The text does not begin with a dot or a dash.
abbrev pub PlainStart : List ℕ → Type 0
PlainStart [] = Unit
PlainStart (c ∷ cs) = at_edge c ≡ false

strip_left-PlainStart : (cs : List ℕ) → PlainStart (strip_left cs)
unfolding strip_left
strip_left-PlainStart [] = tt
strip_left-PlainStart (c ∷ cs) = ground (arith, strip_left-PlainStart cs)

strip_right-PlainStart : (cs : List ℕ) → PlainStart cs → PlainStart (strip_right cs)
unfolding strip_right
strip_right-PlainStart [] h = tt
strip_right-PlainStart (c ∷ cs) h = ground (arith, h)

take-PlainStart : (n : ℕ) (cs : List ℕ) → PlainStart cs → PlainStart (take n cs)
take-PlainStart zero cs h = tt
take-PlainStart (suc n) [] h = tt
take-PlainStart (suc n) (c ∷ cs) h = h

some_text-eq : (a b : List ℕ) → some_text a ≡ some b → (a ≡ b) × (1 ≤ length b)
some_text-eq a b h = ground arith

-- Whatever the label, a run id that it gives is a safe part of a file's name: it has 1 to 64
-- characters, all of them letters, digits, underscores, dots or dashes, and it does not begin with a
-- dot or a dash.
pub sanitize_run_id_safe :
    (value : Option (List ℕ)) (id : List ℕ)
    → sanitize_run_id value ≡ some id
    → (1 ≤ length id) × (length id ≤ 64) × Kept id × PlainStart id
unfolding sanitize_run_id
sanitize_run_id_safe none id h = cc
sanitize_run_id_safe (some value) id h =
    let stripped = strip_left (dashed false value) in
    let (e, n) = some_text-eq (take run_id_max (strip_right stripped)) id h in
    let k = take-Kept 64 (strip_right stripped) (
      strip_right-Kept stripped (strip_left-Kept (dashed false value) (dashed-Kept false value))) in
    let p =
      take-PlainStart 64 (strip_right stripped)
        (strip_right-PlainStart stripped (strip_left-PlainStart (dashed false value))) in
    (
      n,
      omega (arith, ap length e, take_bounded 64 (strip_right stripped)),
      subst Kept e k,
      subst PlainStart e p,
    )
