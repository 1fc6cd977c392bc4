-- ===== src/Keyframe/AnnexB.antt =====
-- The Annex B scan finds every NAL header, and nothing else.
use mathlib.Core.List.{append_assoc}
use camera_service.Common.{
  ℕ, zero, suc, ◌≤◌, ◌≡◌, ◌⊎◌, inl, inr, refl, sym, ◌∙◌, ap, Bool, true, false, none, some, List,
  [], ◌∷◌, ◌++◌, length, length-append, drop, arith, Bool-cases, Option-cases,
}
use camera_service.Keyframe.{is_start_code, after_start_code, annexb_nal_headers, any_header}

-- A byte that stands right behind a start code 00 00 01.
abbrev pub IsNalHeader : ℕ → List ℕ → Type 0
IsNalHeader hdr d = (before : List ℕ) × (after : List ℕ) × (d ≡ before ++ (0 ∷ 0 ∷ 1 ∷ hdr ∷ after))

code_shape :
    (d : List ℕ) → is_start_code d ≡ true → (r : List ℕ) × (d ≡ 0 ∷ 0 ∷ 1 ∷ r) × (drop 3 d ≡ r)
unfolding is_start_code
code_shape [] h = cc
code_shape (a ∷ []) h = cc
code_shape (a ∷ b ∷ []) h = cc
code_shape (a ∷ b ∷ c ∷ r) h = (r, ground arith, refl)

find_hit :
    (x : ℕ) (d : List ℕ)
    → is_start_code (x ∷ d) ≡ true
    → after_start_code (x ∷ d) ≡ some (drop 3 (x ∷ d))
unfolding after_start_code
find_hit x d h = rw h

find_skip :
    (x : ℕ) (d : List ℕ)
    → is_start_code (x ∷ d) ≡ false
    → after_start_code (x ∷ d) ≡ after_start_code d
unfolding after_start_code
find_skip x d h = rw h

after_start_code_sound :
    (d r : List ℕ)
    → after_start_code d ≡ some r
    → (before : List ℕ) × (d ≡ before ++ (0 ∷ 0 ∷ 1 ∷ r))
after_start_code_sound [] r h = unfold after_start_code in cc
after_start_code_sound (x ∷ d) r h = elim (Bool-cases (is_start_code (x ∷ d))) [
  | inl hit ↦
      let (r', shape, cut) = code_shape (x ∷ d) hit in ([], cc (shape, cut, find_hit x d hit))
  | inr skip ↦
      let (before, e) = after_start_code_sound d r (sym (find_skip x d skip) ∙ h) in
      (x ∷ before, ap (λ (l : List ℕ). x ∷ l) e)
]

-- The first start code is the given one, or lies wholly before it.
abbrev Finds : List ℕ → List ℕ → Type 0
Finds d r =
    (after_start_code d ≡ some r)
    ⊎ ((rest : List ℕ) × (after_start_code d ≡ some (rest ++ (0 ∷ 0 ∷ 1 ∷ r))))

Finds-skip : (x : ℕ) (d r : List ℕ) → is_start_code (x ∷ d) ≡ false → Finds d r → Finds (x ∷ d) r
Finds-skip x d r h (inl e) = inl (find_skip x d h ∙ e)
Finds-skip x d r h (inr (rest, e)) = inr (rest, find_skip x d h ∙ e)

after_start_code_complete : (before r : List ℕ) → Finds (before ++ (0 ∷ 0 ∷ 1 ∷ r)) r
after_start_code_complete [] r = inl (find_hit 0 (0 ∷ 1 ∷ r) (unfold is_start_code in refl))
after_start_code_complete (a ∷ []) r =
    Finds-skip a (0 ∷ 0 ∷ 1 ∷ r) r (unfold is_start_code in ground arith)
      (after_start_code_complete [] r)
after_start_code_complete (a ∷ b ∷ []) r =
    Finds-skip a (b ∷ 0 ∷ 0 ∷ 1 ∷ r) r (unfold is_start_code in ground arith)
      (after_start_code_complete (b ∷ []) r)
after_start_code_complete (a ∷ b ∷ c ∷ before) r =
    let d : List ℕ = b ∷ c ∷ (before ++ (0 ∷ 0 ∷ 1 ∷ r)) in
    let later = after_start_code_complete (b ∷ c ∷ before) r in
    elim (Bool-cases (is_start_code (a ∷ d))) [
      | inl hit ↦ inr (before, find_hit a d hit)
      | inr skip ↦ Finds-skip a d r skip later
    ]

annexb_none : (f : ℕ) (d : List ℕ) → after_start_code d ≡ none → annexb_nal_headers (suc f) d ≡ []
unfolding annexb_nal_headers
annexb_none f d h = rw (h, annexb_nal_headers)

annexb_some :
    (f : ℕ) (d : List ℕ) (x : ℕ) (t : List ℕ)
    → after_start_code d ≡ some (x ∷ t)
    → annexb_nal_headers (suc f) d ≡ x ∷ annexb_nal_headers f (x ∷ t)
unfolding annexb_nal_headers
annexb_some f d x t h = rw (h, annexb_nal_headers)

annexb_nil : (f : ℕ) → annexb_nal_headers f [] ≡ []
unfolding annexb_nal_headers after_start_code
annexb_nil zero = refl
annexb_nil (suc f) = refl

annexb_end : (f : ℕ) (d : List ℕ) → after_start_code d ≡ some [] → annexb_nal_headers (suc f) d ≡ []
unfolding annexb_nal_headers
annexb_end f d h = rw (h, annexb_nal_headers) (annexb_nil f)

any_or :
    (p : ℕ → Bool) (x : ℕ) (hs : List ℕ)
    → any_header p (x ∷ hs) ≡ true
    → (p x ≡ true) ⊎ (any_header p hs ≡ true)
unfolding any_header
any_or p x hs h = ground arith

any_later :
    (p : ℕ → Bool) (x : ℕ) (hs : List ℕ) → any_header p hs ≡ true → any_header p (x ∷ hs) ≡ true
unfolding any_header
any_later p x hs h = ground arith

IsNalHeader-append :
    (hdr : ℕ) (before d : List ℕ) → IsNalHeader hdr d → IsNalHeader hdr (before ++ (0 ∷ 0 ∷ 1 ∷ d))
IsNalHeader-append hdr before d (b, after, e) = (
  before ++ (0 ∷ 0 ∷ 1 ∷ b),
  after,
  rw e (sym (append_assoc before (0 ∷ 0 ∷ 1 ∷ b) (0 ∷ 0 ∷ 1 ∷ hdr ∷ after))),
)

-- Every header that the scan yields, with any fuel, stands behind a start code.
pub annexb_sound :
    (p : ℕ → Bool) (fuel : ℕ) (d : List ℕ)
    → any_header p (annexb_nal_headers fuel d) ≡ true
    → (hdr : ℕ) × IsNalHeader hdr d × (p hdr ≡ true)
annexb_sound p zero d h = unfold annexb_nal_headers any_header in cc
annexb_sound p (suc fuel) d h = elim (Option-cases (after_start_code d)) [
  | inl e ↦ absurd (unfold any_header in cc (rw (annexb_none fuel d e) at h))
  | inr ([], e) ↦ absurd (unfold any_header in cc (rw (annexb_end fuel d e) at h))
  | inr (x ∷ t, e) ↦
      let (before, shape) = after_start_code_sound d (x ∷ t) e in
      let found =
        any_or p x (annexb_nal_headers fuel (x ∷ t)) (rw (annexb_some fuel d x t e) at h) in
      elim found [
        | inl px ↦ (x, (before, t, shape), px)
        | inr later ↦
            let (hdr, is, ph) = annexb_sound p fuel (x ∷ t) later in
            (hdr, rw shape (IsNalHeader-append hdr before (x ∷ t) is), ph)
      ]
]

shorter :
    (d before r : List ℕ) (fuel : ℕ)
    → d ≡ before ++ (0 ∷ 0 ∷ 1 ∷ r)
    → length d ≤ suc fuel
    → length r ≤ fuel
shorter d before r fuel e h = omega (arith, ap length e, length-append before (0 ∷ 0 ∷ 1 ∷ r))

-- With fuel for the length of the data, no header behind a start code is missed.
pub annexb_complete :
    (p : ℕ → Bool) (fuel : ℕ) (d : List ℕ) (hdr : ℕ)
    → length d ≤ fuel
    → IsNalHeader hdr d
    → p hdr ≡ true
    → any_header p (annexb_nal_headers fuel d) ≡ true
annexb_complete p zero d hdr h (before, after, e) ph =
    absurd (omega (arith, ap length e, length-append before (0 ∷ 0 ∷ 1 ∷ hdr ∷ after)))
annexb_complete p (suc fuel) d hdr h (before, after, e) ph =
    let here = after_start_code_complete before (hdr ∷ after) in
    let step = λ (x : ℕ) (t : List ℕ) (found : after_start_code d ≡ some (x ∷ t)).
      shorter d (after_start_code_sound d (x ∷ t) found).0 (x ∷ t) fuel
        (after_start_code_sound d (x ∷ t) found).1 h in
    elim here [
      | inl f ↦
          rw (annexb_some fuel d hdr after (ap after_start_code e ∙ f)) (unfold any_header in rw ph)
      | inr ([], f) ↦
          let found = ap after_start_code e ∙ f in
          let t : List ℕ = 0 ∷ 1 ∷ hdr ∷ after in
          let later = annexb_complete p fuel (0 ∷ t) hdr (step 0 t found) ([], after, refl) ph in
          rw (annexb_some fuel d 0 t found) (any_later p _ _ later)
      | inr (x ∷ rest, f) ↦
          let found = ap after_start_code e ∙ f in
          let t : List ℕ = rest ++ (0 ∷ 0 ∷ 1 ∷ hdr ∷ after) in
          let later =
            annexb_complete p fuel (x ∷ t) hdr (step x t found) (x ∷ rest, after, refl) ph in
          rw (annexb_some fuel d x t found) (any_later p _ _ later)
    ]
