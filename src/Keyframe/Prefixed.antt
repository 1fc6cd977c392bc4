-- ===== src/Keyframe/Prefixed.antt =====
-- The length-prefixed scan reads back every NAL of a well-formed access unit, and the fuel that
-- `nal_headers` gives it is enough.
use native.Mathlib.Nat.{pow-suc}
use camera_service.Common.{
  ℕ, zero, suc, ◌+◌, ◌*◌, ◌/◌, ◌%◌, ◌^◌, ◌≤◌, ◌<◌, ◌≡◌, refl, sym, ◌∙◌, ap, inl, inr, List-cases,
  ◌||◌, true, false, List, [], ◌∷◌, ◌++◌, length, length-append, length-drop, take, drop, All,
  arith, ltb, ◌==◌, Bool-cases, map,
}
use camera_service.Keyframe.{from_bytes, length_prefixed_nal_headers}

-- n in `width` bytes, the highest first, and what those bytes read as.
to_bytes : ℕ → ℕ → List ℕ
to_bytes zero n = []
to_bytes (suc width) n = to_bytes width (n / 256) ++ (n % 256) ∷ []

-- One NAL: its header byte and its body.
pub record Nal : Type 0 where
  pub hdr : ℕ
  pub body : List ℕ

abbrev nal_bytes : Nal → List ℕ
nal_bytes n = n.hdr ∷ n.body

-- The access unit that a length-prefixed stream delivers.
pub access_unit : ℕ → List Nal → List ℕ
access_unit width [] = []
access_unit width (n ∷ ns) =
    to_bytes width (length (nal_bytes n)) ++ (nal_bytes n ++ access_unit width ns)

length-to_bytes : (width n : ℕ) → length (to_bytes width n) ≡ width
unfolding to_bytes
length-to_bytes zero n = refl
length-to_bytes (suc width) n = omega (
  arith,
  length-append (to_bytes width (n / 256)) ((n % 256) ∷ []),
  length-to_bytes width (n / 256),
)

from_bytes-append :
    (acc : ℕ) (d : List ℕ) (b : ℕ) → from_bytes acc (d ++ b ∷ []) ≡ from_bytes acc d * 256 + b
unfolding from_bytes
from_bytes-append acc [] b = refl
from_bytes-append acc (x ∷ d) b = from_bytes-append (acc * 256 + x) d b

from_bytes-to_bytes : (width n : ℕ) → n < 256 ^ width → from_bytes 0 (to_bytes width n) ≡ n
unfolding to_bytes from_bytes
from_bytes-to_bytes zero n h = omega arith
from_bytes-to_bytes (suc width) n h =
    let small : n / 256 < 256 ^ width = omega (arith, pow-suc 256 width) in
    omega (
      arith,
      from_bytes-append 0 (to_bytes width (n / 256)) (n % 256),
      from_bytes-to_bytes width (n / 256) small,
    )

take-append : (k : ℕ) (xs ys : List ℕ) → length xs ≡ k → take k (xs ++ ys) ≡ xs
take-append zero [] ys h = refl
take-append zero (x ∷ xs) ys h = absurd (omega arith)
take-append (suc k) [] ys h = absurd (omega arith)
take-append (suc k) (x ∷ xs) ys h = ap (λ (l : List ℕ). x ∷ l) (take-append k xs ys (omega arith))

drop-append : (m j : ℕ) (xs ys : List ℕ) → m ≡ length xs + j → drop m (xs ++ ys) ≡ drop j ys
drop-append m j [] ys h = let e : m ≡ j = omega arith in ap (λ (k : ℕ). drop k ys) e
drop-append zero j (x ∷ xs) ys h = absurd (omega arith)
drop-append (suc m) j (x ∷ xs) ys h = drop-append m j xs ys (omega arith)

drop-nil : (n : ℕ) → drop {A = ℕ} n [] ≡ []
drop-nil zero = refl
drop-nil (suc n) = refl

scan_stop : (f w : ℕ) (d : List ℕ) → drop w d ≡ [] → length_prefixed_nal_headers (suc f) w d ≡ []
unfolding length_prefixed_nal_headers
scan_stop f w d e = rw (e, length_prefixed_nal_headers)

scan_bad :
    (f w : ℕ) (d : List ℕ) (x : ℕ) (body : List ℕ)
    → drop w d ≡ x ∷ body
    → let size = from_bytes 0 (take w d) in
      (size == 0 || ltb (length d) (w + size)) ≡ true → length_prefixed_nal_headers (suc f) w d ≡ []
unfolding length_prefixed_nal_headers
scan_bad f w d x body e h = rw (e, length_prefixed_nal_headers) (rw h)

scan_nal :
    (f w : ℕ) (d : List ℕ) (x : ℕ) (body : List ℕ)
    → drop w d ≡ x ∷ body
    → let size = from_bytes 0 (take w d) in
      (size == 0 || ltb (length d) (w + size)) ≡ false
      → length_prefixed_nal_headers (suc f) w d
        ≡ x ∷ length_prefixed_nal_headers f w (drop (w + from_bytes 0 (take w d)) d)
unfolding length_prefixed_nal_headers
scan_nal f w d x body e h = rw (e, length_prefixed_nal_headers) (rw h)

scan_nil : (f w : ℕ) → length_prefixed_nal_headers f w [] ≡ []
unfolding length_prefixed_nal_headers
scan_nil zero w = refl
scan_nil (suc f) w = rw (drop-nil w, length_prefixed_nal_headers)

-- Any fuel from the length of the data on gives the same headers.
pub scan_enough_fuel :
    (f g w : ℕ) (d : List ℕ)
    → length d ≤ f
    → length d ≤ g
    → length_prefixed_nal_headers f w d ≡ length_prefixed_nal_headers g w d
scan_enough_fuel f g w [] h k = scan_nil f w ∙ sym (scan_nil g w)
scan_enough_fuel zero g w (b ∷ d) h k = absurd (omega arith)
scan_enough_fuel (suc f) zero w (b ∷ d) h k = absurd (omega arith)
scan_enough_fuel (suc f) (suc g) w (b ∷ d) h k =
    let size = from_bytes 0 (take w (b ∷ d)) in
    let rest = λ (m : ℕ) (p : 0 < m).
      scan_enough_fuel f g w (drop m (b ∷ d)) (omega (arith, length-drop m (b ∷ d)))
        (omega (arith, length-drop m (b ∷ d))) in
    elim (List-cases (drop w (b ∷ d))) [
      | inl e ↦ scan_stop f w (b ∷ d) e ∙ sym (scan_stop g w (b ∷ d) e)
      | inr (x, body, e) ↦ elim (Bool-cases (size == 0 || ltb (length (b ∷ d)) (w + size))) [
        | inl bad ↦ scan_bad f w (b ∷ d) x body e bad ∙ sym (scan_bad g w (b ∷ d) x body e bad)
        | inr good ↦
            scan_nal f w (b ∷ d) x body e good
            ∙ ap (λ (l : List ℕ). x ∷ l) (rest (w + size) (ground arith))
            ∙ sym (scan_nal g w (b ∷ d) x body e good)
      ]
    ]

-- Whatever the NALs, each shorter than the size field can say, the scan of their access unit
-- yields exactly their header bytes, in order.
pub scan-access_unit :
    (width f : ℕ) (ns : List Nal)
    → All (λ n. suc (length n.body) < 256 ^ width) ns
    → length (access_unit width ns) ≤ f
    → length_prefixed_nal_headers f width (access_unit width ns) ≡ map (λ n. n.hdr) ns
unfolding access_unit
scan-access_unit width f [] a h = scan_nil f width
scan-access_unit width zero (n ∷ ns) a h = absurd (
    omega (
      arith,
      length-append (to_bytes width (suc (length n.body)))
          (n.hdr ∷ (n.body ++ access_unit width ns)),
      h,
    ))
scan-access_unit width (suc f) (n ∷ ns) a h =
    let bytes : List ℕ = n.hdr ∷ n.body in
    let rest : List ℕ = access_unit width ns in
    let pre : List ℕ = to_bytes width (length bytes) in
    let d : List ℕ = pre ++ (bytes ++ rest) in
    let lp : length pre ≡ width = length-to_bytes width (length bytes) in
    let body_at : drop width d ≡ n.hdr ∷ (n.body ++ rest) =
      drop-append width 0 pre (bytes ++ rest) (omega (arith, lp)) in
    let size_is : from_bytes 0 (take width d) ≡ length bytes =
      ap (from_bytes 0) (take-append width pre (bytes ++ rest) lp)
      ∙ from_bytes-to_bytes width (length bytes) a.0 in
    let len_is : length d ≡ width + length bytes + length rest =
      omega (arith, lp, length-append pre (bytes ++ rest), length-append bytes rest) in
    let next_at : drop (width + length bytes) d ≡ rest =
      drop-append (width + length bytes) (length bytes) pre (bytes ++ rest) (omega (arith, lp))
      ∙ drop-append (length bytes) 0 bytes rest (omega arith) in
    scan_nal f width d n.hdr (n.body ++ rest) body_at (rw (size_is, len_is) (ground arith))
    ∙ ap (λ (l : List ℕ). n.hdr ∷ l)
        (ap (λ (k : ℕ). length_prefixed_nal_headers f width (drop (width + k) d)) size_is
          ∙ ap (length_prefixed_nal_headers f width) next_at
          ∙ scan-access_unit width f ns a.1 (omega (arith, len_is)))
