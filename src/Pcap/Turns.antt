-- ===== src/Pcap/Turns.antt =====
-- One turn of the readers of core-driver/cam_driver/pcapio.py, with more bytes behind those that
-- it has.
use camera_service.Common.{
  ℕ, ◌+◌, ◌-◌, ◌%◌, ◌≤◌, ◌<◌, ◌≡◌, refl, ◌∙◌, ap, inl, inr, Bool, true, false, ◌&&◌, List, ◌++◌,
  length, take, drop, get_elem?, length-append, length-drop, take-append_left, drop-append_left,
  ltb, ◌==◌, arith, Bool-cases, Option-cases,
}
use camera_service.Common.Text.{text_eq}
use camera_service.Pcap.{
  int, field, Interface, Reader, classic, blocks, Turn, finish, fail, emit, record_turn,
  interface_turn, packet_turn, body_turn, section_turn, header_turn, block_turn, blocks_turn, turn,
  good_length, section_magic, little_bom, big_bom, max_record, options,
}

-- With `b` behind the bytes that are left, a turn that does not end for want of bytes is the same,
-- and one that goes on leaves less than `n` of its bytes.
abbrev pub Extends : ℕ → List ℕ → Turn → Turn → Type 0
Extends n b finish t = Unit
Extends n b (fail e) t = t ≡ fail e
Extends n b (emit ps s rest) t = (t ≡ emit ps s (rest ++ b)) × (length rest < n)

pub field-append :
    (little : Bool) (at w : ℕ) (a b : List ℕ)
    → at + w ≤ length a
    → field little at w (a ++ b) ≡ field little at w a
field-append little at w a b h =
    ap (λ (l : List ℕ). int little (take w l)) (drop-append_left at a b (omega arith))
    ∙ ap (int little) (take-append_left w (drop at a) b (omega (arith, length-drop at a)))

enough :
    (a b : List ℕ) (n : ℕ)
    → ltb (length a) n ≡ false
    → (n ≤ length a) × (ltb (length (a ++ b)) n ≡ false)
enough a b n h = (ground arith, ground (arith, length-append a b))

at_least_12 : (n : ℕ) → good_length n ≡ true → 12 ≤ n
at_least_12 n h = ground (arith, h)

at_least_12_of : (n : ℕ) → (good_length n && n % 4 == 0) ≡ true → 12 ≤ n
at_least_12_of n h = ground (arith, h)

record_turn-Extends :
    (little : Bool) (frac link : ℕ) (a b : List ℕ)
    → Extends (length a) b (record_turn little frac link a) (record_turn little frac link (a ++ b))
unfolding record_turn
record_turn-Extends little frac link a b = elim (Bool-cases (ltb (length a) 16)) [
  | inl short ↦ rw short tt
  | inr h ↦
      let (k, h') = enough a b 16 h in
      let n = field little 8 4 a in
      let e = field-append little 8 4 a b (omega arith) in
      elim (Bool-cases (ltb max_record n)) [
        | inl huge ↦ rw (h, h', e, huge) refl
        | inr fits ↦ elim (Bool-cases (ltb (length a) (16 + n))) [
          | inl cut ↦ rw (h, fits, cut) tt
          | inr whole ↦
              let (k', whole') = enough a b (16 + n) whole in
              let e0 = field-append little 0 4 a b (omega arith) in
              let e4 = field-append little 4 4 a b (omega arith) in
              let t : take n (drop 16 (a ++ b)) ≡ take n (drop 16 a) =
                ap (take n) (drop-append_left 16 a b k)
                ∙ take-append_left n (drop 16 a) b (omega (arith, length-drop 16 a)) in
              let r = drop-append_left (16 + n) a b k' in
              rw (h, h', e, fits, whole, whole', e0, e4, t, r)
                (refl, omega (arith, length-drop (16 + n) a, k'))
        ]
      ]
]

interface_turn-Extends :
    (m : ℕ) (little : Bool) (is : List Interface) (body rest b : List ℕ)
    → length rest < m
    → Extends m b (interface_turn little is body rest) (interface_turn little is body (rest ++ b))
unfolding interface_turn
interface_turn-Extends m little is body rest b l = elim (Bool-cases (ltb (length body) 8)) [
  | inl short ↦ rw short refl
  | inr h ↦ elim (Option-cases (options (length body) little 6 (drop 8 body))) [
    | inl e ↦ rw (h, e) refl
    | inr (v, e) ↦ rw (h, e) (refl, l)
  ]
]

packet_turn-Extends :
    (m : ℕ) (little : Bool) (is : List Interface) (body rest b : List ℕ)
    → length rest < m
    → Extends m b (packet_turn little is body rest) (packet_turn little is body (rest ++ b))
unfolding packet_turn
packet_turn-Extends m little is body rest b l = elim (Bool-cases (ltb (length body) 20)) [
  | inl short ↦ rw short refl
  | inr h ↦ elim (Option-cases (get_elem? is (field little 0 4 body))) [
    | inl e ↦ rw (h, e) refl
    | inr (i, e) ↦ elim (Bool-cases (ltb (length body - 20) (field little 12 4 body))) [
      | inl k ↦ rw (h, e, k) refl
      | inr k ↦ rw (h, e, k) (refl, l)
    ]
  ]
]

body_turn-Extends :
    (m : ℕ) (little : Bool) (is : List Interface) (n : ℕ) (body rest b : List ℕ)
    → length rest < m
    → Extends m b (body_turn little is n body rest) (body_turn little is n body (rest ++ b))
unfolding body_turn
body_turn-Extends m little is n body rest b l = elim (Bool-cases (n == 1)) [
  | inl e ↦ rw e (interface_turn-Extends m little is body rest b l)
  | inr e ↦ elim (Bool-cases (n == 6)) [
    | inl e' ↦ rw (e, e') (packet_turn-Extends m little is body rest b l)
    | inr e' ↦ rw (e, e') (refl, l)
  ]
]

section_turn-Extends :
    (little : Bool) (a b : List ℕ)
    → 12 ≤ length a
    → Extends (length a) b (section_turn little a) (section_turn little (a ++ b))
unfolding section_turn
section_turn-Extends little a b h =
    let n = field little 4 4 a in
    let e = field-append little 4 4 a b (omega arith) in
    elim (Bool-cases (good_length n)) [
      | inr bad ↦ rw (e, bad) refl
      | inl good ↦ elim (Bool-cases (ltb (length a) n)) [
        | inl cut ↦ rw (good, cut) tt
        | inr whole ↦
            let (k, whole') = enough a b n whole in
            rw (e, good, whole, whole', drop-append_left n a b k)
              (refl, omega (arith, length-drop n a, at_least_12 n good, k))
      ]
    ]

header_turn-Extends : (a b : List ℕ) → Extends (length a) b (header_turn a) (header_turn (a ++ b))
unfolding header_turn
header_turn-Extends a b = elim (Bool-cases (ltb (length a) 12)) [
  | inl short ↦ rw short tt
  | inr h ↦
      let (k, h') = enough a b 12 h in
      let bom = take 4 (drop 8 a) in
      let e : take 4 (drop 8 (a ++ b)) ≡ bom =
        ap (take 4) (drop-append_left 8 a b (omega arith))
        ∙ take-append_left 4 (drop 8 a) b (omega (arith, length-drop 8 a)) in
      elim (Bool-cases (text_eq bom little_bom)) [
        | inl l ↦ rw (h, h', e, l) (section_turn-Extends true a b k)
        | inr l ↦ elim (Bool-cases (text_eq bom big_bom)) [
          | inl g ↦ rw (h, h', e, l, g) (section_turn-Extends false a b k)
          | inr g ↦ rw (h, h', e, l, g) refl
        ]
      ]
]

block_turn-Extends :
    (little : Bool) (is : List Interface) (a b : List ℕ)
    → Extends (length a) b (block_turn little is a) (block_turn little is (a ++ b))
unfolding block_turn
block_turn-Extends little is a b = elim (Bool-cases (ltb (length a) 8)) [
  | inl short ↦ rw short tt
  | inr h ↦
      let (k, h') = enough a b 8 h in
      let n = field little 4 4 a in
      let e = field-append little 4 4 a b (omega arith) in
      elim (Bool-cases (good_length n && n % 4 == 0)) [
        | inr bad ↦ rw (h, h', e, bad) refl
        | inl good ↦ elim (Bool-cases (ltb (length a) n)) [
          | inl cut ↦ rw (h, good, cut) tt
          | inr whole ↦
              let (k', whole') = enough a b n whole in
              let e0 = field-append little 0 4 a b (omega arith) in
              let t : take (n - 12) (drop 8 (a ++ b)) ≡ take (n - 12) (drop 8 a) =
                ap (take (n - 12)) (drop-append_left 8 a b k)
                ∙ take-append_left (n - 12) (drop 8 a) b (omega (arith, length-drop 8 a)) in
              rw (h, h', e, good, whole, whole', e0, t, drop-append_left n a b k')
                (body_turn-Extends (length a) little is (field little 0 4 a)
                  (take (n - 12) (drop 8 a)) (drop n a) b
                  (omega (arith, length-drop n a, at_least_12_of n good, k')))
        ]
      ]
]

pub turn-Extends : (s : Reader) (a b : List ℕ) → Extends (length a) b (turn s a) (turn s (a ++ b))
unfolding turn blocks_turn
turn-Extends (classic little frac link) a b = record_turn-Extends little frac link a b
turn-Extends (blocks endian is) a b = elim (Bool-cases (ltb (length a) 4)) [
  | inl short ↦ rw short tt
  | inr h ↦
      let (k, h') = enough a b 4 h in
      let e = take-append_left 4 a b k in
      elim (Bool-cases (text_eq (take 4 a) section_magic)) [
        | inl m ↦ rw (h, h', e, m) (header_turn-Extends a b)
        | inr m ↦ elim (Option-cases endian) [
          | inl n ↦ rw (h, h', e, m, n) refl
          | inr (little, n) ↦ rw (h, h', e, m, n) (block_turn-Extends little is a b)
        ]
      ]
]
