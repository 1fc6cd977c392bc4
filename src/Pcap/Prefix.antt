-- ===== src/Pcap/Prefix.antt =====
-- A capture that was cut off, as by a writer that was killed: core-driver/cam_driver/pcapio.py reads
-- from it the first packets of the whole file.
use mathlib.Core.List.{append_assoc, append-nil}
use camera_service.Common.{
  ℕ, zero, suc, ◌+◌, ◌≤◌, ◌≡◌, refl, sym, ◌∙◌, ap, inl, inr, Bool, false, none, some, List, [],
  ◌++◌, length, take, drop, length-append, length-drop, take-append_left, drop-append_left, ltb,
  arith, Bool-cases, Option-cases, List-cases, subst,
}
use camera_service.Common.Text.{text_eq}
use camera_service.Pcap.{
  Packet, Error, Reader, classic, blocks, Turn, finish, fail, emit, turn, Read, ended, yielding,
  loop, iter_pcap, iter_packets, section_magic, pcap_magic, field, no_capture, record_turn,
  blocks_turn,
}
use camera_service.Pcap.Turns.{Extends, turn-Extends, field-append}

-- `whole` begins with the packets of `cut`, and ends with the same error where `cut` has one.
pub record Begins (cut whole : Read) : Type 0 where
  pub packets : (more : List Packet) × (whole.packets ≡ cut.packets ++ more)
  pub error : (e : Error) → cut.error ≡ some e → whole ≡ cut

yielding-Begins :
    (ps : List Packet) (x y : Read) → Begins x y → Begins (yielding ps x) (yielding ps y)
yielding-Begins ps x y h = record {
  packets = (
    h.packets.0,
    ap (λ (l : List Packet). ps ++ l) h.packets.1 ∙ sym (append_assoc ps x.packets h.packets.0),
  );
  error = λ e k. ap (yielding ps) (h.error e k);
}

ended-Begins : (y : Read) → Begins (ended none) y
ended-Begins y = record { packets = (y.packets, refl); error = λ e k. cc }

same-Begins : (x : Read) → Begins x x
same-Begins x = record { packets = ([], sym (append-nil x.packets)); error = λ e k. refl }

-- One turn of each loop, by the turn of the cut file.
data TurnOf (s : Reader) (a : List ℕ) : Type 0 where
  is_finish : turn s a ≡ finish → TurnOf s a
  is_fail : (e : Error) → turn s a ≡ fail e → TurnOf s a
  is_emit :
      (ps : List Packet) (s' : Reader) (rest : List ℕ) → turn s a ≡ emit ps s' rest → TurnOf s a

turn-TurnOf : (s : Reader) (a : List ℕ) → TurnOf s a
turn-TurnOf s a = go (turn s a) refl
  where
    go : (t : Turn) → turn s a ≡ t → TurnOf s a
    go finish e = is_finish e
    go (fail x) e = is_fail x e
    go (emit ps s' rest) e = is_emit ps s' rest e

loop_zero : (s : Reader) (a : List ℕ) → loop zero s a ≡ ended none
unfolding loop
loop_zero s a = refl

loop_finish : (f : ℕ) (s : Reader) (a : List ℕ) → turn s a ≡ finish → loop (suc f) s a ≡ ended none
unfolding loop
loop_finish f s a t = rw (t, loop) refl

loop_fail :
    (f : ℕ) (s : Reader) (a : List ℕ) (e : Error)
    → turn s a ≡ fail e
    → loop (suc f) s a ≡ ended (some e)
unfolding loop
loop_fail f s a e t = rw (t, loop) refl

pub loop_emit :
    (f : ℕ) (s s' : Reader) (a rest : List ℕ) (ps : List Packet)
    → turn s a ≡ emit ps s' rest
    → loop (suc f) s a ≡ yielding ps (loop f s' rest)
unfolding loop
loop_emit f s s' a rest ps t = rw (t, loop) refl

turn_nil : (s : Reader) → turn s [] ≡ finish
unfolding turn record_turn blocks_turn
turn_nil (classic little frac link) = refl
turn_nil (blocks endian is) = refl

pub loop_nil : (f : ℕ) (s : Reader) → loop f s [] ≡ ended none
loop_nil zero s = loop_zero s []
loop_nil (suc f) s = loop_finish f s [] (turn_nil s)

loop-Begins :
    (f g : ℕ) (s : Reader) (a b : List ℕ)
    → length a ≤ f
    → length a + length b ≤ g
    → Begins (loop f s a) (loop g s (a ++ b))
loop-Begins zero g s a b h k = elim (List-cases a) [
  | inl e ↦ rw (e, loop_nil zero s) (ended-Begins (loop g s b))
  | inr (x, xs, e) ↦ absurd (omega (arith, ap length e))
]
loop-Begins (suc f) zero s a b h k = elim (List-cases a) [
  | inl e ↦ rw (e, loop_nil (suc f) s) (ended-Begins (loop zero s b))
  | inr (x, xs, e) ↦ absurd (omega (arith, ap length e))
]
loop-Begins (suc f) (suc g) s a b h k = elim (turn-TurnOf s a) [
  | is_finish t ↦ rw (loop_finish f s a t) (ended-Begins (loop (suc g) s (a ++ b)))
  | is_fail e t ↦
      let x =
        subst (λ (u : Turn). Extends (length a) b u (turn s (a ++ b))) t (turn-Extends s a b) in
      rw (loop_fail f s a e t, loop_fail g s (a ++ b) e x) (same-Begins (ended (some e)))
  | is_emit ps s' rest t ↦
      let x =
        subst (λ (u : Turn). Extends (length a) b u (turn s (a ++ b))) t (turn-Extends s a b) in
      rw (loop_emit f s s' a rest ps t, loop_emit g s s' (a ++ b) (rest ++ b) ps x.0)
        (yielding-Begins ps (loop f s' rest) (loop g s' (rest ++ b))
          (loop-Begins f g s' rest b (omega (arith, x.1)) (omega (arith, x.1))))
]

iter_pcap-Begins :
    (little : Bool) (frac : ℕ) (a b : List ℕ)
    → 24 ≤ length a
    → Begins (iter_pcap little frac a) (iter_pcap little frac (a ++ b))
unfolding iter_pcap
iter_pcap-Begins little frac a b h =
    let x : ltb (length a) 24 ≡ false = ground (arith, h) in
    let y : ltb (length (a ++ b)) 24 ≡ false = ground (arith, h, length-append a b) in
    rw (x, y, field-append little 20 4 a b (omega arith), drop-append_left 24 a b h)
      (loop-Begins (length a) (length (a ++ b)) (classic little frac (field little 20 4 a))
        (drop 24 a) b (omega (arith, length-drop 24 a))
        (omega (arith, length-drop 24 a, length-append a b)))

-- A capture file of which at least the first 24 bytes are there, and whatever bytes are missing
-- behind them: what is read from it are the first packets of the whole file, in order, and it ends
-- with an error only where reading the whole file ends there with the same error.
pub iter_packets-Begins :
    (a b : List ℕ) → 24 ≤ length a → Begins (iter_packets a) (iter_packets (a ++ b))
unfolding iter_packets
iter_packets-Begins a b h =
    let m = take-append_left 4 a b (omega arith) in
    elim (Bool-cases (text_eq (take 4 a) section_magic)) [
      | inl s ↦
          rw (m, s)
            (loop-Begins (length a) (length (a ++ b)) (blocks none []) a b (omega arith)
              (omega (arith, length-append a b)))
      | inr s ↦ elim (Option-cases (pcap_magic (take 4 a))) [
        | inl n ↦ rw (m, s, n) (same-Begins (ended (some no_capture)))
        | inr ((little, frac), n) ↦ rw (m, s, n) (iter_pcap-Begins little frac a b h)
      ]
    ]
