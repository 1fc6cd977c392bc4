-- ===== src/Pcap/Classic.antt =====
-- What a writer of classic pcap files puts in a file is what core-driver/cam_driver/pcapio.py reads,
-- for both byte orders and both resolutions.
use mathlib.Core.List.{reverse}
use camera_service.Common.{
  ℕ, zero, suc, ◌+◌, ◌*◌, ◌^◌, ◌≤◌, ◌<◌, ◌≡◌, refl, ◌∙◌, ap, Bool, true, false, none, some, List,
  [], ◌∷◌, ◌++◌, map, length, take, drop, length-append, take-length_append, drop-length_append,
  drop-add, All, ltb, arith, if◌then◌else◌,
}
use camera_service.Common.Text.{text_eq}
use camera_service.Transport.{to_bytes}
use camera_service.Transport.Bytes.{from_little-to_bytes}
use camera_service.Pcap.{
  Packet, int, field, max_record, classic, emit, record_turn, turn, yielding, loop, iter_pcap,
  iter_packets, pcap_magic, section_magic,
}
use camera_service.Pcap.Prefix.{loop_emit, loop_nil}

-- A record as it is captured: its time in seconds and fractions, and its bytes.
pub record Captured : Type 0 where
  pub ts_sec : ℕ
  pub ts_frac : ℕ
  pub payload : List ℕ

-- The writer: an unsigned integer of 4 bytes, a record, and the file with its global header.
unfoldable pub int_bytes : Bool → ℕ → List ℕ
int_bytes true n = to_bytes 4 n
int_bytes false n = reverse (to_bytes 4 n)

unfoldable pub record_bytes : Bool → Captured → List ℕ
record_bytes little c =
    int_bytes little c.ts_sec
    ++ int_bytes little c.ts_frac
    ++ int_bytes little (length c.payload)
    ++ int_bytes little (length c.payload)
    ++ c.payload

unfoldable pub records : Bool → List Captured → List ℕ
records little [] = []
records little (c ∷ cs) = record_bytes little c ++ records little cs

unfoldable pub magic_bytes : Bool → Bool → List ℕ
magic_bytes true true = 0x4d ∷ 0x3c ∷ 0xb2 ∷ 0xa1 ∷ []
magic_bytes true false = 0xd4 ∷ 0xc3 ∷ 0xb2 ∷ 0xa1 ∷ []
magic_bytes false true = 0xa1 ∷ 0xb2 ∷ 0x3c ∷ 0x4d ∷ []
magic_bytes false false = 0xa1 ∷ 0xb2 ∷ 0xc3 ∷ 0xd4 ∷ []

-- Version 2.4 and no zone, as one 4-byte field each here, since the reader does not use them.
unfoldable pub capture_file : Bool → Bool → ℕ → ℕ → List Captured → List ℕ
capture_file little nanos snaplen link cs =
    magic_bytes little nanos
    ++ (2 ∷ 0 ∷ 4 ∷ 0 ∷ 0 ∷ 0 ∷ 0 ∷ 0 ∷ 0 ∷ 0 ∷ 0 ∷ 0 ∷ [])
    ++ int_bytes little snaplen
    ++ int_bytes little link
    ++ records little cs

abbrev pub frac_ns : Bool → ℕ
frac_ns nanos = if nanos then 1 else 1000

pub packet_of : ℕ → ℕ → Captured → Packet
packet_of link frac c = record {
  link_type = link;
  ts_ns = c.ts_sec * 1000000000 + c.ts_frac * frac;
  payload = c.payload;
}

-- What the fields of a record can hold.
abbrev pub Fits : Captured → Type 0
Fits c = (c.ts_sec < 2 ^ 32) × (c.ts_frac < 2 ^ 32) × (length c.payload ≤ max_record)

int-int_bytes : (little : Bool) (n : ℕ) → n < 2 ^ 32 → int little (int_bytes little n) ≡ n
unfolding int int_bytes to_bytes
int-int_bytes true n h = from_little-to_bytes 4 n (omega arith)
int-int_bytes false n h = from_little-to_bytes 4 n (omega arith)

-- The fields of a record with more bytes behind it.
record Fields (little : Bool) (c : Captured) (rest : List ℕ) : Type 0 where
  sec : field little 0 4 (record_bytes little c ++ rest) ≡ int little (int_bytes little c.ts_sec)
  frac : field little 4 4 (record_bytes little c ++ rest) ≡ int little (int_bytes little c.ts_frac)
  size :
      field little 8 4 (record_bytes little c ++ rest)
      ≡ int little (int_bytes little (length c.payload))
  after : drop 16 (record_bytes little c ++ rest) ≡ c.payload ++ rest
  whole : length (record_bytes little c ++ rest) ≡ 16 + length (c.payload ++ rest)

record-Fields : (little : Bool) (c : Captured) (rest : List ℕ) → Fields little c rest
unfolding record_bytes int_bytes to_bytes
record-Fields true c rest = record {
  sec = refl;
  frac = refl;
  size = refl;
  after = refl;
  whole = omega arith;
}
record-Fields false c rest = record {
  sec = refl;
  frac = refl;
  size = refl;
  after = refl;
  whole = omega arith;
}

turn-record_bytes :
    (little : Bool) (frac link : ℕ) (c : Captured) (rest : List ℕ)
    → Fits c
    → turn (classic little frac link) (record_bytes little c ++ rest)
      ≡ emit (packet_of link frac c ∷ []) (classic little frac link) rest
unfolding turn record_turn packet_of
turn-record_bytes little frac link c rest (s, f, n) =
    let d = record_bytes little c ++ rest in
    let h = record-Fields little c rest in
    let size = h.size ∙ int-int_bytes little (length c.payload) (omega arith) in
    let long : ltb (length d) 16 ≡ false = ground (arith, h.whole) in
    let fits : ltb max_record (length c.payload) ≡ false = ground (arith, n) in
    let all : ltb (length d) (16 + length c.payload) ≡ false =
      ground (arith, h.whole, length-append c.payload rest) in
    let body : take (length c.payload) (drop 16 d) ≡ c.payload =
      ap (take (length c.payload)) h.after ∙ take-length_append c.payload rest in
    let left : drop (16 + length c.payload) d ≡ rest =
      drop-add 16 (length c.payload) d
      ∙ ap (drop (length c.payload)) h.after
      ∙ drop-length_append c.payload rest in
    rw
      (
        size,
        long,
        fits,
        all,
        body,
        left,
        h.sec ∙ int-int_bytes little c.ts_sec (omega arith),
        h.frac ∙ int-int_bytes little c.ts_frac (omega arith),
      )
      refl

loop-records :
    (f : ℕ) (little : Bool) (frac link : ℕ) (cs : List Captured)
    → All Fits cs
    → length (records little cs) ≤ f
    → loop f (classic little frac link) (records little cs)
      ≡ record { packets = map (packet_of link frac) cs; error = none }
unfolding records
loop-records f little frac link [] h k = loop_nil f (classic little frac link)
loop-records zero little frac link (c ∷ cs) (h, hs) k =
    absurd (omega (arith, (record-Fields little c (records little cs)).whole))
loop-records (suc f) little frac link (c ∷ cs) (h, hs) k =
    let w = (record-Fields little c (records little cs)).whole in
    let s = classic little frac link in
    loop_emit f s s (record_bytes little c ++ records little cs) (records little cs)
      (packet_of link frac c ∷ []) (turn-record_bytes little frac link c (records little cs) h)
    ∙ ap (yielding (packet_of link frac c ∷ [])) (
        loop-records f little frac link cs hs
          (omega (arith, w, length-append c.payload (records little cs))))

-- The global header of a file.
record Header (little nanos : Bool) (snaplen link : ℕ) (cs : List Captured) : Type 0 where
  no_section : text_eq (take 4 (capture_file little nanos snaplen link cs)) section_magic ≡ false
  magic :
      pcap_magic (take 4 (capture_file little nanos snaplen link cs)) ≡ some (little, frac_ns nanos)
  link_type :
      field little 20 4 (capture_file little nanos snaplen link cs)
      ≡ int little (int_bytes little link)
  after : drop 24 (capture_file little nanos snaplen link cs) ≡ records little cs
  whole : length (capture_file little nanos snaplen link cs) ≡ 24 + length (records little cs)

file-Header :
    (little nanos : Bool) (snaplen link : ℕ) (cs : List Captured)
    → Header little nanos snaplen link cs
unfolding capture_file magic_bytes int_bytes to_bytes text_eq pcap_magic
file-Header true true snaplen link cs = record {
  no_section = refl;
  magic = refl;
  link_type = refl;
  after = refl;
  whole = omega arith;
}
file-Header true false snaplen link cs = record {
  no_section = refl;
  magic = refl;
  link_type = refl;
  after = refl;
  whole = omega arith;
}
file-Header false true snaplen link cs = record {
  no_section = refl;
  magic = refl;
  link_type = refl;
  after = refl;
  whole = omega arith;
}
file-Header false false snaplen link cs = record {
  no_section = refl;
  magic = refl;
  link_type = refl;
  after = refl;
  whole = omega arith;
}

iter_pcap-capture_file :
    (little nanos : Bool) (snaplen link : ℕ) (cs : List Captured)
    → link < 2 ^ 32
    → All Fits cs
    → iter_pcap little (frac_ns nanos) (capture_file little nanos snaplen link cs)
      ≡ record { packets = map (packet_of link (frac_ns nanos)) cs; error = none }
unfolding iter_pcap
iter_pcap-capture_file little nanos snaplen link cs h k =
    let d = capture_file little nanos snaplen link cs in
    let f = file-Header little nanos snaplen link cs in
    let long : ltb (length d) 24 ≡ false = ground (arith, f.whole) in
    rw (long, f.link_type ∙ int-int_bytes little link h, f.after)
      (loop-records (length d) little (frac_ns nanos) link cs k (omega (arith, f.whole)))

-- A classic capture file of either byte order and resolution, with records whose fields fit: reading
-- it gives the link type, the time in nanoseconds and the bytes of every record, in order, and no
-- error.
pub iter_packets-capture_file :
    (little nanos : Bool) (snaplen link : ℕ) (cs : List Captured)
    → link < 2 ^ 32
    → All Fits cs
    → iter_packets (capture_file little nanos snaplen link cs)
      ≡ record { packets = map (packet_of link (frac_ns nanos)) cs; error = none }
unfolding iter_packets
iter_packets-capture_file little nanos snaplen link cs h k =
    let f = file-Header little nanos snaplen link cs in
    rw (f.no_section, f.magic) (iter_pcap-capture_file little nanos snaplen link cs h k)
