-- ===== src/Pcap.antt =====
-- The capture-file readers of core-driver/cam_driver/pcapio.py: classic pcap and pcapng. A file is
-- its bytes, and reading is a loop of steps, one for each record or block, on fuel: each step uses up
-- a byte or more, so the length of the file is enough. What the generator yields before it ends or
-- raises is a list of packets; an error keeps its kind, without path and offset.
pub mod Turns
pub mod Prefix
pub mod Classic
mod Tests
use mathlib.Core.List.{reverse}
use camera_service.Common.{
  ℕ, zero, suc, ◌+◌, ◌-◌, ◌*◌, ◌/◌, ◌%◌, ◌^◌, Bool, true, false, not, ◌&&◌, ◌||◌, Option, none,
  some, List, [], ◌∷◌, ◌++◌, length, take, drop, get_elem?, ltb, leb, ◌==◌, if◌then◌else◌,
}
use camera_service.Common.Text.{text_eq}
use camera_service.Transport.{from_little}

pub record Packet : Type 0 where
  pub link_type : ℕ
  pub ts_ns : ℕ
  pub payload : List ℕ

-- PcapFormatError by its causes, and the IndexError of an if_tsresol option without its value.
pub data Error : Type 0 where
  no_capture short_header bad_byte_order no_section short_interface short_packet no_option_value :
      Error
  huge_record bad_length bad_interface bad_capture_length : ℕ → Error

-- `struct` of an unsigned integer: "<" is true.
unfoldable pub int : Bool → List ℕ → ℕ
int true bs = from_little bs
int false bs = from_little (reverse bs)

abbrev pub field : Bool → ℕ → ℕ → List ℕ → ℕ
field little at w d = int little (take w (drop at d))

abbrev pub max_record : ℕ
max_record = 256 * 1024 * 1024

-- An interface of a section: its link type and its if_tsresol.
pub record Interface : Type 0 where
  pub link_type : ℕ
  pub tsresol : ℕ

unfoldable pub tsresol_to_ns : ℕ → ℕ → ℕ
tsresol_to_ns tsresol ts =
    if leb 128 tsresol
    then ts * 1000000000 / 2 ^ (tsresol % 128)
    else if leb tsresol 9
    then ts * 10 ^ (9 - tsresol)
    else ts / 10 ^ (tsresol - 9)

-- Where a reader is: in a classic file, or in a section of a pcapng file with its interfaces.
pub data Reader : Type 0 where
  classic : Bool → ℕ → ℕ → Reader
  blocks : Option Bool → List Interface → Reader

-- What one turn of a loop does with the bytes that are left.
pub data Turn : Type 0 where
  finish : Turn
  fail : Error → Turn
  emit : List Packet → Reader → List ℕ → Turn

-- A record of a classic file.
unfoldable pub record_turn : Bool → ℕ → ℕ → List ℕ → Turn
record_turn little frac_ns link_type d =
    let incl_len = field little 8 4 d in
    if ltb (length d) 16
    then finish
    else if ltb max_record incl_len
    then fail (huge_record incl_len)
    else if ltb (length d) (16 + incl_len)
    then finish
    else emit
        (record {
          link_type = link_type;
          ts_ns = field little 0 4 d * 1000000000 + field little 4 4 d * frac_ns;
          payload = take incl_len (drop 16 d);
        }
          ∷ [])
        (classic little frac_ns link_type) (drop (16 + incl_len) d)

-- The options of an interface: the last if_tsresol among them, `none` for the IndexError.
unfoldable pub options : ℕ → Bool → ℕ → List ℕ → Option ℕ
options zero little tsresol opts = some tsresol
options (suc fuel) little tsresol opts =
    let code = field little 0 2 opts in
    let olen = field little 2 2 opts in
    let next = drop (4 + (olen + 3) / 4 * 4) opts in
    let keep = options fuel little tsresol next in
    let set : Option ℕ = elim (get_elem? opts 4) [
      | none ↦ none
      | some v ↦ options fuel little v next
    ] in
    if ltb (length opts) 4 || code == 0
    then some tsresol
    else if code == 9 && leb 1 olen
    then set
    else keep

-- An interface description block, an enhanced packet block, and any other, by its body.
unfoldable pub interface_turn : Bool → List Interface → List ℕ → List ℕ → Turn
interface_turn little interfaces body rest =
    if ltb (length body) 8
    then fail short_interface
    else elim (options (length body) little 6 (drop 8 body)) [
      | none ↦ fail no_option_value
      | some tsresol ↦
          emit []
            (blocks (some little)
              (interfaces ++ record { link_type = field little 0 2 body; tsresol = tsresol } ∷ []))
            rest
    ]

unfoldable pub packet_turn : Bool → List Interface → List ℕ → List ℕ → Turn
packet_turn little interfaces body rest =
    let if_id = field little 0 4 body in
    let ts = field little 4 4 body * 2 ^ 32 + field little 8 4 body in
    let cap_len = field little 12 4 body in
    if ltb (length body) 20 then fail short_packet else elim (get_elem? interfaces if_id) [
      | none ↦ fail (bad_interface if_id)
      | some i ↦
          if ltb (length body - 20) cap_len
          then fail (bad_capture_length cap_len)
          else emit
              (record {
                link_type = i.link_type;
                ts_ns = tsresol_to_ns i.tsresol ts;
                payload = take cap_len (drop 20 body);
              }
                ∷ [])
              (blocks (some little) interfaces) rest
    ]

unfoldable pub body_turn : Bool → List Interface → ℕ → List ℕ → List ℕ → Turn
body_turn little interfaces block_type body rest =
    if block_type == 1
    then interface_turn little interfaces body rest
    else if block_type == 6
    then packet_turn little interfaces body rest
    else emit [] (blocks (some little) interfaces) rest

abbrev pub good_length : ℕ → Bool
good_length n = leb 12 n && leb n max_record

-- A section header block: the byte order comes from its body.
unfoldable pub section_turn : Bool → List ℕ → Turn
section_turn little d =
    let total_len = field little 4 4 d in
    if not (good_length total_len)
    then fail (bad_length total_len)
    else if ltb (length d) total_len
    then finish
    else emit [] (blocks (some little) []) (drop total_len d)

abbrev pub section_magic : List ℕ
section_magic = 0x0a ∷ 0x0d ∷ 0x0d ∷ 0x0a ∷ []

abbrev pub little_bom : List ℕ
little_bom = 0x4d ∷ 0x3c ∷ 0x2b ∷ 0x1a ∷ []

abbrev pub big_bom : List ℕ
big_bom = 0x1a ∷ 0x2b ∷ 0x3c ∷ 0x4d ∷ []

unfoldable pub header_turn : List ℕ → Turn
header_turn d =
    let bom = take 4 (drop 8 d) in
    if ltb (length d) 12
    then finish
    else if text_eq bom little_bom
    then section_turn true d
    else if text_eq bom big_bom
    then section_turn false d
    else fail bad_byte_order

-- Any block behind the section header.
unfoldable pub block_turn : Bool → List Interface → List ℕ → Turn
block_turn little interfaces d =
    let total_len = field little 4 4 d in
    if ltb (length d) 8
    then finish
    else if not (good_length total_len && total_len % 4 == 0)
    then fail (bad_length total_len)
    else if ltb (length d) total_len
    then finish
    else body_turn little interfaces (field little 0 4 d) (take (total_len - 12) (drop 8 d))
        (drop total_len d)

unfoldable pub blocks_turn : Option Bool → List Interface → List ℕ → Turn
blocks_turn endian interfaces d =
    if ltb (length d) 4
    then finish
    else if text_eq (take 4 d) section_magic
    then header_turn d
    else elim endian [ none ↦ fail no_section | some little ↦ block_turn little interfaces d ]

unfoldable pub turn : Reader → List ℕ → Turn
turn (classic little frac_ns link_type) d = record_turn little frac_ns link_type d
turn (blocks endian interfaces) d = blocks_turn endian interfaces d

-- What the generator yields, and how it ends.
pub record Read : Type 0 where
  pub packets : List Packet
  pub error : Option Error

abbrev pub ended : Option Error → Read
ended e = record { packets = []; error = e }

abbrev pub yielding : List Packet → Read → Read
yielding ps r = record { packets = ps ++ r.packets; error = r.error }

unfoldable pub loop : ℕ → Reader → List ℕ → Read
loop zero s d = ended none
loop (suc fuel) s d = elim (turn s d) [
  | finish ↦ ended none
  | fail e ↦ ended (some e)
  | emit ps s' rest ↦ yielding ps (loop fuel s' rest)
]

-- _PCAP_MAGICS: the byte order and the nanoseconds of a fraction.
unfoldable pub pcap_magic : List ℕ → Option (Bool × ℕ)
pcap_magic m =
    if text_eq m (0xd4 ∷ 0xc3 ∷ 0xb2 ∷ 0xa1 ∷ [])
    then some (true, 1000)
    else if text_eq m (0xa1 ∷ 0xb2 ∷ 0xc3 ∷ 0xd4 ∷ [])
    then some (false, 1000)
    else if text_eq m (0x4d ∷ 0x3c ∷ 0xb2 ∷ 0xa1 ∷ [])
    then some (true, 1)
    else if text_eq m (0xa1 ∷ 0xb2 ∷ 0x3c ∷ 0x4d ∷ [])
    then some (false, 1)
    else none

-- `_iter_pcap`, with the magic still in front.
unfoldable pub iter_pcap : Bool → ℕ → List ℕ → Read
iter_pcap little frac_ns d =
    if ltb (length d) 24
    then ended (some short_header)
    else loop (length d) (classic little frac_ns (field little 20 4 d)) (drop 24 d)

unfoldable pub iter_packets : List ℕ → Read
iter_packets d =
    if text_eq (take 4 d) section_magic
    then loop (length d) (blocks none []) d
    else elim (pcap_magic (take 4 d)) [
      | none ↦ ended (some no_capture)
      | some (little, frac_ns) ↦ iter_pcap little frac_ns d
    ]
