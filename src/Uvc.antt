-- ===== src/Uvc.antt =====
-- The reassembly of UVC frames: UvcFrameExtractor of core-driver/cam_driver/uvcpcap.py. A byte string is a list
-- of numbers. The bus of a pending request is left out of its key, since every record that gets there
-- is on the bus of the extractor.
pub mod Camera
pub mod Blocks
pub mod RoundTrip
pub mod Whole
pub mod Capture
pub mod Prefix
pub mod Transfers
pub mod Bulk
mod Scenarios
mod Tests
use mathlib.Core.List.{reverse}
use camera_service.Common.{
  ℕ, zero, suc, ◌+◌, ◌-◌, ◌*◌, ◌/◌, ◌%◌, Bool, true, false, not, ◌&&◌, ◌||◌, Option, none, some,
  List, [], ◌∷◌, ◌++◌, length, take, drop, ltb, leb, ◌==◌, if◌then◌else◌,
}
use camera_service.Common.Text.{text_eq}
use camera_service.Usbmon.{Packet, lost, payload}

abbrev pub byte_at : ℕ → List ℕ → ℕ
byte_at i [] = 0
byte_at zero (x ∷ xs) = x
byte_at (suc i) (x ∷ xs) = byte_at i xs

-- Bits of bmHeaderInfo: FID, EOF, PTS, SCR and ERR.
abbrev pub bit : ℕ → ℕ → Bool
bit weight info = info / weight % 2 == 1

pub record Header : Type 0 where
  pub hlen : ℕ
  pub info : ℕ

unfoldable pub parse_uvc_header : Bool → List ℕ → Option Header
parse_uvc_header strict p =
    let hlen = byte_at 0 p in
    let info = byte_at 1 p in
    let implied : ℕ = 2 + (if bit 4 info then 4 else 0) + (if bit 8 info then 6 else 0) in
    if ltb (length p) 2
    then none
    else if (if strict then hlen == implied else leb implied hlen) && leb hlen (length p)
    then some (record { hlen = hlen; info = info })
    else none

pub record Config : Type 0 where
  pub expected_size : Option ℕ
  pub mjpeg : Bool
  pub max_payload : ℕ
  pub strict : Bool

pub data Phase : Type 0 where
  accum await skip : Phase

pub record Stats : Type 0 where
  pub frames_ok : ℕ
  pub err_frames : ℕ
  pub truncated : ℕ
  pub bad_header : ℕ
  pub trailing : ℕ
  pub size_drops : ℕ
  pub sizes_seen : List ℕ

pub record Assembly : Type 0 where
  pub phase : Phase
  pub fid : Option ℕ
  pub buf : List ℕ
  pub start_ts : ℕ
  pub stats : Stats

unfoldable pub reset : Assembly
reset = record {
  phase = await;
  fid = none;
  buf = [];
  start_ts = 0;
  stats = record {
    frames_ok = 0;
    err_frames = 0;
    truncated = 0;
    bad_header = 0;
    trailing = 0;
    size_drops = 0;
    sizes_seen = [];
  };
}

pub record Frame : Type 0 where
  pub ts_ns : ℕ
  pub bytes : List ℕ

-- `rstrip(b"\x00")`, and the markers at the ends of a JPEG.
unfoldable pub strip_zeros : List ℕ → List ℕ
strip_zeros [] = []
strip_zeros (b ∷ bs) =
    let rest = strip_zeros bs in if b == 0 && text_eq rest [] then [] else b ∷ rest

abbrev pub is_jpeg : List ℕ → Bool
is_jpeg b = text_eq (take 2 b) (0xff ∷ 0xd8 ∷ []) && text_eq (take 2 (reverse b)) (0xd9 ∷ 0xff ∷ [])

-- The bytes that a frame of this configuration has, and whether they are accepted.
unfoldable pub delivered : Config → List ℕ → List ℕ
delivered c b = if c.mjpeg then strip_zeros b else b

unfoldable pub accepts : Config → List ℕ → Bool
accepts c b =
    if c.mjpeg then is_jpeg b else elim c.expected_size [ none ↦ true | some n ↦ length b == n ]

unfoldable pub finalize : Config → Assembly → List Frame × Assembly
finalize c a =
    let b = delivered c a.buf in
    let st = a.stats in
    if accepts c b
    then (
      record { ts_ns = a.start_ts; bytes = b } ∷ [],
      record a { buf = []; stats = record st { frames_ok = st.frames_ok + 1 } },
    )
    else (
      [],
      record a {
        buf = [];
        stats = record st { size_drops = st.size_drops + 1; sizes_seen = length b ∷ st.sizes_seen };
      },
    )

unfoldable pub begin : ℕ → ℕ → Assembly → Assembly
begin fid ts a = record a { phase = accum; fid = some fid; start_ts = ts; buf = [] }

unfoldable pub poison : Assembly → Assembly
poison a = elim a.phase [ accum ↦ record a { buf = []; phase = skip } | await ↦ a | skip ↦ a ]

abbrev pub same_fid : Option ℕ → ℕ → Bool
same_fid none fid = false
same_fid (some f) fid = f == fid

-- The payload's bytes, and the end of the frame.
unfoldable pub append : Config → Bool → List ℕ → Assembly → List Frame × Assembly
append c eof d a =
    let a' : Assembly = record a { buf = a.buf ++ d } in
    let (out, b) = finalize c a' in if eof then (out, record b { phase = await }) else ([], a')

-- The part of `_feed` behind the comment ACCUM.
unfoldable pub accumulate : Config → ℕ → List ℕ → ℕ → Assembly → List Frame × Assembly
accumulate c info d ts a =
    let fid = info % 2 in
    let st = a.stats in
    let (out, closed) = finalize c a in
    let (more, after) = append c (bit 2 info) d (begin fid ts closed) in
    if bit 64 info
    then (
      [],
      record a { buf = []; phase = skip; stats = record st { err_frames = st.err_frames + 1 } },
    )
    else if not (same_fid a.fid fid)
    then (out ++ more, after)
    else append c (bit 2 info) d a

unfoldable pub feed_data : Config → ℕ → List ℕ → ℕ → Phase → Assembly → List Frame × Assembly
feed_data c info d ts accum a = accumulate c info d ts a
feed_data c info d ts await a =
    let st = a.stats in
    if same_fid a.fid (info % 2) && text_eq d []
    then ([], record a { stats = record st { trailing = st.trailing + 1 } })
    else accumulate c info d ts (begin (info % 2) ts a)
feed_data c info d ts skip a =
    if same_fid a.fid (info % 2) then ([], a) else accumulate c info d ts (begin (info % 2) ts a)

unfoldable pub count_bad : Assembly → Assembly
count_bad a = let st = a.stats in record a { stats = record st { bad_header = st.bad_header + 1 } }

unfoldable pub count_cut : Assembly → Assembly
count_cut a = let st = a.stats in record a { stats = record st { truncated = st.truncated + 1 } }

unfoldable pub feed : Config → List ℕ → ℕ → Assembly → List Frame × Assembly
feed c p ts a = elim (parse_uvc_header c.strict p) [
  | none ↦ ([], poison (count_bad a))
  | some h ↦ feed_data c h.info (drop h.hlen p) ts a.phase a
]

-- The packets of the isochronous transfers of an endpoint, each with its time.
unfoldable pub feed_packet : Config → Packet → ℕ → Assembly → List Frame × Assembly
feed_packet c lost ts a = ([], poison (count_cut a))
feed_packet c (payload p) ts a = feed c p ts a

unfoldable pub feed_packets : Config → List (Packet × ℕ) → Assembly → List Frame × Assembly
feed_packets c [] a = ([], a)
feed_packets c ((p, ts) ∷ ps) a =
    let (out, a') = feed_packet c p ts a in
    let (more, a'') = feed_packets c ps a' in (out ++ more, a'')
