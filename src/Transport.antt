-- ===== src/Transport.antt =====
-- The header that the shm transport puts before each frame: FrameHeader.pack and unpack_header of
-- core-driver/cam_driver/transport.py. A buffer is its bytes; `struct` is written out, in little
-- endian. A text that the code's tables do not hold is an error, or the default that they name.
pub mod Bytes
pub mod RoundTrip
mod Tests
use camera_service.Common.{
  ℕ, zero, suc, ◌+◌, ◌*◌, ◌/◌, ◌%◌, ◌^◌, Bool, true, false, not, ◌&&◌, Option, none, some, List, [],
  ◌∷◌, ◌++◌, length, take, drop, ltb, ◌==◌, if◌then◌else◌,
}
use camera_service.Common.Text.{codes, text_eq}

-- `struct` of an unsigned integer of so many bytes, "<".
unfoldable pub to_bytes : ℕ → ℕ → List ℕ
to_bytes zero n = []
to_bytes (suc w) n = n % 256 ∷ to_bytes w (n / 256)

unfoldable pub from_little : List ℕ → ℕ
from_little [] = 0
from_little (b ∷ bs) = b + 256 * from_little bs

-- _CODE_TO_GST and TS_SOURCE_CODE, as tables of a code and a name.
abbrev pub Table : Type 0
Table = List (ℕ × List ℕ)

abbrev pub pixel_formats : Table
pixel_formats =
    (1, codes "GRAY8")
    ∷ (2, codes "GRAY16_LE")
    ∷ (3, codes "GRAY16_BE")
    ∷ (4, codes "I420")
    ∷ (5, codes "NV12")
    ∷ (6, codes "YUY2")
    ∷ (7, codes "RGB")
    ∷ (8, codes "BGR")
    ∷ (9, codes "NV24")
    ∷ (10, codes "YV12")
    ∷ (11, codes "UYVY")
    ∷ (12, codes "RGBA")
    ∷ (13, codes "BGRA")
    ∷ (14, codes "RGBx")
    ∷ (15, codes "BGRx")
    ∷ []

abbrev pub ts_sources : Table
ts_sources =
    (0, codes "ptp_chunk")
    ∷ (1, codes "camera")
    ∷ (2, codes "system")
    ∷ (3, codes "sof")
    ∷ (4, codes "rtp_ntp")
    ∷ []

unfoldable pub code_of : List ℕ → Table → Option ℕ
code_of name [] = none
code_of name ((code, n) ∷ rest) = if text_eq name n then some code else code_of name rest

unfoldable pub name_of : ℕ → Table → Option (List ℕ)
name_of code [] = none
name_of code ((c, n) ∷ rest) = if code == c then some n else name_of code rest

abbrev pub magic : List ℕ
magic = codes "CAMF"

abbrev pub version_1 : ℕ
version_1 = 1

abbrev pub header_size : ℕ
header_size = 36

pub record FrameHeader : Type 0 where
  pub timestamp_ns : ℕ
  pub frame_id : ℕ
  pub width : ℕ
  pub height : ℕ
  pub pixfmt : List ℕ
  pub ts_source : List ℕ
  pub flags : ℕ
  pub version : ℕ

abbrev pub or_default : Option ℕ → ℕ → ℕ
or_default none d = d
or_default (some n) d = n

abbrev pub or_text : Option (List ℕ) → List ℕ → List ℕ
or_text none d = d
or_text (some t) d = t

-- The bytes of a header whose pixel format has a code. An integer that its field cannot hold makes
-- `struct` raise, where the code does not mask it first.
unfoldable pub packed : ℕ → FrameHeader → List ℕ
packed code h =
    magic
    ++ to_bytes 2 h.version
    ++ to_bytes 2 header_size
    ++ to_bytes 8 (h.timestamp_ns % 2 ^ 64)
    ++ to_bytes 8 (h.frame_id % 2 ^ 64)
    ++ to_bytes 2 h.width
    ++ to_bytes 2 h.height
    ++ to_bytes 4 code
    ++ to_bytes 1 (or_default (code_of h.ts_source ts_sources) 1)
    ++ to_bytes 1 (h.flags % 256)
    ++ to_bytes 2 0

unfoldable pub pack : FrameHeader → Option (List ℕ)
pack h = elim (code_of h.pixfmt pixel_formats) [
  | none ↦ none
  | some code ↦
      if ltb h.version (2 ^ 16) && ltb h.width (2 ^ 16) && ltb h.height (2 ^ 16)
      then some (packed code h)
      else none
]

-- The integer in the bytes from an offset on.
abbrev pub field : ℕ → ℕ → List ℕ → ℕ
field at w d = from_little (take w (drop at d))

unfoldable pub unpack_header : List ℕ → Option FrameHeader
unpack_header d =
    if ltb (length d) header_size
    then none
    else if not (text_eq (take 4 d) magic)
    then none
    else if not (field 4 2 d == version_1)
    then none
    else elim (name_of (field 28 4 d) pixel_formats) [
      | none ↦ none
      | some pixfmt ↦ some (record {
        timestamp_ns = field 8 8 d;
        frame_id = field 16 8 d;
        width = field 24 2 d;
        height = field 26 2 d;
        pixfmt = pixfmt;
        ts_source = or_text (name_of (field 32 1 d) ts_sources) (codes "camera");
        flags = field 33 1 d;
        version = field 4 2 d;
      })
    ]
