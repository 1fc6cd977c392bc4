-- ===== src/HeaderTransport.antt =====
-- The frame header as the WebRTC bridge reads it: parse_header of
-- plugins/webrtc-bridge/tools/header_transport.py.
pub mod Mirror
mod Tests
use camera_service.Common.{
  ℕ, zero, suc, ◌+◌, ◌-◌, ◌*◌, ◌/◌, ◌%◌, Bool, true, false, not, ◌&&◌, ◌||◌, Option, none, some,
  List, [], ◌∷◌, length, take, drop, ltb, ◌==◌, if◌then◌else◌,
}
use camera_service.Common.Text.{codes, text_eq}
use camera_service.Transport.{Table, name_of, field}

-- CODE_TO_GST and TS_SOURCE_NAME
abbrev pub code_to_gst : Table
code_to_gst =
    (1, codes "GRAY8")
    ∷ (2, codes "GRAY16_LE")
    ∷ (3, codes "GRAY16_BE")
    ∷ (4, codes "I420")
    ∷ (5, codes "NV12")
    ∷ (6, codes "YUY2")
    ∷ (7, codes "RGB")
    ∷ (8, codes "BGR")
    ∷ (9, codes "NV24")
    ∷ (10, codes "YV12")
    ∷ (11, codes "UYVY")
    ∷ (12, codes "RGBA")
    ∷ (13, codes "BGRA")
    ∷ (14, codes "RGBx")
    ∷ (15, codes "BGRx")
    ∷ []

abbrev pub ts_source_name : Table
ts_source_name =
    (0, codes "ptp_chunk")
    ∷ (1, codes "camera")
    ∷ (2, codes "system")
    ∷ (3, codes "sof")
    ∷ (4, codes "rtp_ntp")
    ∷ []

pub data HeaderError : Type 0 where
  too_small bad_magic bad_version bad_header_len bad_pixfmt bad_geometry : HeaderError

pub record FrameInfo : Type 0 where
  pub timestamp_ns : ℕ
  pub frame_id : ℕ
  pub width : ℕ
  pub height : ℕ
  pub pixfmt : List ℕ
  pub ts_source : List ℕ
  pub header_len : ℕ

pub data Parsed : Type 0 where
  failed : HeaderError → Parsed
  parsed : FrameInfo → Parsed

-- `str(n)` of a byte.
unfoldable pub decimal : ℕ → List ℕ
decimal n =
    if ltb n 10
    then (48 + n) ∷ []
    else if ltb n 100
    then (48 + n / 10) ∷ (48 + n % 10) ∷ []
    else (48 + n / 100) ∷ (48 + n / 10 % 10) ∷ (48 + n % 10) ∷ []

unfoldable pub source_name : ℕ → Option (List ℕ) → List ℕ
source_name code (some name) = name
source_name code none = decimal code

-- The checks of the pixel format and of the size.
unfoldable pub parse_format : List ℕ → Option (List ℕ) → Parsed
parse_format d none = failed bad_pixfmt
parse_format d (some fmt) =
    if field 24 2 d == 0 || field 26 2 d == 0
    then failed bad_geometry
    else parsed (record {
      timestamp_ns = field 8 8 d;
      frame_id = field 16 8 d;
      width = field 24 2 d;
      height = field 26 2 d;
      pixfmt = fmt;
      ts_source = source_name (field 32 1 d) (name_of (field 32 1 d) ts_source_name);
      header_len = field 6 2 d;
    })

unfoldable pub parse_header : List ℕ → Parsed
parse_header d =
    if ltb (length d) 36
    then failed too_small
    else if not (text_eq (take 4 d) (codes "CAMF"))
    then failed bad_magic
    else if not (field 4 2 d == 1)
    then failed bad_version
    else if ltb (field 6 2 d) 36 || ltb (length d) (field 6 2 d)
    then failed bad_header_len
    else parse_format d (name_of (field 28 4 d) code_to_gst)
