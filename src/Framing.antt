-- ===== src/Framing.antt =====
-- The helpers of plugins/ros2-source/cam_ros2_source/framing.py: the writer's copy of the transport
-- header, the pinned format, and the packing of rows. A text is its code points, ASCII; an error that
-- the code raises is `none`. Caps strings and the frame rate, a float, are left out.
pub mod Mirror
pub mod Rows
mod Tests
use camera_service.Common.{
  ℕ, zero, suc, ◌+◌, ◌-◌, ◌*◌, ◌/◌, ◌%◌, ◌^◌, Bool, true, false, not, ◌&&◌, ◌||◌, Option, none,
  some, List, [], ◌∷◌, ◌++◌, length, take, drop, ltb, leb, ◌==◌, if◌then◌else◌,
}
use camera_service.Common.Text.{codes, text_eq}
use camera_service.Transport.{to_bytes, Table, code_of, or_default}
use camera_service.Formats.{one_of, starts_with, contains, ends_with, upper}

-- MAGIC, VERSION, HEADER_SIZE, PIXFMT_CODE and TS_SOURCE_CODE of the writer.
abbrev pub writer_magic : List ℕ
writer_magic = codes "CAMF"

abbrev pub pixfmt_code : Table
pixfmt_code =
    (1, codes "GRAY8")
    ∷ (2, codes "GRAY16_LE")
    ∷ (3, codes "GRAY16_BE")
    ∷ (4, codes "I420")
    ∷ (5, codes "NV12")
    ∷ (6, codes "YUY2")
    ∷ (7, codes "RGB")
    ∷ (8, codes "BGR")
    ∷ (9, codes "NV24")
    ∷ (10, codes "YV12")
    ∷ (11, codes "UYVY")
    ∷ (12, codes "RGBA")
    ∷ (13, codes "BGRA")
    ∷ (14, codes "RGBx")
    ∷ (15, codes "BGRx")
    ∷ []

abbrev pub ts_source_code : Table
ts_source_code =
    (0, codes "ptp_chunk")
    ∷ (1, codes "camera")
    ∷ (2, codes "system")
    ∷ (3, codes "sof")
    ∷ (4, codes "rtp_ntp")
    ∷ []

-- `struct` raises on a width or a height of more than 16 bits.
unfoldable pub pack_header : ℕ → ℕ → ℕ → ℕ → List ℕ → List ℕ → Option (List ℕ)
pack_header timestamp_ns frame_id width height gst_format ts_source =
    elim (code_of gst_format pixfmt_code) [
      | none ↦ none
      | some code ↦
          if ltb width (2 ^ 16) && ltb height (2 ^ 16)
          then some (
              writer_magic
              ++ to_bytes 2 1
              ++ to_bytes 2 36
              ++ to_bytes 8 (timestamp_ns % 2 ^ 64)
              ++ to_bytes 8 (frame_id % 2 ^ 64)
              ++ to_bytes 2 width
              ++ to_bytes 2 height
              ++ to_bytes 4 code
              ++ to_bytes 1 (or_default (code_of ts_source ts_source_code) 1)
              ++ to_bytes 1 0
              ++ to_bytes 2 0)
          else none
    ]

unfoldable pub frame_bytes : List ℕ → ℕ → ℕ → ℕ
frame_bytes fmt width height =
    let px = width * height in
    if one_of fmt (codes "GRAY16_LE" ∷ codes "GRAY16_BE" ∷ [])
    then px * 2
    else if one_of fmt (codes "I420" ∷ codes "NV12" ∷ codes "YV12" ∷ [])
    then px * 3 / 2
    else if one_of fmt (codes "YUY2" ∷ codes "UYVY" ∷ [])
    then px * 2
    else if one_of fmt (codes "NV24" ∷ codes "RGB" ∷ codes "BGR" ∷ [])
    then px * 3
    else if one_of fmt (codes "RGBA" ∷ codes "BGRA" ∷ codes "RGBx" ∷ codes "BGRx" ∷ [])
    then px * 4
    else px

-- BAYER_PATTERN
unfoldable pub bayer_pattern : List ℕ → Option (List ℕ)
bayer_pattern p =
    if text_eq p (codes "RG")
    then some (codes "rggb")
    else if text_eq p (codes "GR")
    then some (codes "grbg")
    else if text_eq p (codes "GB")
    then some (codes "gbrg")
    else if text_eq p (codes "BG")
    then some (codes "bggr")
    else none

-- The names that PIXFMT_CODE holds.
unfoldable pub names : Table → List (List ℕ)
names [] = []
names ((c, n) ∷ rest) = n ∷ names rest

pub record Pinned : Type 0 where
  pub width : ℕ
  pub height : ℕ
  pub format : List ℕ
  pub bayer : Option (List ℕ)
  pub size : ℕ

unfoldable pub pin : List ℕ → Option (List ℕ) → ℕ → ℕ → Pinned
pin format bayer width height = record {
  width = width;
  height = height;
  format = format;
  bayer = bayer;
  size = frame_bytes format width height;
}

-- `Bayer{RG,GR,GB,BG}…8`
abbrev pub pinned_bayer : List ℕ → Option (List ℕ)
pinned_bayer pf =
    if starts_with (codes "Bayer") pf && leb 7 (length pf) && ends_with (codes "8") pf
    then bayer_pattern (upper (take 2 (drop 5 pf)))
    else none

-- The constructor of Pinned, on the stripped name.
unfoldable pub pinned : List ℕ → ℕ → ℕ → Option Pinned
pinned pf width height =
    if one_of pf (names pixfmt_code)
    then some (pin pf none width height)
    else elim (pinned_bayer pf) [
      | some pattern ↦ some (pin (codes "GRAY8") (some pattern) width height)
      | none ↦
          if starts_with (codes "Mono") pf
          then some (
              pin
                (if contains (codes "16") pf || contains (codes "12") pf || contains (codes "10") pf
                  then codes "GRAY16_LE"
                  else codes "GRAY8")
                none width height)
          else none
    ]

-- Rows `r`, `r + 1` and so on of a message.
unfoldable pub packed_rows : ℕ → ℕ → ℕ → ℕ → List ℕ → List ℕ
packed_rows r zero step row_bytes d = []
packed_rows r (suc n) step row_bytes d =
    take row_bytes (drop (r * step) d) ++ packed_rows (r + 1) n step row_bytes d

unfoldable pub unpad_rows : List ℕ → ℕ → ℕ → ℕ → List ℕ
unpad_rows d step row_bytes height =
    if leb step row_bytes || row_bytes == 0 then d else packed_rows 0 height step row_bytes d
