-- ===== src/Formats.antt =====
-- Pixel formats and the choice of an encoder: parse_pixel_format, bytes_per_frame, encoded_info,
-- select_decoder and select_encoder of core-driver/cam_driver/formats.py. A text is its code points,
-- ASCII; the warnings are left out.
pub mod Faithful
mod Tests
use camera_service.Common.{
  ℕ, zero, suc, ◌+◌, ◌-◌, ◌*◌, ◌/◌, Bool, true, false, not, ◌&&◌, ◌||◌, Option, none, some, List,
  [], ◌∷◌, ◌++◌, length, take, drop, ltb, leb, if◌then◌else◌, map,
}
use camera_service.Common.Text.{codes, text_eq}

-- `name in names`
unfoldable pub one_of : List ℕ → List (List ℕ) → Bool
one_of name [] = false
one_of name (n ∷ ns) = text_eq name n || one_of name ns

abbrev pub gst_mono : List (List ℕ)
gst_mono = codes "GRAY8" ∷ codes "GRAY16_LE" ∷ codes "GRAY16_BE" ∷ []

abbrev pub gst_color : List (List ℕ)
gst_color =
    codes "I420"
    ∷ codes "NV12"
    ∷ codes "NV24"
    ∷ codes "YV12"
    ∷ codes "YUY2"
    ∷ codes "UYVY"
    ∷ codes "RGB"
    ∷ codes "BGR"
    ∷ codes "RGBA"
    ∷ codes "BGRA"
    ∷ codes "RGBx"
    ∷ codes "BGRx"
    ∷ []

-- `text.startswith(prefix)`, `part in text` and `text.endswith(suffix)`
unfoldable pub starts_with : List ℕ → List ℕ → Bool
starts_with [] t = true
starts_with (p ∷ ps) [] = false
starts_with (p ∷ ps) (c ∷ cs) = text_eq (p ∷ []) (c ∷ []) && starts_with ps cs

unfoldable pub contains : List ℕ → List ℕ → Bool
contains part [] = starts_with part []
contains part (c ∷ cs) = starts_with part (c ∷ cs) || contains part cs

unfoldable pub ends_with : List ℕ → List ℕ → Bool
ends_with suffix t =
    leb (length suffix) (length t) && text_eq (drop (length t - length suffix) t) suffix

unfoldable pub upper : List ℕ → List ℕ
upper [] = []
upper (c ∷ cs) = (if leb 97 c && leb c 122 then c - 32 else c) ∷ upper cs

-- _BAYER_MAP
unfoldable pub bayer_map : List ℕ → Option (List ℕ)
bayer_map p =
    if text_eq p (codes "RG")
    then some (codes "rggb")
    else if text_eq p (codes "GR")
    then some (codes "grbg")
    else if text_eq p (codes "GB")
    then some (codes "gbrg")
    else if text_eq p (codes "BG")
    then some (codes "bggr")
    else none

pub record PixelFormat : Type 0 where
  pub gst_format : List ℕ
  pub bits : ℕ
  pub bayer : Option (List ℕ)
  pub packed : Bool
  pub is_color : Bool

-- `pixel_format or "Mono8"`
abbrev pub or_mono8 : Option (List ℕ) → List ℕ
or_mono8 none = codes "Mono8"
or_mono8 (some []) = codes "Mono8"
or_mono8 (some (c ∷ cs)) = c ∷ cs

-- The Aravis names: Mono* and Bayer*.
unfoldable pub parse_aravis : List ℕ → PixelFormat
parse_aravis pf =
    let bits : ℕ =
      if contains (codes "16") pf || contains (codes "12") pf || contains (codes "10") pf
      then 16
      else 8 in
    record {
      gst_format = if ltb 8 bits then codes "GRAY16_LE" else codes "GRAY8";
      bits = bits;
      bayer =
          if starts_with (codes "Bayer") pf && leb 7 (length pf)
          then bayer_map (upper (take 2 (drop 5 pf)))
          else none;
      packed = ends_with (codes "p") pf || contains (codes "Packed") pf;
      is_color = false;
    }

unfoldable pub parse_pixel_format : Option (List ℕ) → PixelFormat
parse_pixel_format pixel_format =
    let pf = or_mono8 pixel_format in
    if one_of pf gst_mono || one_of pf gst_color
    then record {
      gst_format = pf;
      bits = if contains (codes "16") pf then 16 else 8;
      bayer = none;
      packed = false;
      is_color = one_of pf gst_color;
    }
    else parse_aravis pf

unfoldable pub bytes_per_frame : List ℕ → ℕ → ℕ → ℕ
bytes_per_frame fmt width height =
    let px = width * height in
    if one_of fmt (codes "GRAY16_LE" ∷ codes "GRAY16_BE" ∷ [])
    then px * 2
    else if one_of fmt (codes "I420" ∷ codes "NV12" ∷ codes "YV12" ∷ [])
    then px * 3 / 2
    else if one_of fmt (codes "YUY2" ∷ codes "UYVY" ∷ [])
    then px * 2
    else if text_eq fmt (codes "NV24")
    then px * 3
    else if one_of fmt (codes "RGB" ∷ codes "BGR" ∷ [])
    then px * 3
    else if one_of fmt (codes "RGBA" ∷ codes "BGRA" ∷ codes "RGBx" ∷ codes "BGRx" ∷ [])
    then px * 4
    else px

abbrev pub valid_encoders : List (List ℕ)
valid_encoders =
    codes "auto"
    ∷ codes "hw-hevc-lossless"
    ∷ codes "ffv1"
    ∷ codes "x265-lossless"
    ∷ codes "stream-copy"
    ∷ codes "x264"
    ∷ []

-- `auto`, resolved.
unfoldable pub auto_encoder : ℕ → Bool → Bool → List ℕ
auto_encoder bits_per_pixel is_color encoded =
    if encoded
    then codes "stream-copy"
    else if is_color
    then codes "ffv1"
    else if leb bits_per_pixel 8
    then codes "hw-hevc-lossless"
    else codes "ffv1"

unfoldable pub select_encoder : List ℕ → ℕ → Bool → Bool → List ℕ
select_encoder encoder bits_per_pixel is_color encoded =
    if one_of encoder valid_encoders && not (text_eq encoder (codes "auto"))
    then encoder
    else auto_encoder bits_per_pixel is_color encoded

-- (src_caps, parser, decoder) of a codec; `upper` is applied first.
pub record EncodedInfo : Type 0 where
  pub src_caps : List ℕ
  pub parser : List ℕ
  pub decoder : List ℕ

unfoldable pub encoded_info : Option (List ℕ) → Option EncodedInfo
encoded_info none = none
encoded_info (some fmt) =
    let f = upper fmt in
    if one_of f (codes "MJPEG" ∷ codes "JPEG" ∷ [])
    then some (record {
      src_caps = codes "image/jpeg";
      parser = codes "jpegparse";
      decoder = codes "jpegdec";
    })
    else if text_eq f (codes "H264")
    then some (record {
      src_caps = codes "video/x-h264";
      parser = codes "h264parse";
      decoder = codes "avdec_h264";
    })
    else if text_eq f (codes "H265")
    then some (record {
      src_caps = codes "video/x-h265";
      parser = codes "h265parse";
      decoder = codes "avdec_h265";
    })
    else none

-- The decoder and the converter of the consumer branch.
unfoldable pub select_decoder : List ℕ → Bool → List ℕ → List ℕ × List ℕ
select_decoder sw_decoder hw_available mode =
    if not (text_eq mode (codes "software"))
      && hw_available
      && one_of sw_decoder (codes "avdec_h264" ∷ codes "avdec_h265" ∷ [])
    then (codes "nvv4l2decoder", codes "nvvidconv")
    else if starts_with (codes "avdec_") sw_decoder
    then (
      sw_decoder ++ codes " output-corrupt=false discard-corrupted-frames=true",
      codes "videoconvert",
    )
    else (sw_decoder, codes "videoconvert")
