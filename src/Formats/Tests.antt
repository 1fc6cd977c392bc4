-- ===== src/Formats/Tests.antt =====
-- Some pixel formats, and the choices for them.
use camera_service.Common.{◌≡◌, refl, true, false, some}
use camera_service.Common.Text.{codes, text_eq}
use camera_service.Formats.{
  parse_pixel_format, parse_aravis, one_of, starts_with, ends_with, contains, upper, bayer_map,
  select_decoder,
}

packed_bayer : parse_pixel_format (some (codes "BayerGR12Packed")) ≡ record {
  gst_format = codes "GRAY16_LE";
  bits = 16;
  bayer = some (codes "grbg");
  packed = true;
  is_color = false;
}
unfolding parse_pixel_format parse_aravis one_of starts_with ends_with contains upper bayer_map
    text_eq
packed_bayer = refl

software :
    select_decoder (codes "jpegdec") true (codes "auto") ≡ (codes "jpegdec", codes "videoconvert")
unfolding select_decoder one_of starts_with text_eq
software = refl
