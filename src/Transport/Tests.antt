-- ===== src/Transport/Tests.antt =====
-- A header, and the header that is unpacked behind it.
use camera_service.Common.{◌+◌, ◌^◌, ◌≡◌, refl, some, none, [], ◌∷◌, ◌++◌}
use camera_service.Common.Text.{codes, text_eq}
use camera_service.Transport.{FrameHeader, pack, packed, to_bytes, unpack_header, code_of}
use camera_service.Transport.RoundTrip.{carried, unpack_header-pack}

abbrev header : FrameHeader
header = record {
  timestamp_ns = 1700000000000000001;
  frame_id = 2 ^ 64 + 7;
  width = 640;
  height = 512;
  pixfmt = codes "GRAY16_LE";
  ts_source = codes "sof";
  flags = 3;
  version = 1;
}

unpack_header-pack_example : unpack_header (packed 2 header ++ 9 ∷ []) ≡ some (carried header)
unfolding pack code_of text_eq packed to_bytes
unpack_header-pack_example = unpack_header-pack header (packed 2 header) (9 ∷ []) refl refl

-- A frame whose pixel format has no code is not packed.
no_code : pack (record header { pixfmt = codes "BAYER" }) ≡ none
unfolding pack code_of text_eq packed to_bytes
no_code = refl
