-- ===== src/Keyframe/Tests.antt =====
-- Tests of the keyframe gate, and the theorems at concrete inputs.
use camera_service.Common.{ℕ, ◌≤◌, ◌≡◌, ◌↔◌, refl, true, none, some, List, [], ◌∷◌, arith}
use camera_service.Common.Text.{codes, text_eq}
use camera_service.Keyframe.{
  is_h264_idr, is_prefixed, is_sync_point, any_header, nal_headers, annexb_nal_headers,
  after_start_code,
}
use camera_service.Keyframe.AnnexB.{IsNalHeader}
use camera_service.Keyframe.Caps.{parse_caps_kind, parse_caps_kind_range}
use camera_service.Keyframe.Prefixed.{Nal, access_unit}
use camera_service.Keyframe.SyncPoint.{
  h264, h265, media_of, starts_gop, sync_point-annexb, sync_point-prefixed,
}

avc_caps :
    parse_caps_kind
      (some (codes "video/x-h264, stream-format=(string)avc, codec_data=(buffer)01640028fd"))
    ≡ record {
      media = some (codes "video/x-h264");
      stream_format = some (codes "avc");
      nal_length_size = 2;
    }
unfolding parse_caps_kind text_eq
avc_caps = refl

parse_caps_kind_range_example :
    (1 ≤ (parse_caps_kind (some (codes "image/jpeg"))).nal_length_size)
    × ((parse_caps_kind (some (codes "image/jpeg"))).nal_length_size ≤ 4)
parse_caps_kind_range_example = parse_caps_kind_range (some (codes "image/jpeg"))

-- An SPS and an IDR slice, and the same two with four-byte sizes.
abbrev idr_frame : List ℕ
idr_frame = 0 ∷ 0 ∷ 0 ∷ 1 ∷ 0x67 ∷ 9 ∷ 0 ∷ 0 ∷ 1 ∷ 0x65 ∷ 8 ∷ []

abbrev nals : List Nal
nals = record { hdr = 0x67; body = 9 ∷ [] } ∷ record { hdr = 0x65; body = 8 ∷ 7 ∷ [] } ∷ []

byte_stream_idr : is_sync_point (some (codes "video/x-h264")) idr_frame none 4 ≡ true
unfolding is_sync_point text_eq any_header nal_headers annexb_nal_headers after_start_code
    is_h264_idr
byte_stream_idr = refl

sync_point-annexb_example :
    (is_sync_point (media_of h264) idr_frame none 4 ≡ true)
    ↔ ((hdr : ℕ) × IsNalHeader hdr idr_frame × (starts_gop h264 hdr ≡ true))
unfolding is_prefixed
sync_point-annexb_example = sync_point-annexb h264 idr_frame none 4 refl

sync_point-prefixed_example :
    is_sync_point (media_of h265) (access_unit 4 nals) (some (codes "hvc1")) 4
    ≡ any_header (starts_gop h265) (0x67 ∷ 0x65 ∷ [])
unfolding is_prefixed text_eq
sync_point-prefixed_example =
    sync_point-prefixed h265 nals (some (codes "hvc1")) 4 refl (omega arith)
