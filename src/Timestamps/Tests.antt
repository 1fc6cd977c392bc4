-- ===== src/Timestamps/Tests.antt =====
-- The timestamp theorems at concrete inputs.
use camera_service.Common.{◌≡◌, refl, true, false, none, some}
use camera_service.Common.Text.{codes, text_eq}
use camera_service.Timestamps.{Extractor, Buffer, ptp_chunk, new, extract}

abbrev extractor : Extractor
extractor = record (new true (codes "ts") (codes "id") ptp_chunk 125000000) {
  active = some ptp_chunk;
}

-- A frame whose chunk carries a tick count of a 125 MHz clock, and no frame id.
abbrev frame : Buffer
frame = record {
  system_timestamp = 900;
  timestamp = 500;
  frame_id = 7;
  has_chunks = true;
  integer_value = λ name. elim (text_eq name (codes "ts")) [ true ↦ some 40 | false ↦ none ];
}

stamp_of_frame :
    ((extract extractor frame).timestamp_ns ≡ 320) × ((extract extractor frame).frame_id ≡ 7)
unfolding extract text_eq
stamp_of_frame = (refl, refl)
