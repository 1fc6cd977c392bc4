-- ===== src/Uvc/Tests.antt =====
-- Frames of a small camera, whole and with faults.
use camera_service.Common.{ℕ, ◌≡◌, refl, true, false, some, List, [], ◌∷◌, All}
use camera_service.Usbmon.{Packet, lost, payload}
use camera_service.Uvc.{
  parse_uvc_header, Config, reset, feed, feed_data, feed_packet, feed_packets, accumulate, append,
  begin, finalize, accepts, delivered, poison, count_cut,
}
use camera_service.Uvc.Camera.{Sent, stream, content}
use camera_service.Uvc.RoundTrip.{frame_of, Closed, feed_packets-stream}
use camera_service.Uvc.Blocks.{Intact}
use camera_service.Uvc.Whole.{feed_packets-Intact}

-- Raw frames of four bytes.
abbrev raw : Config
raw = record { expected_size = some 4; mjpeg = false; max_payload = 0; strict = false }

abbrev two : List Sent
two =
    record { first = 1 ∷ 2 ∷ []; ts_ns = 10; more = (3 ∷ 4 ∷ [], 12) ∷ []; eof = false }
    ∷ record { first = 5 ∷ 6 ∷ 7 ∷ 8 ∷ []; ts_ns = 20; more = []; eof = true }
    ∷ []

feed_packets-stream_example :
    (feed_packets raw (stream (0 ∷ []) 0 two) reset).0
    ≡ record { ts_ns = 10; bytes = 1 ∷ 2 ∷ 3 ∷ 4 ∷ [] }
      ∷ record { ts_ns = 20; bytes = 5 ∷ 6 ∷ 7 ∷ 8 ∷ [] }
      ∷ []
unfolding frame_of content delivered accepts Closed
feed_packets-stream_example = feed_packets-stream raw (0 ∷ []) two (λ e. cc) (refl, (refl, tt)) refl

-- A packet is lost in the midst of the first frame.
abbrev cut : List (Packet × ℕ)
cut =
    (payload (2 ∷ 0 ∷ 1 ∷ 2 ∷ []), 10)
    ∷ (lost, 11)
    ∷ (payload (2 ∷ 2 ∷ 3 ∷ 4 ∷ []), 12)
    ∷ (payload (2 ∷ 3 ∷ 5 ∷ 6 ∷ 7 ∷ 8 ∷ []), 20)
    ∷ []

feed_packets-Intact_example : All (Intact raw cut) (feed_packets raw cut reset).0
feed_packets-Intact_example = feed_packets-Intact raw cut

only_second :
    (feed_packets raw cut reset).0 ≡ record { ts_ns = 20; bytes = 5 ∷ 6 ∷ 7 ∷ 8 ∷ [] } ∷ []
unfolding feed_packets feed_packet feed feed_data parse_uvc_header accumulate append begin finalize
    accepts delivered poison count_cut reset
only_second = refl

-- The first frame is complete without an EOF, and the second starts with ERR: the first is dropped.
first_dropped :
    (feed_packets raw
      ((payload (2 ∷ 0 ∷ 1 ∷ 2 ∷ 3 ∷ 4 ∷ []), 10) ∷ (payload (2 ∷ 65 ∷ []), 20) ∷ [])
      reset).0
    ≡ []
unfolding feed_packets feed_packet feed feed_data parse_uvc_header accumulate append begin finalize
    accepts delivered reset
first_dropped = refl
