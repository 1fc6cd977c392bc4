-- ===== src/Uvc/Scenarios.antt =====
-- A capture file of a small camera, whole and cut, and a payload in three transfers.
use camera_service.Common.{ℕ, ◌≡◌, refl, true, false, some, List, [], ◌∷◌, ◌++◌, take, drop, arith}
use camera_service.Transport.{to_bytes}
use camera_service.Pcap.Classic.{int_bytes, record_bytes, records, magic_bytes, capture_file}
use camera_service.Uvc.{Config, Frame}
use camera_service.Uvc.Capture.{Endpoint, new_walk, frames_of_file}
use camera_service.Uvc.Prefix.{frames_of_file-append}
use camera_service.Uvc.Transfers.{Transfer, transfers}
use camera_service.Uvc.Bulk.{Spans, joined, FedOnce, feed_bulk-joined}

abbrev raw : Config
raw = record { expected_size = some 4; mjpeg = false; max_payload = 0; strict = false }

abbrev camera : Endpoint
camera = record { bus = 1; dev = 5; ep = 1 }

-- A bulk completion of six bytes.
abbrev usbmon : List ℕ → List ℕ
usbmon d =
    7 ∷ 0 ∷ 0 ∷ 0 ∷ 0 ∷ 0 ∷ 0 ∷ 0 ∷ 67 ∷ 3 ∷ 129 ∷ 5 ∷ 1 ∷ 0 ∷ 45 ∷ 0 ∷ 0 ∷ 0 ∷ 0 ∷ 0 ∷ 0 ∷ 0 ∷ 0
    ∷ 0 ∷ 0 ∷ 0 ∷ 0 ∷ 0 ∷ 0 ∷ 0 ∷ 0 ∷ 0 ∷ 6 ∷ 0 ∷ 0 ∷ 0 ∷ 6 ∷ 0 ∷ 0 ∷ 0 ∷ 0 ∷ 0 ∷ 0 ∷ 0 ∷ 0 ∷ 0 ∷ 0
    ∷ 0 ∷ 0 ∷ 0 ∷ 0 ∷ 0 ∷ 0 ∷ 0 ∷ 0 ∷ 0 ∷ 0 ∷ 0 ∷ 0 ∷ 0 ∷ 0 ∷ 0 ∷ 0 ∷ 0 ∷ d

abbrev file : List ℕ
unfolding capture_file magic_bytes records record_bytes int_bytes to_bytes
file = capture_file true false 65535 220 (
    record { ts_sec = 0; ts_frac = 1; payload = usbmon (2 ∷ 2 ∷ 1 ∷ 2 ∷ 3 ∷ 4 ∷ []) }
    ∷ record { ts_sec = 0; ts_frac = 2; payload = usbmon (2 ∷ 3 ∷ 5 ∷ 6 ∷ 7 ∷ 8 ∷ []) }
    ∷ [])

-- The second record is cut.
frames_of_file-append_example :
    (more : List Frame) × (frames_of_file raw camera (take 150 file ++ drop 150 file)
      ≡ frames_of_file raw camera (take 150 file) ++ more)
unfolding capture_file magic_bytes records record_bytes int_bytes to_bytes
frames_of_file-append_example =
    frames_of_file-append raw camera (take 150 file) (drop 150 file) (omega arith)

abbrev transfer : ℕ → List ℕ → ℕ → Transfer
transfer id d ts = record { id = id; header = usbmon []; asked = 3; bytes = d; ts_ns = ts }

feed_bulk-joined_example : FedOnce raw (2 ∷ 2 ∷ 1 ∷ 2 ∷ 3 ∷ 4 ∷ 5 ∷ 6 ∷ []) 10 new_walk (
    transfers raw camera
      (transfer 1 (2 ∷ 2 ∷ 1 ∷ []) 10
        ∷ transfer 2 (2 ∷ 3 ∷ 4 ∷ []) 11
        ∷ transfer 1 (5 ∷ 6 ∷ []) 12
        ∷ [])
      new_walk)
unfolding new_walk Spans joined
feed_bulk-joined_example =
    feed_bulk-joined raw camera (transfer 1 (2 ∷ 2 ∷ 1 ∷ []) 10)
      (transfer 2 (2 ∷ 3 ∷ 4 ∷ []) 11 ∷ transfer 1 (5 ∷ 6 ∷ []) 12 ∷ []) new_walk refl refl
      ((omega arith, refl), ((omega arith, refl), (omega arith, omega arith))) (omega arith)
