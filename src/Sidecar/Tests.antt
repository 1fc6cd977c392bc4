-- ===== src/Sidecar/Tests.antt =====
-- The accounting theorem on a short run of the writer.
use camera_service.Common.{ℕ, ◌+◌, ◌≡◌, refl, true, none, List, [], ◌∷◌, length}
use camera_service.Common.Int.{pos}
use camera_service.Timestamps.{FrameStamp, system}
use camera_service.Sidecar.{new, start, Event, added, worked, stopping, event, events, row_of}
use camera_service.Sidecar.Accounting.{kept, added_rows, events_accounted}

abbrev stamp : ℕ → FrameStamp
stamp frame_id = record {
  frame_id = frame_id;
  timestamp_ns = 10;
  source = system;
  system_ns = 10;
  camera_ns = 0;
  chunk_ns = none;
}

abbrev frames : List Event
frames =
    added (stamp 1) (pos 0)
    ∷ worked true
    ∷ added (stamp 2) (pos 5)
    ∷ stopping
    ∷ worked true
    ∷ worked true
    ∷ []

two_rows_written :
    (events (start new) frames).csv ≡ row_of (stamp 1) (pos 0) ∷ row_of (stamp 2) (pos 5) ∷ []
unfolding events event start
two_rows_written = refl

events_accounted_example :
    let s = events (start new) frames in
    (length (kept s) + s.dropped ≡ length (added_rows frames))
    × (s.dropped ≡ 0 → kept s ≡ added_rows frames)
unfolding events event start
events_accounted_example = events_accounted frames refl
