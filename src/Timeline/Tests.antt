-- ===== src/Timeline/Tests.antt =====
-- Tests of the time base on short streams, and the theorems at inputs that meet their hypotheses.
use camera_service.Common.{ℕ, ◌≡◌, refl, none, List, [], ◌∷◌, max, arith}
use camera_service.Common.Int.{pos, ◌+ℤ◌, ◌-ℤ◌, at_least_zero, ◌≤ℤ◌, ◌<ℤ◌}
use camera_service.Timestamps.{FrameStamp, system}
use camera_service.Timeline.{
  Timeline, start, max_pts_jump_ns, memo_get, evict, absorb, own_pts, pts_for, pts_run,
}
use camera_service.Timeline.Advance.{own_pts_advances}
use camera_service.Timeline.Sequence.{RisesFromZero, pts_run-RisesFromZero}

abbrev stamp : ℕ → ℕ → FrameStamp
stamp frame_id ts = record {
  frame_id = frame_id;
  timestamp_ns = ts;
  source = system;
  system_ns = ts;
  camera_ns = 0;
  chunk_ns = none;
}

-- A steady stream, a step back, a jump of more than a minute, and a steady frame after them.
abbrev stream : List FrameStamp
stream =
    stamp 1 1000 ∷ stamp 2 1040 ∷ stamp 3 500 ∷ stamp 4 100000000000 ∷ stamp 5 100000000030 ∷ []

pts_of_stream : (pts_run stream (start 40)).0 ≡ pos 0 ∷ pos 40 ∷ pos 80 ∷ pos 120 ∷ pos 150 ∷ []
unfolding pts_run pts_for own_pts absorb memo_get evict at_least_zero ◌+ℤ◌ ◌-ℤ◌
pts_of_stream = refl

pts_run-RisesFromZero_example : RisesFromZero (max max_pts_jump_ns 40) (pts_run stream (start 40)).0
pts_run-RisesFromZero_example = pts_run-RisesFromZero 40 stream (omega arith) (ground arith)

-- The state after the first frame.
abbrev running : Timeline
running = (own_pts (stamp 1 1000) (start 40)).1

own_pts_advances_example :
    (pos 0 <ℤ (own_pts (stamp 2 500) running).0)
    × ((own_pts (stamp 2 500) running).0 ≤ℤ pos 0 +ℤ pos (max max_pts_jump_ns 40))
unfolding own_pts absorb at_least_zero ◌+ℤ◌ ◌-ℤ◌
own_pts_advances_example =
    own_pts_advances (stamp 2 500) running (pos 0) refl (omega arith) (omega arith)
