-- ===== src/DropStats/Tests.antt =====
-- Tests of the drop counters, and the theorems at concrete inputs.
use camera_service.Common.{◌≡◌, refl, none, some, List, [], ◌∷◌}
use camera_service.DropStats.{
  DropStats, new, Call, observe, resynced, enqueue_failure, publish_drop, pts_rebase, call, calls,
  summary, delta,
}
use camera_service.Common.Int.{pos}
use camera_service.DropStats.Delta.{holes, delta-calls}

abbrev session : List Call
session = observe 12 ∷ observe 15 ∷ enqueue_failure ∷ resynced ∷ observe 90 ∷ pts_rebase ∷ []

abbrev earlier : DropStats
earlier = calls new (observe 3 ∷ observe 10 ∷ publish_drop ∷ [])

session_missing : (calls earlier session).frames_missing ≡ 9
unfolding calls call
session_missing = refl

delta-calls_example :
    (delta (summary (calls earlier session)) (some (summary earlier)) ≡ record {
      frames = pos 3;
      source_gaps = pos 2;
      frames_missing = pos 3;
      enqueue_failures = pos 1;
      publish_drops = pos 0;
      pts_rebases = pos 1;
    })
    × (delta (summary (calls new session)) none ≡ record {
      frames = pos 3;
      source_gaps = pos 1;
      frames_missing = pos 2;
      enqueue_failures = pos 1;
      publish_drops = pos 0;
      pts_rebases = pos 1;
    })
unfolding holes calls call
delta-calls_example = delta-calls earlier session
