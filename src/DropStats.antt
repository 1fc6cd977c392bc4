-- ===== src/DropStats.antt =====
-- core-driver/cam_driver/dropstats.py: the drop counters of a source. The counters are naturals;
-- `delta` subtracts as integers, as the source does.
pub mod Delta
pub mod Gaps
mod Tests
use camera_service.Common.{ℕ, suc, ◌+◌, ◌-◌, Option, none, some, List, [], ◌∷◌, ltb, if◌then◌else◌}
use camera_service.Common.Int.{ℤ, sub_ℕ}

pub record DropStats : Type 0 where
  pub frames : ℕ
  pub source_gaps : ℕ
  pub frames_missing : ℕ
  pub enqueue_failures : ℕ
  pub publish_drops : ℕ
  pub pts_rebases : ℕ
  pub last_fid : Option ℕ

abbrev pub new : DropStats
new = record {
  frames = 0;
  source_gaps = 0;
  frames_missing = 0;
  enqueue_failures = 0;
  publish_drops = 0;
  pts_rebases = 0;
  last_fid = none;
}

-- `gap` and the two counters of a discontinuity, from the last id (None: first frame or resync).
count_gap : Option ℕ → ℕ → DropStats → ℕ × DropStats
count_gap none frame_id s = (0, s)
count_gap (some last) frame_id s =
    if ltb (last + 1) frame_id
    then (
      frame_id - last - 1,
      record s {
        source_gaps = s.source_gaps + 1;
        frames_missing = s.frames_missing + (frame_id - last - 1);
      },
    )
    else (0, s)

unfoldable pub observe_frame : ℕ → DropStats → ℕ × DropStats
unfolding count_gap
observe_frame frame_id s =
    let (gap, s') = count_gap s.last_fid frame_id (record s { frames = s.frames + 1 }) in
    (gap, record s' { last_fid = some frame_id })

unfoldable pub resync : DropStats → DropStats
resync s = record s { last_fid = none }

unfoldable pub note_enqueue_failure : DropStats → DropStats
note_enqueue_failure s = record s { enqueue_failures = s.enqueue_failures + 1 }

unfoldable pub note_publish_drop : DropStats → DropStats
note_publish_drop s = record s { publish_drops = s.publish_drops + 1 }

unfoldable pub note_pts_rebase : DropStats → DropStats
note_pts_rebase s = record s { pts_rebases = s.pts_rebases + 1 }

-- The dict of `summary()`.
pub record Summary : Type 0 where
  pub frames : ℕ
  pub source_gaps : ℕ
  pub frames_missing : ℕ
  pub enqueue_failures : ℕ
  pub publish_drops : ℕ
  pub pts_rebases : ℕ

unfoldable pub summary : DropStats → Summary
summary s = record {
  frames = s.frames;
  source_gaps = s.source_gaps;
  frames_missing = s.frames_missing;
  enqueue_failures = s.enqueue_failures;
  publish_drops = s.publish_drops;
  pts_rebases = s.pts_rebases;
}

-- The dict of `delta()`: differences, which could be negative.
pub record Change : Type 0 where
  pub frames : ℤ
  pub source_gaps : ℤ
  pub frames_missing : ℤ
  pub enqueue_failures : ℤ
  pub publish_drops : ℤ
  pub pts_rebases : ℤ

abbrev no_counts : Summary
no_counts = record {
  frames = 0;
  source_gaps = 0;
  frames_missing = 0;
  enqueue_failures = 0;
  publish_drops = 0;
  pts_rebases = 0;
}

-- `start.get(k, 0)`: a missing snapshot is the empty dict.
start_counts : Option Summary → Summary
start_counts none = no_counts
start_counts (some start) = start

unfoldable pub delta : Summary → Option Summary → Change
unfolding start_counts
delta now start =
    let from = start_counts start in
    record {
      frames = sub_ℕ now.frames from.frames;
      source_gaps = sub_ℕ now.source_gaps from.source_gaps;
      frames_missing = sub_ℕ now.frames_missing from.frames_missing;
      enqueue_failures = sub_ℕ now.enqueue_failures from.enqueue_failures;
      publish_drops = sub_ℕ now.publish_drops from.publish_drops;
      pts_rebases = sub_ℕ now.pts_rebases from.pts_rebases;
    }

-- What the pipeline does to the counters, one call at a time.
pub data Call : Type 0 where
  observe : ℕ → Call
  resynced enqueue_failure publish_drop pts_rebase : Call

unfoldable pub call : DropStats → Call → DropStats
unfolding observe_frame resync note_enqueue_failure note_publish_drop note_pts_rebase
call s (observe frame_id) = (observe_frame frame_id s).1
call s resynced = resync s
call s enqueue_failure = note_enqueue_failure s
call s publish_drop = note_publish_drop s
call s pts_rebase = note_pts_rebase s

unfoldable pub calls : DropStats → List Call → DropStats
calls s [] = s
calls s (c ∷ cs) = calls (call s c) cs
