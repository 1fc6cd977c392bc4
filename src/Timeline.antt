-- ===== src/Timeline.antt =====
-- The recording's time base: `_pts_for`, `_note_pts_rebase` and the fields they use, of
-- CapturePipeline in core-driver/cam_driver/pipeline.py. Both callers hold `_base_lock` for the
-- whole call, so a call is one step of the state. Logging and its throttle are left out.
pub mod Memo
pub mod Advance
pub mod Sequence
pub mod Branches
mod Tests
use camera_service.Common.{
  ℕ, suc, ◌*◌, Bool, true, false, ◌&&◌, ◌||◌, Option, none, some, List, [], ◌∷◌, ◌++◌, length, ltb,
  ◌==◌, if◌then◌else◌,
}
use camera_service.Common.Int.{ℤ, pos, ◌+ℤ◌, ◌-ℤ◌, ltb_ℤ, leb_ℤ, at_least_zero}
use camera_service.DropStats
use camera_service.DropStats.{DropStats, note_pts_rebase}
use camera_service.Timestamps.{FrameStamp}

abbrev pub max_pts_jump_ns : ℕ
max_pts_jump_ns = 60 * 1000000000

abbrev pub pts_memo_frames : ℕ
pts_memo_frames = 256

-- One item of the OrderedDict: its key is the pair of the first two fields.
pub record MemoEntry : Type 0 where
  pub frame_id : ℕ
  pub timestamp_ns : ℕ
  pub pts : ℤ

-- `memo` is in the order of insertion, the oldest entry first.
pub record Timeline : Type 0 where
  pub base_ts : Option ℕ
  pub skew : ℤ
  pub last_pts : Option ℤ
  pub memo : List MemoEntry
  pub frame_interval_ns : ℕ
  pub drops : DropStats

-- The state of a built pipeline, whose frame interval comes from the source's rate.
abbrev pub start : ℕ → Timeline
start interval = record {
  base_ts = none;
  skew = pos 0;
  last_pts = none;
  memo = [];
  frame_interval_ns = interval;
  drops = DropStats.new;
}

abbrev pub has_key : FrameStamp → MemoEntry → Bool
has_key stamp e = e.frame_id == stamp.frame_id && e.timestamp_ns == stamp.timestamp_ns

-- `self._pts_memo.get(key)`
unfoldable pub memo_get : FrameStamp → List MemoEntry → Option ℤ
memo_get stamp [] = none
memo_get stamp (e ∷ m) = if has_key stamp e then some e.pts else memo_get stamp m

-- `while len(memo) > _PTS_MEMO_FRAMES: memo.popitem(last=False)`
unfoldable pub evict : List MemoEntry → List MemoEntry
evict [] = []
evict (e ∷ m) = let rest = evict m in if ltb pts_memo_frames (length (e ∷ m)) then rest else e ∷ m

abbrev pub base_or : Option ℕ → ℕ → ℕ
base_or none ts = ts
base_or (some base) ts = base

-- The two-sided discontinuity check against the last PTS, and the absorption into the skew.
unfoldable pub absorb : Option ℤ → ℤ → Timeline → ℤ × Timeline
unfolding note_pts_rebase
absorb none pts t = (pts, t)
absorb (some last) pts t =
    let delta = pts -ℤ last in
    let target = last +ℤ pos t.frame_interval_ns in
    if leb_ℤ delta (pos 0) || ltb_ℤ (pos max_pts_jump_ns) delta
    then (target, record t { skew = t.skew +ℤ (target -ℤ pts); drops = note_pts_rebase t.drops })
    else (pts, t)

-- What the read-only view of the decode branch computes on a memo miss.
unfoldable pub peek_pts : FrameStamp → Timeline → ℤ
peek_pts stamp t = elim t.base_ts [
  | none ↦ pos 0
  | some base ↦ at_least_zero (pos stamp.timestamp_ns -ℤ pos base +ℤ t.skew)
]

-- A memo miss of the branch that feeds the recording.
unfoldable pub own_pts : FrameStamp → Timeline → ℤ × Timeline
own_pts stamp t =
    let base = base_or t.base_ts stamp.timestamp_ns in
    let raw = pos stamp.timestamp_ns -ℤ pos base +ℤ t.skew in
    let (moved, t') = absorb t.last_pts raw (record t { base_ts = some base }) in
    let pts = at_least_zero moved in
    let entry : MemoEntry = record {
      frame_id = stamp.frame_id;
      timestamp_ns = stamp.timestamp_ns;
      pts = pts;
    } in
    (pts, record t' { last_pts = some pts; memo = evict (t'.memo ++ entry ∷ []) })

unfoldable pub pts_for : Bool → FrameStamp → Timeline → ℤ × Timeline
pts_for own stamp t = elim (memo_get stamp t.memo) [
  | some pts ↦ (pts, t)
  | none ↦ if own then own_pts stamp t else (peek_pts stamp t, t)
]

-- The reconnect loop clears the memo, and nothing else of the time base.
unfoldable pub clear_memo : Timeline → Timeline
clear_memo t = record t { memo = [] }

-- The frames of the recording branch, one after another.
unfoldable pub pts_run : List FrameStamp → Timeline → List ℤ × Timeline
pts_run [] t = ([], t)
pts_run (s ∷ ss) t =
    let (pts, t') = pts_for true s t in let (rest, t'') = pts_run ss t' in (pts ∷ rest, t'')
