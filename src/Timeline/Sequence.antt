-- ===== src/Timeline/Sequence.antt =====
-- The whole recording: the PTS of every frame, in the order in which the frames are delivered.
use camera_service.Common.{
  ℕ, ◌<◌, max, ◌≡◌, refl, ◌∙◌, subst, true, false, ◌&&◌, none, some, List, [], ◌∷◌, ◌++◌, ◌==◌, All,
  arith,
}
use camera_service.Common.Int.{ℤ, pos, ◌+ℤ◌, ◌-ℤ◌, ◌≤ℤ◌, ◌<ℤ◌, at_least_zero}
use camera_service.Timestamps.{FrameStamp}
use camera_service.Timeline.{
  Timeline, MemoEntry, max_pts_jump_ns, start, memo_get, absorb, own_pts, pts_for, pts_run,
}
use camera_service.Timeline.Advance.{
  IsReady, entry_of, own_pts_advances, memo-own_pts, own_pts_fields, own_pts-IsReady,
}
use camera_service.Timeline.Memo.{memo_get-evict-none, memo_get-append-none}

-- Two stamps are told apart by the memo's key: the frame id and the timestamp.
abbrev pub Differs : FrameStamp → FrameStamp → Type 0
Differs a b = (b.frame_id == a.frame_id && b.timestamp_ns == a.timestamp_ns) ≡ false

abbrev pub AllDiffer : List FrameStamp → Type 0
AllDiffer [] = Unit
AllDiffer (s ∷ ss) = All (λ a. Differs a s) ss × AllDiffer ss

-- The memo has none of the stamps to come.
abbrev pub NotSeen : Timeline → List FrameStamp → Type 0
NotSeen t = All (λ s. memo_get s t.memo ≡ none)

-- From `last` on, each PTS is above the one before it, by at most `step`.
abbrev pub Rises : ℕ → ℤ → List ℤ → Type 0
Rises step last [] = Unit
Rises step last (p ∷ ps) = (last <ℤ p) × (p ≤ℤ last +ℤ pos step) × Rises step p ps

-- The first PTS is 0, and the others rise from it.
abbrev pub RisesFromZero : ℕ → List ℤ → Type 0
RisesFromZero step [] = Unit
RisesFromZero step (p ∷ ps) = (p ≡ pos 0) × Rises step p ps

NotSeen-own_pts :
    (s : FrameStamp) (t : Timeline) (ss : List FrameStamp)
    → NotSeen t ss
    → All (λ a. Differs a s) ss
    → NotSeen (own_pts s t).1 ss
NotSeen-own_pts s t [] h d = tt
NotSeen-own_pts s t (a ∷ ss) h d =
    let e : MemoEntry = entry_of s (own_pts s t).0 in
    (
      rw (memo-own_pts s t)
          (memo_get-evict-none a (t.memo ++ e ∷ []) (memo_get-append-none a t.memo e h.0 d.0)),
      NotSeen-own_pts s t ss h.1 d.1,
    )

pub pts_for_miss :
    (s : FrameStamp) (t : Timeline) → memo_get s t.memo ≡ none → pts_for true s t ≡ own_pts s t
unfolding pts_for
pts_for_miss s t h = ground arith

pts_run-Rises :
    (ss : List FrameStamp) (t : Timeline) (last : ℤ) (interval : ℕ)
    → IsReady t
    → t.frame_interval_ns ≡ interval
    → t.last_pts ≡ some last
    → NotSeen t ss
    → AllDiffer ss
    → Rises (max max_pts_jump_ns interval) last (pts_run ss t).0
unfolding pts_run
pts_run-Rises [] t last interval r i e n d = tt
pts_run-Rises (s ∷ ss) t last interval r i e n d =
    let (l, keeps, b, z) = own_pts_fields s t in
    let up = own_pts_advances s t last e (r.last_nonneg last e) r.has_interval in
    let rest =
      pts_run-Rises ss (own_pts s t).1 (own_pts s t).0 interval (own_pts-IsReady s r) (keeps ∙ i) l
        (NotSeen-own_pts s t ss n.1 d.0) d.1 in
    rw (pts_for_miss s t n.0)
      (up.0, subst (λ k. (own_pts s t).0 ≤ℤ last +ℤ pos (max max_pts_jump_ns k)) i up.1, rest)

pub start-IsReady : (interval : ℕ) → 0 < interval → IsReady (start interval)
start-IsReady interval h = record {
  no_base = λ e. refl;
  no_skew = λ e. refl;
  last_nonneg = λ l e. cc;
  has_interval = h;
}

first_pts : (s : FrameStamp) (interval : ℕ) → (own_pts s (start interval)).0 ≡ pos 0
unfolding own_pts absorb at_least_zero ◌+ℤ◌ ◌-ℤ◌
first_pts s interval = ground arith

NotSeen-start : (interval : ℕ) (ss : List FrameStamp) → NotSeen (start interval) ss
unfolding memo_get
NotSeen-start interval [] = tt
NotSeen-start interval (s ∷ ss) = (refl, NotSeen-start interval ss)

-- The frames of the branch that owns the timeline, from the start of the process on, whether they are recorded
-- or not, as long as their (frame id, timestamp) pairs all differ: the first PTS is 0, and each next one is
-- above the one before it by at most a minute, or one frame interval if that is longer, whatever jumps the
-- timestamps make.
pub pts_run-RisesFromZero :
    (interval : ℕ) (ss : List FrameStamp)
    → 0 < interval
    → AllDiffer ss
    → RisesFromZero (max max_pts_jump_ns interval) (pts_run ss (start interval)).0
unfolding pts_run
pts_run-RisesFromZero interval [] h d = tt
pts_run-RisesFromZero interval (s ∷ ss) h d =
    let t : Timeline = start interval in
    let (l, keeps, b, z) = own_pts_fields s t in
    let n = NotSeen-start interval (s ∷ ss) in
    let r = own_pts-IsReady s (start-IsReady interval h) in
    rw (pts_for_miss s t n.0) (
      first_pts s interval,
      pts_run-Rises ss (own_pts s t).1 (own_pts s t).0 interval r keeps l
          (NotSeen-own_pts s t ss n.1 d.0) d.1,
    )
