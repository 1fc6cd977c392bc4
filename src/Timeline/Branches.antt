-- ===== src/Timeline/Branches.antt =====
-- The two branches of a stream-copy source: the recording branch writes the time base, and the
-- decode branch reads it.
use camera_service.Common.{
  ◌≡◌, refl, ◌∙◌, ◌⊎◌, inl, inr, Bool, true, false, Option, none, some, [], arith, Option-cases,
}
use camera_service.Common.Int.{ℤ, pos, ◌+ℤ◌, ◌-ℤ◌, ◌≤ℤ◌, int_laws, at_least_zero_of_le}
use camera_service.DropStats.{note_pts_rebase}
use camera_service.Timestamps.{FrameStamp}
use camera_service.Timeline.{Timeline, MemoEntry, base_or, memo_get, absorb, own_pts, pts_for}
use camera_service.Timeline.Advance.{IsReady, entry_of, raw_pts, memo-own_pts, absorb_bounds}
use camera_service.Timeline.Sequence.{pts_for_miss}
use camera_service.Timeline.Memo.{memo_get-evict_recent}

pts_for_hit :
    (own : Bool) (s : FrameStamp) (t : Timeline) (p : ℤ)
    → memo_get s t.memo ≡ some p
    → pts_for own s t ≡ (p, t)
unfolding pts_for
pts_for_hit own s t p h = ground arith

-- Once the recording branch has handled a frame, the decode branch gets the same PTS for it and
-- leaves the time base as the recording branch left it.
decode_agrees :
    (s : FrameStamp) (t : Timeline) → pts_for false s (pts_for true s t).1 ≡ pts_for true s t
decode_agrees s t = elim (Option-cases (memo_get s t.memo)) [
  | inr (p, hit) ↦ rw (pts_for_hit true s t p hit) (pts_for_hit false s t p hit)
  | inl miss ↦
      let e : MemoEntry = entry_of s (own_pts s t).0 in
      let again : memo_get s (own_pts s t).1.memo ≡ some e.pts =
        rw (memo-own_pts s t)
          (memo_get-evict_recent s t.memo e [] miss (ground arith) (omega arith)) in
      rw (pts_for_miss s t miss) (pts_for_hit false s (own_pts s t).1 e.pts again)
]

-- The decode branch never moves the time base, whether it comes before or after the recording's.
pub decode_reads_only : (s : FrameStamp) (t : Timeline) → (pts_for false s t).1 ≡ t
unfolding pts_for
decode_reads_only s t = ground arith

re_anchor : (d k target : ℤ) → target ≡ d +ℤ (k +ℤ (target -ℤ (d +ℤ k)))
re_anchor d k target = omega int_laws

absorb_exact :
    (o : Option ℤ) (d : ℤ) (t : Timeline) → let r = absorb o (d +ℤ t.skew) t in r.0 ≡ d +ℤ r.1.skew
unfolding absorb
absorb_exact none d t = refl
absorb_exact (some l) d t = ground (arith, re_anchor d t.skew (l +ℤ pos t.frame_interval_ns))

-- What `absorb` does to the correction: nothing, or one counted rebase.
absorb_counts :
    (o : Option ℤ) (pts : ℤ) (t : Timeline)
    → let t' = (absorb o pts t).1 in
      ((t'.skew ≡ t.skew) × (t'.drops ≡ t.drops)) ⊎ (t'.drops ≡ note_pts_rebase t.drops)
unfolding absorb
absorb_counts none pts t = inl (refl, refl)
absorb_counts (some l) pts t = ground arith

no_clamp :
    (s : FrameStamp) (t u : Timeline)
    → IsReady t
    → u.frame_interval_ns ≡ t.frame_interval_ns
    → pos 0 ≤ℤ (absorb t.last_pts (raw_pts s t) u).0
unfolding absorb
no_clamp s t u h i = elim (Option-cases t.last_pts) [
  | inl e ↦ rw e (rw (h.no_skew e, h.no_base e) (omega int_laws))
  | inr (l, e) ↦
      let b = absorb_bounds t.last_pts l (raw_pts s t) u e (omega (arith, h.has_interval)) in
      omega (arith, b, h.last_nonneg l e)
]

-- On a memo miss of the recording branch, the PTS and the stamp determine one another through the
-- base and the correction in force afterwards, and a correction that changed was counted.
own_pts_accounted :
    (s : FrameStamp) (t : Timeline)
    → IsReady t
    → memo_get s t.memo ≡ none
    → let (pts, t') = pts_for true s t in
      (pts ≡ pos s.timestamp_ns -ℤ pos (base_or t.base_ts s.timestamp_ns) +ℤ t'.skew)
      × (((t'.skew ≡ t.skew) × (t'.drops ≡ t.drops)) ⊎ (t'.drops ≡ note_pts_rebase t.drops))
unfolding own_pts
own_pts_accounted s t h miss =
    let base = base_or t.base_ts s.timestamp_ns in
    let u : Timeline = record t { base_ts = some base } in
    let d : ℤ = pos s.timestamp_ns -ℤ pos base in
    rw (pts_for_miss s t miss) (
      at_least_zero_of_le (absorb t.last_pts (raw_pts s t) u).0 (no_clamp s t u h refl)
          ∙ absorb_exact t.last_pts d u,
      absorb_counts t.last_pts (raw_pts s t) u,
    )
