-- ===== src/Timeline/Advance.antt =====
-- One frame of the recording branch against the frame before it.
use camera_service.Common.{◌<◌, max, ◌≡◌, refl, Option, none, some, List, [], ◌∷◌, ◌++◌, ap, arith}
use camera_service.Common.Int.{
  ℤ, pos, ◌+ℤ◌, ◌-ℤ◌, ◌≤ℤ◌, ◌<ℤ◌, at_least_zero, +ℤ_parts, -ℤ_parts, at_least_zero_of_le,
  at_least_zero_nonneg,
}
use camera_service.Timestamps.{FrameStamp}
use camera_service.Timeline.{Timeline, MemoEntry, max_pts_jump_ns, base_or, absorb, own_pts, evict}

-- The PTS that the time base gives a stamp before any check.
abbrev pub raw_pts : FrameStamp → Timeline → ℤ
raw_pts s t = pos s.timestamp_ns -ℤ pos (base_or t.base_ts s.timestamp_ns) +ℤ t.skew

pub absorb_bounds :
    (o : Option ℤ) (last pts : ℤ) (t : Timeline)
    → o ≡ some last
    → 0 < t.frame_interval_ns
    → let r = absorb o pts t in
      (last <ℤ r.0) × (r.0 ≤ℤ last +ℤ pos (max max_pts_jump_ns t.frame_interval_ns))
unfolding absorb
absorb_bounds none last pts t e h = cc
absorb_bounds (some l) last pts t e h = ground (
  arith,
  -ℤ_parts pts l,
  +ℤ_parts l (pos t.frame_interval_ns),
  +ℤ_parts l (pos (max max_pts_jump_ns t.frame_interval_ns)),
)

-- On a memo miss the recording's PTS rises from one frame to the next, by at most a minute or one
-- frame interval, whatever the stamp is.
pub own_pts_advances :
    (s : FrameStamp) (t : Timeline) (last : ℤ)
    → t.last_pts ≡ some last
    → pos 0 ≤ℤ last
    → 0 < t.frame_interval_ns
    → (last <ℤ (own_pts s t).0)
      × ((own_pts s t).0 ≤ℤ last +ℤ pos (max max_pts_jump_ns t.frame_interval_ns))
unfolding own_pts
own_pts_advances s t last e h k =
    let t' : Timeline = record t { base_ts = some (base_or t.base_ts s.timestamp_ns) } in
    let r : ℤ × Timeline = absorb t.last_pts (raw_pts s t) t' in
    let b = absorb_bounds t.last_pts last (raw_pts s t) t' e k in
    rw (at_least_zero_of_le r.0 (omega (arith, b))) b

-- Before the first frame there is no base and no correction; after it no PTS is negative.
pub record IsReady (t : Timeline) : Type 0 where
  pub no_base : t.last_pts ≡ none → t.base_ts ≡ none
  pub no_skew : t.last_pts ≡ none → t.skew ≡ pos 0
  pub last_nonneg : (l : ℤ) → t.last_pts ≡ some l → pos 0 ≤ℤ l
  pub has_interval : 0 < t.frame_interval_ns

absorb_keeps :
    (o : Option ℤ) (pts : ℤ) (t : Timeline)
    → let t' = (absorb o pts t).1 in
      (t'.memo ≡ t.memo) × (t'.frame_interval_ns ≡ t.frame_interval_ns) × (t'.base_ts ≡ t.base_ts)
unfolding absorb
absorb_keeps none pts t = (refl, refl, refl)
absorb_keeps (some l) pts t = ground arith

-- The entry that a frame leaves in the memo.
abbrev pub entry_of : FrameStamp → ℤ → MemoEntry
entry_of s pts = record { frame_id = s.frame_id; timestamp_ns = s.timestamp_ns; pts = pts }

pub memo-own_pts :
    (s : FrameStamp) (t : Timeline)
    → (own_pts s t).1.memo ≡ evict (t.memo ++ entry_of s (own_pts s t).0 ∷ [])
unfolding own_pts
memo-own_pts s t =
    let t' : Timeline = record t { base_ts = some (base_or t.base_ts s.timestamp_ns) } in
    let r : ℤ × Timeline = absorb t.last_pts (raw_pts s t) t' in
    ap (λ (m : List MemoEntry). evict (m ++ entry_of s (at_least_zero r.0) ∷ []))
      (absorb_keeps t.last_pts (raw_pts s t) t').0

pub own_pts_fields :
    (s : FrameStamp) (t : Timeline)
    → let (pts, t') = own_pts s t in
      (t'.last_pts ≡ some pts)
      × (t'.frame_interval_ns ≡ t.frame_interval_ns)
      × (t'.base_ts ≡ some (base_or t.base_ts s.timestamp_ns))
      × (pos 0 ≤ℤ pts)
unfolding own_pts
own_pts_fields s t =
    let t' : Timeline = record t { base_ts = some (base_or t.base_ts s.timestamp_ns) } in
    let r : ℤ × Timeline = absorb t.last_pts (raw_pts s t) t' in
    let (m, i, b) = absorb_keeps t.last_pts (raw_pts s t) t' in
    (refl, i, b, at_least_zero_nonneg r.0)

pub own_pts-IsReady : (s : FrameStamp) {t : Timeline} → IsReady t → IsReady (own_pts s t).1
own_pts-IsReady s {t} h =
    let (l, i, b, z) = own_pts_fields s t in
    record {
      no_base = λ e. cc;
      no_skew = λ e. cc;
      last_nonneg = λ k e. ground arith;
      has_interval = omega (arith, h.has_interval);
    }
