-- ===== src/DropStats/Delta.antt =====
-- A session's share of the process-lifetime counters, against a count of the calls themselves
-- (`DropStats.delta`).
use camera_service.Common.{
  ℕ, zero, suc, ◌+◌, ◌-◌, ◌<◌, ◌≡◌, refl, Option, none, some, List, [], ◌∷◌, ◌++◌, ltb, arith,
  Bool-cases, inl, inr,
}
use camera_service.Common.Int.{pos, sub_ℕ}
use camera_service.DropStats.{
  DropStats, new, Call, observe, resynced, enqueue_failure, publish_drop, pts_rebase, call, calls,
  count_gap, observe_frame, resync, note_enqueue_failure, note_publish_drop, note_pts_rebase,
  summary, Change, delta,
}

-- How many calls of each kind there are.
abbrev pub frames_of : List Call → ℕ
frames_of [] = 0
frames_of (observe i ∷ cs) = suc (frames_of cs)
frames_of (resynced ∷ cs) = frames_of cs
frames_of (enqueue_failure ∷ cs) = frames_of cs
frames_of (publish_drop ∷ cs) = frames_of cs
frames_of (pts_rebase ∷ cs) = frames_of cs

abbrev pub failures_of : List Call → ℕ
failures_of [] = 0
failures_of (observe i ∷ cs) = failures_of cs
failures_of (resynced ∷ cs) = failures_of cs
failures_of (enqueue_failure ∷ cs) = suc (failures_of cs)
failures_of (publish_drop ∷ cs) = failures_of cs
failures_of (pts_rebase ∷ cs) = failures_of cs

abbrev pub publish_drops_of : List Call → ℕ
publish_drops_of [] = 0
publish_drops_of (observe i ∷ cs) = publish_drops_of cs
publish_drops_of (resynced ∷ cs) = publish_drops_of cs
publish_drops_of (enqueue_failure ∷ cs) = publish_drops_of cs
publish_drops_of (publish_drop ∷ cs) = suc (publish_drops_of cs)
publish_drops_of (pts_rebase ∷ cs) = publish_drops_of cs

abbrev pub rebases_of : List Call → ℕ
rebases_of [] = 0
rebases_of (observe i ∷ cs) = rebases_of cs
rebases_of (resynced ∷ cs) = rebases_of cs
rebases_of (enqueue_failure ∷ cs) = rebases_of cs
rebases_of (publish_drop ∷ cs) = rebases_of cs
rebases_of (pts_rebase ∷ cs) = suc (rebases_of cs)

-- The number of ids that are left out in front of each frame that follows another without a resync.
abbrev pub hole : Option ℕ → ℕ → List ℕ
hole none i = []
hole (some last) i = (i - suc last) ∷ []

unfoldable pub holes : Option ℕ → List Call → List ℕ
holes last [] = []
holes last (observe i ∷ cs) = hole last i ++ holes (some i) cs
holes last (resynced ∷ cs) = holes none cs
holes last (enqueue_failure ∷ cs) = holes last cs
holes last (publish_drop ∷ cs) = holes last cs
holes last (pts_rebase ∷ cs) = holes last cs

abbrev pub sum : List ℕ → ℕ
sum [] = 0
sum (n ∷ ns) = n + sum ns

-- How many of them are not 0.
abbrev pub nonzero : List ℕ → ℕ
nonzero [] = 0
nonzero (zero ∷ ns) = nonzero ns
nonzero (suc n ∷ ns) = suc (nonzero ns)

-- What the calls count, from the last frame id on.
abbrev pub counted : Option ℕ → List Call → Change
counted last cs = record {
  frames = pos (frames_of cs);
  source_gaps = pos (nonzero (holes last cs));
  frames_missing = pos (sum (holes last cs));
  enqueue_failures = pos (failures_of cs);
  publish_drops = pos (publish_drops_of cs);
  pts_rebases = pos (rebases_of cs);
}

-- The counters of `t` are those of `s` and what the calls count.
record Adds (o : Option ℕ) (cs : List Call) (s t : DropStats) : Type 0 where
  frames : t.frames ≡ s.frames + frames_of cs
  source_gaps : t.source_gaps ≡ s.source_gaps + nonzero (holes o cs)
  frames_missing : t.frames_missing ≡ s.frames_missing + sum (holes o cs)
  enqueue_failures : t.enqueue_failures ≡ s.enqueue_failures + failures_of cs
  publish_drops : t.publish_drops ≡ s.publish_drops + publish_drops_of cs
  pts_rebases : t.pts_rebases ≡ s.pts_rebases + rebases_of cs

nonzero-cons : (n : ℕ) (ns : List ℕ) → nonzero (n ∷ ns) ≡ nonzero (n ∷ []) + nonzero ns
nonzero-cons zero ns = omega arith
nonzero-cons (suc n) ns = omega arith

nonzero_none : (n : ℕ) → n ≡ 0 → nonzero (n ∷ []) ≡ 0
nonzero_none zero e = refl
nonzero_none (suc n) e = absurd (omega (arith, e))

nonzero_some : (n : ℕ) → 0 < n → nonzero (n ∷ []) ≡ 1
nonzero_some zero h = absurd (omega (arith, h))
nonzero_some (suc n) h = refl

-- What one frame behind another does to the counters.
record Gap (n : ℕ) (s t : DropStats) : Type 0 where
  frames : t.frames ≡ s.frames
  source_gaps : t.source_gaps ≡ s.source_gaps + nonzero (n ∷ [])
  frames_missing : t.frames_missing ≡ s.frames_missing + n
  enqueue_failures : t.enqueue_failures ≡ s.enqueue_failures
  publish_drops : t.publish_drops ≡ s.publish_drops
  pts_rebases : t.pts_rebases ≡ s.pts_rebases

count_gap-Gap : (last i : ℕ) (s : DropStats) → Gap (i - suc last) s (count_gap (some last) i s).1
unfolding count_gap
count_gap-Gap last i s = elim (Bool-cases (ltb (last + 1) i)) [
  | inl e ↦
      let one = nonzero_some (i - suc last) (ground (arith, e)) in
      rw e (record {
        frames = refl;
        source_gaps = omega (arith, one);
        frames_missing = omega arith;
        enqueue_failures = refl;
        publish_drops = refl;
        pts_rebases = refl;
      })
  | inr e ↦
      let hole : i - suc last ≡ 0 = ground (arith, e) in
      let no_gap = nonzero_none (i - suc last) hole in
      rw e (record {
        frames = refl;
        source_gaps = omega (arith, no_gap);
        frames_missing = omega (arith, hole);
        enqueue_failures = refl;
        publish_drops = refl;
        pts_rebases = refl;
      })
]

observe-Adds :
    (i : ℕ) (cs : List Call) (o : Option ℕ) (s t : DropStats)
    → Adds (some i) cs (count_gap o i (record s { frames = s.frames + 1 })).1 t
    → Adds o (observe i ∷ cs) s t
unfolding holes
observe-Adds i cs none s t h = unfold count_gap in ground (arith, h)
observe-Adds i cs (some last) s t h =
    let g = count_gap-Gap last i (record s { frames = s.frames + 1 }) in
    let more = nonzero-cons (i - suc last) (holes (some i) cs) in
    record {
      frames = omega (arith, h.frames, g.frames);
      source_gaps = omega (arith, h.source_gaps, g.source_gaps, more);
      frames_missing = omega (arith, h.frames_missing, g.frames_missing);
      enqueue_failures = omega (arith, h.enqueue_failures, g.enqueue_failures);
      publish_drops = omega (arith, h.publish_drops, g.publish_drops);
      pts_rebases = omega (arith, h.pts_rebases, g.pts_rebases);
    }

-- The counters alone matter.
Adds-from :
    (o : Option ℕ) (cs : List Call) (s t : DropStats) (k : Option ℕ)
    → Adds o cs (record s { last_fid = k }) t
    → Adds o cs s t
Adds-from o cs s t k h = record {
  frames = h.frames;
  source_gaps = h.source_gaps;
  frames_missing = h.frames_missing;
  enqueue_failures = h.enqueue_failures;
  publish_drops = h.publish_drops;
  pts_rebases = h.pts_rebases;
}

calls-Adds : (cs : List Call) (s : DropStats) → Adds s.last_fid cs s (calls s cs)
unfolding calls call holes resync note_enqueue_failure note_publish_drop note_pts_rebase
    observe_frame
calls-Adds [] s = ground arith
calls-Adds (observe i ∷ cs) s =
    let counted_gap = (count_gap s.last_fid i (record s { frames = s.frames + 1 })).1 in
    observe-Adds i cs s.last_fid s (calls s (observe i ∷ cs)) (
      Adds-from (some i) cs counted_gap (calls s (observe i ∷ cs)) (some i)
        (calls-Adds cs (call s (observe i))))
calls-Adds (resynced ∷ cs) s = let h = calls-Adds cs (call s resynced) in ground (arith, h)
calls-Adds (enqueue_failure ∷ cs) s =
    let h = calls-Adds cs (call s enqueue_failure) in ground (arith, h)
calls-Adds (publish_drop ∷ cs) s = let h = calls-Adds cs (call s publish_drop) in ground (arith, h)
calls-Adds (pts_rebase ∷ cs) s = let h = calls-Adds cs (call s pts_rebase) in ground (arith, h)

sub-add : (a b : ℕ) → sub_ℕ (b + a) b ≡ pos a
sub-add a b = ground arith

Adds-delta :
    (cs : List Call) (s t : DropStats)
    → Adds s.last_fid cs s t
    → delta (summary t) (some (summary s)) ≡ counted s.last_fid cs
unfolding delta summary
Adds-delta cs s t h =
    let a = sub-add (frames_of cs) s.frames in
    let b = sub-add (nonzero (holes s.last_fid cs)) s.source_gaps in
    let c = sub-add (sum (holes s.last_fid cs)) s.frames_missing in
    let d = sub-add (failures_of cs) s.enqueue_failures in
    let e = sub-add (publish_drops_of cs) s.publish_drops in
    let f = sub-add (rebases_of cs) s.pts_rebases in
    rw
      (
        h.frames, h.source_gaps, h.frames_missing, h.enqueue_failures, h.publish_drops,
        h.pts_rebases, a, b, c, d, e, f,
      )
      refl

-- The difference between the snapshots taken before and after a sequence of calls, whatever was counted before,
-- is a count of these calls themselves: the frames, the failures, the dropped publishes and the rebases among
-- them, and, over the frames that follow another one without a resync between, how many leave ids
-- out and how many ids they leave out, where an id that is not above the one before leaves out none. Without
-- a snapshot from before, the counters of a new object are this count.
pub delta-calls :
    (s : DropStats) (cs : List Call)
    → (delta (summary (calls s cs)) (some (summary s)) ≡ counted s.last_fid cs)
      × (delta (summary (calls new cs)) none ≡ counted none cs)
unfolding delta summary
delta-calls s cs = (
  Adds-delta cs s (calls s cs) (calls-Adds cs s),
  Adds-delta cs new (calls new cs) (calls-Adds cs new),
)
