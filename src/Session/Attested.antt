-- ===== src/Session/Attested.antt =====
-- What the attestation that `finish_close` of core-driver/cam_driver/session.py writes says of the
-- session's run.
use mathlib.Core.List.{append-nil}
use camera_service.Common.{
  ℕ, ◌+◌, ◌≡◌, refl, sym, ◌∙◌, ◌⊎◌, ap, Bool, true, false, none, List, [], ◌∷◌, length,
  length-append, arith,
}
use camera_service.DropStats.{Summary}
use camera_service.Session.{
  PushResult, accepted, dropped, skipped, end_of_stream, Session, opened, record_error, Frame,
  push_one,
}
use camera_service.Session.Push.{
  fed, fed-append, fed_by, bump, push-Outcome, close_signal-SameCounts,
}
use camera_service.Session.Closing.{count_eos}
use camera_service.Session.Close.{
  close_join, on_bus, Popped, eos, drain, pop_eos, teardown, reconcile, stop_sidecar, attest,
  finish_close,
}
use camera_service.Session.Interleaving.{
  Phase, unclosed, joined, Step, push_step, late_push, closed_push, bus_step, signal_step,
  join_step, Steps, no_step, then_step, opened-Closes,
}

-- The counter is that of the buffers that the appsrc took.
abbrev Counted : Session → Type 0
Counted s = length (fed s.appsrc_calls) ≡ s.frames

fed_by-bump : (r : PushResult) (x : Frame) (n : ℕ) → n + length (fed_by r x.stamp x.pts) ≡ bump r n
fed_by-bump accepted x n = omega arith
fed_by-bump dropped x n = omega arith
fed_by-bump skipped x n = omega arith

push-Counted : (x : Frame) (s : Session) → Counted s → Counted (push_one x s).1
push-Counted x s h =
    let o = push-Outcome x s in
    let r = (push_one x s).0 in
    ap length o.muxer
    ∙ length-append (fed s.appsrc_calls) (fed_by r x.stamp x.pts)
    ∙ ap (λ (n : ℕ). n + length (fed_by r x.stamp x.pts)) h
    ∙ fed_by-bump r x s.frames
    ∙ sym o.frames

close_join-Counted : (e : Bool) (s : Session) → Counted s → Counted (close_join e s)
unfolding close_join
close_join-Counted e s h =
    ground
      (arith, h, fed-append s.appsrc_calls (end_of_stream ∷ []), append-nil (fed s.appsrc_calls))

Step-Counted :
    {block : Bool} {p : Phase} {s : Session} {q : Phase} {t : Session}
    → Step block p s q t
    → Counted s
    → Counted t
unfolding on_bus record_error
Step-Counted (push_step x s b) h = push-Counted x s h
Step-Counted (late_push x e s) h = push-Counted x s h
Step-Counted (closed_push x s) h = push-Counted x s h
Step-Counted (bus_step m p s) h = ground (arith, h)
Step-Counted {block} (signal_step s) h =
    let e = close_signal-SameCounts block s in ap length e.muxer ∙ h ∙ sym e.frames
Step-Counted (join_step e s) h = close_join-Counted e s h

Steps-Counted :
    {block : Bool} {p : Phase} {s : Session} {q : Phase} {t : Session}
    → Steps block p s q t
    → Counted s
    → Counted t
Steps-Counted (no_step p s) h = h
Steps-Counted (then_step p q r s t u a b) h = Step-Counted b (Steps-Counted a h)

-- The muxer finished its file: it reported EOS before the wait, or in it.
abbrev pub Finalized : Bool → Popped → Session → Type 0
Finalized wait popped s = (s.eos_seen ≡ true) ⊎ ((wait ≡ true) × (popped ≡ eos))

drain_truncates :
    (wait : Bool) (popped : Popped) (s : Session)
    → s.pipeline ≡ true
    → (drain wait popped s).truncated ≡ false
    → ((drain wait popped s).error ≡ none) × ((s.frames ≡ 0) ⊎ Finalized wait popped s)
unfolding drain pop_eos
drain_truncates wait popped s p h = ground arith

drain_keeps :
    (wait : Bool) (popped : Popped) (s : Session)
    → let t = drain wait popped s in (t.frames ≡ s.frames) × (t.appsrc_calls ≡ s.appsrc_calls)
unfolding drain pop_eos
drain_keeps wait popped s = ground arith

-- However pushes, bus messages and the close of a session interleave, the session has no pipeline
-- after `finish_close`, and the attestation holds: its frame count is the number of buffers that
-- the appsrc took, and if it says that nothing was truncated there was no error, and either no
-- frame was recorded or EOS was sent exactly once and came back from the muxer.
pub attested :
    (block encoded wait : Bool) (index : ℕ) (drops drops_now : Summary) (popped : Popped)
    (on_disk : List (List ℕ)) (works : List Bool) (t : Session)
    → Steps block unclosed (opened index encoded drops) joined t
    → let (d, a, u) = finish_close wait popped on_disk works drops_now t in
      (u.pipeline ≡ false)
      × (a.frames_recorded ≡ length (fed t.appsrc_calls))
      × (a.truncated ≡ false
          → (a.error ≡ none)
            × ((a.frames_recorded ≡ 0)
                ⊎ ((count_eos t.appsrc_calls ≡ 1) × Finalized wait popped t)))
unfolding finish_close attest reconcile teardown stop_sidecar
attested block encoded wait index drops drops_now popped on_disk works t a =
    let (c, d, p, n) = opened-Closes block encoded index drops t a in
    let k = drain_keeps wait popped t in
    let m = Steps-Counted a refl in
    (refl, k.0 ∙ sym m, λ z. ground (arith, drain_truncates wait popped t p z, k.0, n))
