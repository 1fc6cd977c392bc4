-- ===== src/Playback/Restarts.antt =====
-- The restarts of core-driver/cam_driver/playback.py: none is taken twice, and none is lost.
use camera_service.Common.{
  ℕ, ◌+◌, ◌≤◌, ◌≡◌, Bool, true, false, ◌&&◌, Option, none, some, List, [], ◌∷◌, All, arith,
}
use camera_service.Common.Int.{ℤ}
use camera_service.Playback.{
  Pacer, Playback, playing, create, Verdict, restart, poll, take_restart, take_preroll, Op,
  pause_op, resume_op, restart_op, speed_op, loop_op, unknown_op, no_number, negative, number,
  is_restart, request, apply, done, restart_reply, resume_now, release, fire_gate, mark_finished,
  mark_cycle, note_frame, cancel_start_gate, Event, requested, replied, polled, restart_taken,
  preroll_taken, gate_cancelled, framed, cycled, ended, gate_fired, event, events,
}

abbrev pub one_if : Bool → ℕ
one_if true = 1
one_if false = 0

abbrev pub is_restart_verdict : Verdict → Bool
is_restart_verdict restart = true
is_restart_verdict _ = false

-- The restarts that the feeder takes at an event, and those that are asked for.
abbrev pub taken_by : Event → Playback → ℕ
taken_by (polled cancel) p = one_if (is_restart_verdict (poll cancel p).0)
taken_by restart_taken p = one_if (take_restart p).0
taken_by _ p = 0

abbrev pub asked_by : Event → Playback → ℕ
asked_by (requested now op) p = one_if ((request now op p).0.ok && is_restart op)
asked_by _ p = 0

pub taken : Playback → List Event → ℕ
taken p [] = 0
taken p (e ∷ es) = taken_by e p + taken (event p e) es

pub asked : Playback → List Event → ℕ
asked p [] = 0
asked p (e ∷ es) = asked_by e p + asked (event p e) es

apply_pending :
    (now : ℤ) (op : Op) (p : Playback)
    → one_if (apply now op p).1.restart_pending
      ≤ one_if p.restart_pending + one_if ((apply now op p).0.ok && is_restart op)
unfolding apply done resume_now release
apply_pending now pause_op p = ground arith
apply_pending now resume_op p = ground arith
apply_pending now restart_op p = ground arith
apply_pending now (speed_op no_number) p = ground arith
apply_pending now (speed_op negative) p = ground arith
apply_pending now (speed_op (number v)) p = ground arith
apply_pending now (loop_op none) p = ground arith
apply_pending now (loop_op (some b)) p = ground arith
apply_pending now (unknown_op name) p = ground arith

request_pending :
    (now : ℤ) (op : Op) (p : Playback)
    → one_if (request now op p).1.restart_pending
      ≤ one_if p.restart_pending + one_if ((request now op p).0.ok && is_restart op)
unfolding request
request_pending now op p =
    let p' : Playback = record p { gate_armed = false } in
    ground (arith, apply_pending now op (record p' { state = playing }), apply_pending now op p')

resume_pending :
    (now : ℤ) (p : Playback)
    → one_if (request now resume_op p).1.restart_pending ≤ one_if p.restart_pending
resume_pending now p = ground (arith, request_pending now resume_op p)

event_pending :
    (e : Event) (p : Playback)
    → taken_by e p + one_if (event p e).restart_pending ≤ one_if p.restart_pending + asked_by e p
unfolding event restart_reply poll take_restart take_preroll cancel_start_gate note_frame mark_cycle
    mark_finished fire_gate
event_pending (requested now op) p = omega (arith, request_pending now op p)
event_pending (replied none) p = ground arith
event_pending (replied (some e)) p = ground arith
event_pending (polled cancel) p = ground arith
event_pending restart_taken p = ground arith
event_pending preroll_taken p = ground arith
event_pending gate_cancelled p = ground arith
event_pending (framed ts base) p = ground arith
event_pending (cycled n) p = ground arith
event_pending (ended e) p = ground arith
event_pending (gate_fired now) p =
    ground (arith, resume_pending now (record p { gate_armed = false }))

run_pending :
    (p : Playback) (es : List Event)
    → taken p es + one_if (events p es).restart_pending ≤ one_if p.restart_pending + asked p es
unfolding taken asked events
run_pending p [] = omega arith
run_pending p (e ∷ es) = omega (arith, event_pending e p, run_pending (event p e) es)

-- Over everything that can happen to a playback, the feeder takes no more restarts than were asked
-- for, and one that is still pending is not among those taken.
restarts_accounted :
    (pacer : Pacer) (loop : Bool) (duration : Option ℕ) (start_paused restartable : Bool)
    (es : List Event)
    → let p = create pacer loop duration start_paused restartable in
      taken p es + one_if (events p es).restart_pending ≤ asked p es
unfolding create
restarts_accounted pacer loop duration start_paused restartable es =
    omega (arith, run_pending (create pacer loop duration start_paused restartable) es)

-- Until the feeder looks, or the hook reports an error, a pending restart stays pending.
abbrev pub Leaves : Event → Type 0
Leaves (polled cancel) = ⊥
Leaves restart_taken = ⊥
Leaves (replied (some e)) = ⊥
Leaves _ = Unit

apply_keeps :
    (now : ℤ) (op : Op) (p : Playback)
    → p.restart_pending ≡ true
    → (apply now op p).1.restart_pending ≡ true
unfolding apply done resume_now release
apply_keeps now pause_op p h = ground arith
apply_keeps now resume_op p h = ground arith
apply_keeps now restart_op p h = ground arith
apply_keeps now (speed_op no_number) p h = ground arith
apply_keeps now (speed_op negative) p h = ground arith
apply_keeps now (speed_op (number v)) p h = ground arith
apply_keeps now (loop_op none) p h = ground arith
apply_keeps now (loop_op (some b)) p h = ground arith
apply_keeps now (unknown_op name) p h = ground arith

request_keeps :
    (now : ℤ) (op : Op) (p : Playback)
    → p.restart_pending ≡ true
    → (request now op p).1.restart_pending ≡ true
unfolding request
request_keeps now op p h =
    let p' : Playback = record p { gate_armed = false } in
    ground (arith, apply_keeps now op (record p' { state = playing }) h, apply_keeps now op p' h)

event_keeps :
    (e : Event) (p : Playback)
    → Leaves e
    → p.restart_pending ≡ true
    → (event p e).restart_pending ≡ true
unfolding event restart_reply take_preroll cancel_start_gate note_frame mark_cycle mark_finished
    fire_gate
event_keeps (requested now op) p l h = request_keeps now op p h
event_keeps (replied none) p l h = h
event_keeps (replied (some e)) p l h = absurd l
event_keeps (polled cancel) p l h = absurd l
event_keeps restart_taken p l h = absurd l
event_keeps preroll_taken p l h = h
event_keeps gate_cancelled p l h = h
event_keeps (framed ts base) p l h = h
event_keeps (cycled n) p l h = h
event_keeps (ended e) p l h = ground arith
event_keeps (gate_fired now) p l h =
    ground (arith, request_keeps now resume_op (record p { gate_armed = false }) h)

events_keep :
    (es : List Event) (p : Playback)
    → All Leaves es
    → p.restart_pending ≡ true
    → (events p es).restart_pending ≡ true
unfolding events
events_keep [] p l h = h
events_keep (e ∷ es) p (l, ls) h = events_keep es (event p e) ls (event_keeps e p l h)

request_asks :
    (now : ℤ) (p : Playback)
    → (request now restart_op p).0.ok ≡ true
    → (request now restart_op p).1.restart_pending ≡ true
unfolding request apply
request_asks now p h = ground arith

-- A restart that was accepted reaches the feeder: whatever else happens first, save an error of the
-- hook, the feeder's next look that is not cancelled gives the verdict to restart, also while the
-- playback is paused, and the look after it does not.
pub restart_taken_once :
    (now : ℤ) (p : Playback) (es : List Event)
    → (request now restart_op p).0.ok ≡ true
    → All Leaves es
    → let q = events (request now restart_op p).1 es in
      ((poll false q).0 ≡ restart) × (is_restart_verdict (poll false (poll false q).1).0 ≡ false)
unfolding poll
restart_taken_once now p es h l =
    ground (arith, events_keep es (request now restart_op p).1 l (request_asks now p h))
