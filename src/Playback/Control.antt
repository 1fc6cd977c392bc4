-- ===== src/Playback/Control.antt =====
-- The control surface of core-driver/cam_driver/playback.py: refusals, the end, the start gate, and
-- the pace after a pause.
use camera_service.Common.{◌≡◌, ◌≢◌, refl, ◌⊎◌, true, false, none, some, List, [], ◌∷◌, arith}
use camera_service.Common.Int.{ℤ, ◌+ℤ◌, ◌-ℤ◌}
use camera_service.Playback.{
  slowed, rebase, wait, delay_until, Playback, playing, paused, finished, poll, take_restart,
  take_preroll, Op, pause_op, resume_op, restart_op, speed_op, loop_op, unknown_op, no_number,
  negative, number, is_restart, request, apply, done, restart_reply, resume_now, release, fire_gate,
  mark_finished, mark_cycle, note_frame, cancel_start_gate, Event, requested, replied, polled,
  restart_taken, preroll_taken, gate_cancelled, framed, cycled, ended, gate_fired, event, events,
}

apply_unchanged :
    (now : ℤ) (op : Op) (p : Playback)
    → ((apply now op p).0.ok ≡ false) ⊎ ((apply now op p).0.noop ≡ true)
    → (apply now op p).1 ≡ p
unfolding apply done
apply_unchanged now pause_op p h = ground arith
apply_unchanged now resume_op p h = ground arith
apply_unchanged now restart_op p h = ground arith
apply_unchanged now (speed_op no_number) p h = refl
apply_unchanged now (speed_op negative) p h = refl
apply_unchanged now (speed_op (number v)) p h = ground arith
apply_unchanged now (loop_op none) p h = refl
apply_unchanged now (loop_op (some b)) p h = ground arith
apply_unchanged now (unknown_op name) p h = refl

apply_restart :
    (now : ℤ) (p : Playback)
    → ((apply now restart_op p).0.ok ≡ true) × ((apply now restart_op p).0.noop ≡ false)
unfolding apply
apply_restart now p = (refl, refl)

restart_only : (op : Op) → is_restart op ≡ true → op ≡ restart_op
restart_only pause_op h = cc
restart_only resume_op h = cc
restart_only restart_op h = refl
restart_only (speed_op s) h = cc
restart_only (loop_op l) h = cc
restart_only (unknown_op n) h = cc

-- A request that is refused, or that says that nothing was done, changes nothing, save that the start
-- gate is disarmed.
request_unchanged :
    (now : ℤ) (op : Op) (p : Playback)
    → ((request now op p).0.ok ≡ false) ⊎ ((request now op p).0.noop ≡ true)
    → (request now op p).1 ≡ record p { gate_armed = false }
unfolding request
request_unchanged now op p h =
    let p' : Playback = record p { gate_armed = false } in
    ground (
      arith,
      apply_unchanged now op p',
      restart_only op,
      apply_restart now (record p' { state = playing }),
    )

-- What a finished playback that cannot start over keeps.
record Over (p : Playback) : Type 0 where
  state : p.state ≡ finished
  final : p.restartable ≡ false

refused_finished :
    (now : ℤ) (op : Op) (p : Playback)
    → Over p
    → ((request now op p).0.ok ≡ false) × Over (request now op p).1
unfolding request apply
refused_finished now pause_op p h = ground arith
refused_finished now resume_op p h = ground arith
refused_finished now restart_op p h = ground arith
refused_finished now (speed_op s) p h = ground arith
refused_finished now (loop_op l) p h = ground arith
refused_finished now (unknown_op n) p h = ground arith

event-Over : (e : Event) (p : Playback) → Over p → Over (event p e)
unfolding event restart_reply poll take_restart take_preroll cancel_start_gate note_frame mark_cycle
    mark_finished fire_gate
event-Over (requested now op) p h = (refused_finished now op p h).1
event-Over (replied none) p h = ground arith
event-Over (replied (some e)) p h = ground arith
event-Over (polled cancel) p h = ground arith
event-Over restart_taken p h = ground arith
event-Over preroll_taken p h = ground arith
event-Over gate_cancelled p h = ground arith
event-Over (framed ts base) p h = ground arith
event-Over (cycled n) p h = ground arith
event-Over (ended e) p h = ground arith
event-Over (gate_fired now) p h = ground arith

events-Over : (es : List Event) (p : Playback) → Over p → Over (events p es)
unfolding events
events-Over [] p h = h
events-Over (e ∷ es) p h = events-Over es (event p e) (event-Over e p h)

-- A finished playback whose source cannot start over stays finished whatever happens, and refuses
-- every request.
finished_final :
    (es : List Event) (p : Playback) (now : ℤ) (op : Op)
    → p.state ≡ finished
    → p.restartable ≡ false
    → ((events p es).state ≡ finished) × ((request now op (events p es)).0.ok ≡ false)
finished_final es p now op f r =
    let o = events-Over es p (record { state = f; final = r }) in
    (o.state, (refused_finished now op (events p es) o).0)

request_disarms : (now : ℤ) (op : Op) (p : Playback) → (request now op p).1.gate_armed ≡ false
unfolding request apply done resume_now release
request_disarms now pause_op p = ground arith
request_disarms now resume_op p = ground arith
request_disarms now restart_op p = ground arith
request_disarms now (speed_op no_number) p = ground arith
request_disarms now (speed_op negative) p = ground arith
request_disarms now (speed_op (number v)) p = ground arith
request_disarms now (loop_op none) p = ground arith
request_disarms now (loop_op (some b)) p = ground arith
request_disarms now (unknown_op n) p = ground arith

event_disarmed : (e : Event) (p : Playback) → p.gate_armed ≡ false → (event p e).gate_armed ≡ false
unfolding event restart_reply poll take_restart take_preroll cancel_start_gate note_frame mark_cycle
    mark_finished fire_gate
event_disarmed (requested now op) p h = request_disarms now op p
event_disarmed (replied none) p h = h
event_disarmed (replied (some e)) p h = h
event_disarmed (polled cancel) p h = ground arith
event_disarmed restart_taken p h = h
event_disarmed preroll_taken p h = h
event_disarmed gate_cancelled p h = refl
event_disarmed (framed ts base) p h = h
event_disarmed (cycled n) p h = h
event_disarmed (ended e) p h = ground arith
event_disarmed (gate_fired now) p h = ground arith

events_disarmed :
    (es : List Event) (p : Playback) → p.gate_armed ≡ false → (events p es).gate_armed ≡ false
unfolding events
events_disarmed [] p h = h
events_disarmed (e ∷ es) p h = events_disarmed es (event p e) (event_disarmed e p h)

-- Any request, also one that is refused, outranks the start gate: whatever happens after it, the gate
-- changes nothing when it fires.
gate_outranked :
    (now later : ℤ) (op : Op) (p : Playback) (es : List Event)
    → let q = events (request now op p).1 es in fire_gate later q ≡ q
unfolding fire_gate
gate_outranked now later op p es =
    rw (events_disarmed es (request now op p).1 (request_disarms now op p)) refl

-- A playback that delivered frames and is paused: after a resume the next frame is due as long after
-- the resume as the data says that it comes after the frame before the pause, scaled by the speed,
-- however long the pause was.
pub resume_no_burst :
    (resumed now ts last : ℤ) (p : Playback)
    → p.state ≡ paused
    → p.frames ≢ 0
    → p.pacer.last_src ≡ some last
    → p.pacer.speed.num ≢ 0
    → (wait ts now (request resumed resume_op p).1.pacer).0
      ≡ delay_until (resumed +ℤ slowed p.pacer.speed (ts -ℤ last)) now
unfolding wait request apply done resume_now rebase
resume_no_burst resumed now ts last p s f l v = ground arith
