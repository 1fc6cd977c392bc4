-- ===== src/Playback.antt =====
-- Playback control: Pacer and PlaybackState of core-driver/cam_driver/playback.py. A speed is a
-- rational number where the code has a float, so that `int(d / speed)` is exact. The clock is an
-- argument; a call under the condition's lock is one step. Observers are counted; the descriptor is
-- a view of the state, of which the position is modelled. Discovery of runs on disk is left out.
mod Pacing
pub mod Restarts
pub mod Control
pub mod Position
mod Tests
use camera_service.Common.{
  ℕ, zero, suc, ◌+◌, ◌-◌, ◌*◌, ◌/◌, Bool, true, false, not, ◌&&◌, ◌||◌, Option, none, some, List,
  [], ◌∷◌, ◌++◌, ltb, leb, ◌==◌, if◌then◌else◌,
}
use camera_service.Common.Int.{ℤ, pos, negsuc, sub_ℕ, ◌+ℤ◌, ◌-ℤ◌, ltb_ℤ, leb_ℤ, at_least_zero}
use camera_service.Common.Text.{codes}
unfoldable pub use Pacing.*

pub data State : Type 0 where
  playing paused finished : State

pub record Playback : Type 0 where
  pub pacer : Pacer
  pub loop : Bool
  pub duration_ns : Option ℕ
  pub state : State
  pub cycle : ℕ
  pub frames : ℕ
  pub position_ns : ℤ
  pub cycle_base_ns : Option ℤ
  pub restart_pending : Bool
  pub restartable : Bool
  pub preroll_pending : Bool
  pub gate_armed : Bool
  pub last_error : Option (List ℕ)
  pub notified : ℕ

abbrev pub is_paused : State → Bool
is_paused paused = true
is_paused _ = false

abbrev pub is_playing : State → Bool
is_playing playing = true
is_playing _ = false

abbrev pub is_finished : State → Bool
is_finished finished = true
is_finished _ = false

unfoldable pub create : Pacer → Bool → Option ℕ → Bool → Bool → Playback
create pacer loop duration_ns start_paused restartable = record {
  pacer = pacer;
  loop = loop;
  duration_ns = duration_ns;
  state = if start_paused then paused else playing;
  cycle = 0;
  frames = 0;
  position_ns = pos 0;
  cycle_base_ns = none;
  restart_pending = false;
  restartable = restartable;
  preroll_pending = start_paused;
  gate_armed = false;
  last_error = none;
  notified = 0;
}

unfoldable pub release : ℤ → Playback → Playback
release now p = record p {
  state = playing;
  pacer = anchor_now now (reset p.pacer.anchor_src p.pacer);
}

-- `in_past` says whether the instant is not after now.
unfoldable pub arm_start_gate : ℤ → Bool → Playback → Playback
arm_start_gate now in_past p =
    if not (is_paused p.state)
    then p
    else if in_past
    then release now p
    else record p { gate_armed = true }

unfoldable pub cancel_start_gate : Playback → Playback
cancel_start_gate p = record p { gate_armed = false }

unfoldable pub note_frame : ℤ → Option ℤ → Playback → Playback
note_frame ts cycle_base p =
    let base : ℤ = elim cycle_base [
      | some b ↦ b
      | none ↦ elim p.cycle_base_ns [ some b ↦ b | none ↦ ts ]
    ] in
    record p {
      cycle_base_ns = some base;
      position_ns = at_least_zero (ts -ℤ base);
      frames = p.frames + 1;
    }

unfoldable pub mark_cycle : ℕ → Playback → Playback
mark_cycle cycle p = record p {
  cycle = cycle;
  frames = 0;
  position_ns = pos 0;
  cycle_base_ns = none;
}

unfoldable pub take_restart : Playback → Bool × Playback
take_restart p = (p.restart_pending, record p { restart_pending = false })

unfoldable pub take_preroll : Playback → Bool × Playback
take_preroll p = (p.preroll_pending, record p { preroll_pending = false })

pub data Verdict : Type 0 where
  stop resume restart waits : Verdict

-- One look of `wait_if_paused`, with the lock: a verdict, or another wait.
unfoldable pub poll : Bool → Playback → Verdict × Playback
poll cancel p =
    if cancel
    then (stop, p)
    else if p.restart_pending
    then (restart, record p { restart_pending = false })
    else if is_paused p.state
    then (waits, p)
    else (resume, p)

unfoldable pub mark_finished : Option (List ℕ) → Playback → Playback
mark_finished error p =
    if is_finished p.state
    then p
    else record p { state = finished; last_error = error; notified = p.notified + 1 }

-- The requests, with what was read of their parameters; a speed is rational, so the "nan" and "inf" that
-- `float` reads as well are left out.
pub data SpeedParam : Type 0 where
  no_number negative : SpeedParam
  number : Speed → SpeedParam

pub data Op : Type 0 where
  pause_op resume_op restart_op : Op
  speed_op : SpeedParam → Op
  loop_op : Option Bool → Op
  unknown_op : List ℕ → Op

-- The answer, without its descriptor.
pub record Answer : Type 0 where
  pub ok : Bool
  pub state : State
  pub error : Option (List ℕ)
  pub noop : Bool
  pub pending : Bool

abbrev refuse : List ℕ → Playback → Answer × Playback
refuse e p =
    (record { ok = false; state = p.state; error = some e; noop = false; pending = false }, p)

abbrev idle : Playback → Answer × Playback
idle p = (record { ok = true; state = p.state; error = none; noop = true; pending = false }, p)

-- What ends a request that did something: no error, and the observers.
unfoldable pub done : Playback → Answer × Playback
done p = (
  record { ok = true; state = p.state; error = none; noop = false; pending = false },
  record p { last_error = none; notified = p.notified + 1 },
)

unfoldable pub resume_now : ℤ → Playback → Playback
resume_now now p =
    if p.frames == 0
      && not (elim p.pacer.anchor_src as (λ x. Bool) [ none ↦ true | some a ↦ false ])
    then release now p
    else record p { state = playing; pacer = rebase now p.pacer }

-- A request on a playback that has not finished, save a restart.
unfoldable pub apply : ℤ → Op → Playback → Answer × Playback
apply now pause_op p = if is_paused p.state then idle p else done (record p { state = paused })
apply now resume_op p = if is_playing p.state then idle p else done (resume_now now p)
apply now (speed_op no_number) p = refuse (codes "'speed' must be a number >= 0") p
apply now (speed_op negative) p = refuse (codes "'speed' must be >= 0") p
apply now (speed_op (number v)) p =
    if same_speed v p.pacer.speed
    then idle p
    else done (record p { pacer = set_speed now v p.pacer })
apply now (loop_op none) p = refuse (codes "'loop' must be true or false") p
apply now (loop_op (some b)) p =
    if (if b then p.loop else not p.loop) then idle p else done (record p { loop = b })
apply now (unknown_op name) p = refuse (codes "unknown op " ++ name) p
apply now restart_op p = (
  record { ok = true; state = p.state; error = none; noop = false; pending = true },
  record p { restart_pending = true; last_error = none },
)

abbrev pub is_unknown : Op → Bool
is_unknown (unknown_op name) = true
is_unknown _ = false

abbrev pub is_restart : Op → Bool
is_restart restart_op = true
is_restart _ = false

-- `request`: for a restart its first half, up to the hook.
unfoldable pub request : ℤ → Op → Playback → Answer × Playback
request now op p =
    let p' : Playback = record p { gate_armed = false } in
    if is_finished p.state && not (is_unknown op)
    then (if is_restart op && p.restartable
        then apply now op (record p' { state = playing })
        else refuse (codes "playback has finished") p')
    else apply now op p'

-- The second half of a restart: the hook's error, or the answer once the wait is over.
unfoldable pub restart_reply : Option (List ℕ) → Playback → Answer × Playback
restart_reply (some e) p =
    let p' : Playback = record p {
      restart_pending = false;
      last_error = some (codes "restart failed: " ++ e);
    } in
    (
      record {
        ok = false;
        state = p.state;
        error = some (codes "restart failed: " ++ e);
        noop = false;
        pending = false;
      },
      p',
    )
restart_reply none p = (
  record { ok = true; state = p.state; error = none; noop = false; pending = p.restart_pending },
  record p { notified = p.notified + 1 },
)

unfoldable pub fire_gate : ℤ → Playback → Playback
fire_gate now p =
    if not p.gate_armed
    then p
    else if is_paused p.state
    then (request now resume_op (record p { gate_armed = false })).1
    else record p { gate_armed = false }

-- `_timeline_position_ns` while the clock shows `now`.
unfoldable pub timeline_position : ℤ → Playback → ℤ
timeline_position now p =
    let at = elim p.pacer.t0_src as (λ x. ℤ) [
      | none ↦ p.position_ns
      | some t0 ↦
          let base : ℤ = elim p.cycle_base_ns as (λ x. ℤ) [ none ↦ t0 | some b ↦ b ] in
          let timeline = sped p.pacer.speed (now -ℤ p.pacer.t0_wall) +ℤ (t0 -ℤ base) in
          let ahead = if ltb_ℤ p.position_ns timeline then timeline else p.position_ns in
          elim p.duration_ns as (λ x. ℤ) [
            | none ↦ ahead
            | some d ↦ if ltb_ℤ (pos d) ahead then pos d else ahead
          ]
    ] in
    at_least_zero (if is_playing p.state && not (p.pacer.speed.num == 0) then at else p.position_ns)

-- What happens to a playback: requests and their replies, the feeder's calls, the start gate.
pub data Event : Type 0 where
  requested : ℤ → Op → Event
  replied : Option (List ℕ) → Event
  polled : Bool → Event
  restart_taken preroll_taken gate_cancelled : Event
  framed : ℤ → Option ℤ → Event
  cycled : ℕ → Event
  ended : Option (List ℕ) → Event
  gate_fired : ℤ → Event

unfoldable pub event : Playback → Event → Playback
event p (requested now op) = (request now op p).1
event p (replied e) = (restart_reply e p).1
event p (polled cancel) = (poll cancel p).1
event p restart_taken = (take_restart p).1
event p preroll_taken = (take_preroll p).1
event p gate_cancelled = cancel_start_gate p
event p (framed ts base) = note_frame ts base p
event p (cycled n) = mark_cycle n p
event p (ended e) = mark_finished e p
event p (gate_fired now) = fire_gate now p

unfoldable pub events : Playback → List Event → Playback
events p [] = p
events p (e ∷ es) = events (event p e) es
