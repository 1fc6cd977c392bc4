-- ===== src/Playback/Tests.antt =====
-- A playback that boots paused, is resumed, paused again, and finishes.
use camera_service.Common.{◌≡◌, refl, true, false, none, some, List, [], ◌∷◌, arith}
use camera_service.Common.Int.{pos, ◌+ℤ◌, ◌-ℤ◌}
use camera_service.Playback.{
  Speed, slowed, new_pacer, reset, anchor_now, rebase, wait, delay_until, Playback, playing,
  finished, create, release, arm_start_gate, poll, restart, resume_op, restart_op, request, apply,
  done, resume_now, fire_gate, Event, requested, polled, framed, preroll_taken, events,
}
use camera_service.Playback.Restarts.{is_restart_verdict, restart_taken_once}
use camera_service.Playback.Control.{resume_no_burst}

abbrev twice : Speed
twice = record { num = 2; den = 1 }

abbrev boot : Playback
unfolding create new_pacer
boot = create (new_pacer twice none) false (some 1000) true false

abbrev run : List Event
run =
    preroll_taken
    ∷ framed (pos 100) none
    ∷ requested (pos 5) restart_op
    ∷ polled false
    ∷ requested (pos 6) resume_op
    ∷ polled false
    ∷ []

restart_taken_once_example :
    let q = events (request (pos 5) restart_op boot).1 (framed (pos 7) none ∷ []) in
    ((poll false q).0 ≡ restart) × (is_restart_verdict (poll false (poll false q).1).0 ≡ false)
unfolding create new_pacer boot request apply
restart_taken_once_example =
    restart_taken_once (pos 5) boot (framed (pos 7) none ∷ []) refl (tt, tt)

abbrev over : Playback
over = record boot { state = finished }

abbrev gated : Playback
unfolding arm_start_gate create new_pacer
gated = arm_start_gate (pos 0) false boot

gate_fires : (fire_gate (pos 50) gated).state ≡ playing
unfolding arm_start_gate create new_pacer fire_gate request apply done resume_now release rebase
    reset anchor_now
gate_fires = refl

-- Paused behind the frame at 100.
abbrev held : Playback
held = record boot {
  frames = 3;
  pacer = record {
    speed = twice;
    anchor_src = none;
    t0_src = some (pos 0);
    t0_wall = pos 10;
    last_src = some (pos 100);
  };
}

-- 40 of the data's nanoseconds are 20 at double speed.
delay_of_20 : (wait (pos 140) (pos 9000) (request (pos 9000) resume_op held).1.pacer).0 ≡ pos 20
unfolding wait request apply done resume_now rebase slowed ◌+ℤ◌ ◌-ℤ◌ create new_pacer
delay_of_20 = refl

resume_no_burst_example :
    (wait (pos 140) (pos 9000) (request (pos 9000) resume_op held).1.pacer).0
    ≡ delay_until (pos 9000 +ℤ slowed twice (pos 140 -ℤ pos 100)) (pos 9000)
unfolding create new_pacer boot
resume_no_burst_example =
    resume_no_burst (pos 9000) (pos 9000) (pos 140) (pos 100) held refl (omega arith) refl
      (omega arith)
