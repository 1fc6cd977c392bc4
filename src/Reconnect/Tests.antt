-- ===== src/Reconnect/Tests.antt =====
-- A disconnect, two attempts, and a stop in the midst of the second.
use camera_service.Common.{◌-◌, ◌*◌, ◌^◌, ◌≡◌, refl, true, false, min, arith}
use camera_service.Reconnect.{
  Config, absent, waiting, late, State, running, Outcome, returns, raises, reopen, check, work,
  watchdog, request_stop, shutdown, close, watched, worked, stop_requested, shut_down, timed_out,
  source_closed, Run, start_of, and_then,
}
use camera_service.Reconnect.Invariant.{alive, reconnect_consistent}
use camera_service.Reconnect.Ends.{worker_steps, worker_ends}

abbrev config : Config
config = record { backoff = 500; backoff_max = 8000 }

-- The next step of the worker, in a run.
abbrev next : Outcome → State → State
next o s = work s.worker config o s

go : (o : Outcome) {s : State} → Run config running s → Run config running (next o s)
go o {s} r = and_then r (worked o s)

-- The first reopen fails, and the worker waits.
abbrev disconnected : State
disconnected = watchdog config running

abbrev first_wait : State
first_wait = next (raises false) (next returns (next returns disconnected))

to_first_wait : Run config running first_wait
unfolding running
to_first_wait =
    go (raises false) (go returns (go returns (and_then (start_of running) (watched running refl))))

reconnect_consistent_example :
    (first_wait.reconnecting ≡ alive first_wait.worker)
    × (first_wait.worker ≡ waiting
        → first_wait.backoff ≡ min (500 * 2 ^ (first_wait.attempt - 1)) 8000)
    × (first_wait.streaming ≡ true → first_wait.cleared ≡ true)
reconnect_consistent_example = reconnect_consistent config first_wait (omega arith) to_first_wait

-- A stop comes inside the second reopen; the worker hands the source back and ends.
abbrev second_reopen : State
second_reopen = next returns (next returns first_wait)

abbrev stopped_inside : State
stopped_inside = request_stop second_reopen

abbrev ended : State
ended = next returns (next returns (next returns stopped_inside))

to_second_reopen : Run config running second_reopen
to_second_reopen = go returns (go returns to_first_wait)

to_stop : Run config running stopped_inside
unfolding running watchdog work reopen
to_stop = and_then to_second_reopen (stop_requested second_reopen refl)

to_end : Run config stopped_inside ended
to_end =
    and_then
      (and_then (and_then (start_of stopped_inside) (worked returns stopped_inside))
        (worked returns (next returns stopped_inside)))
      (worked returns (next returns (next returns stopped_inside)))

worker_ends_example :
    (ended.worker ≡ absent)
    × (ended.reconnecting ≡ false)
    × (ended.attempt ≡ stopped_inside.attempt)
unfolding running watchdog work reopen request_stop worker_steps to_end
worker_ends_example = worker_ends to_stop to_end refl (omega arith)

-- The shutdown gives up waiting and closes the source while the worker is inside the second reopen.
abbrev shut : State
shut = shutdown stopped_inside

abbrev shut_late : State
shut_late = record shut { main = late }

abbrev over : State
over = close late shut_late

-- The reopen returns, and the worker hands the source back.
abbrev reopened_late : State
reopened_late = next returns over

abbrev handed_back : State
handed_back = next returns reopened_late

to_handed_back : Run config stopped_inside handed_back
unfolding running watchdog work reopen request_stop shutdown close
to_handed_back =
    and_then
      (and_then
        (and_then
          (and_then (and_then (start_of stopped_inside) (shut_down stopped_inside refl))
            (timed_out shut refl))
          (source_closed shut_late))
        (worked returns over))
      (worked returns reopened_late)

was_held : (reopened_late.opened ≡ true) × (handed_back.opened ≡ false)
unfolding running watchdog work reopen check request_stop shutdown close
was_held = (refl, refl)
