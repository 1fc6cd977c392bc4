-- ===== src/Reconnect/Released.antt =====
-- The device after the shutdown of core-driver/cam_driver/pipeline.py.
use camera_service.Common.{◌≡◌, Bool, true, false}
use camera_service.Reconnect.{
  Config, Worker, absent, reopening, reopened, Main, serving, joined, closed, closed_late, State,
  Outcome, returns, raises, changed, watched, worked, stop_requested, shut_down, worker_joined,
  timed_out, source_closed, Run, start_of, and_then,
}

-- Past the wait for a worker that ended.
abbrev has_joined : Main → Bool
has_joined joined = true
has_joined closed = true
has_joined _ = false

record Released (s : State) : Type 0 where
  alone : has_joined s.main ≡ true → s.worker ≡ absent
  given_back : s.main ≡ closed → (s.opened ≡ false) × (s.streaming ≡ false)

-- A call of the source that raises has given the device back.
abbrev pub GivesBack : Outcome → Type 0
GivesBack returns = Unit
GivesBack (raises held) = held ≡ false
GivesBack (changed held) = held ≡ false

unfoldable pub AllGiveBack : {c : Config} {s t : State} → Run c s t → Type 0
AllGiveBack (start_of s) = Unit
AllGiveBack (and_then r (worked o s)) = AllGiveBack r × GivesBack o
AllGiveBack (and_then r (watched s h)) = AllGiveBack r
AllGiveBack (and_then r (stop_requested s h)) = AllGiveBack r
AllGiveBack (and_then r (shut_down s h)) = AllGiveBack r
AllGiveBack (and_then r (worker_joined s h w)) = AllGiveBack r
AllGiveBack (and_then r (timed_out s h)) = AllGiveBack r
AllGiveBack (and_then r (source_closed s)) = AllGiveBack r

-- The shutdown has closed the source, whether or not the worker had ended.
abbrev pub is_closed : Main → Bool
is_closed closed = true
is_closed closed_late = true
is_closed _ = false

abbrev is_serving : Main → Bool
is_serving serving = true
is_serving _ = false

-- Where the worker may take the device, or holds it and has still to look for a stop.
abbrev pub may_take : Worker → Bool
may_take reopening = true
may_take reopened = true
may_take _ = false

abbrev pub looks_next : Worker → Bool
looks_next reopened = true
looks_next _ = false

-- In every state: past the main thread's loop a stop was set, and past the close only a worker that has just
-- reopened the source holds it.
record HandedBack (s : State) : Type 0 where
  stop_set : is_serving s.main ≡ false → s.stopping ≡ true
  handed : is_closed s.main ≡ true → looks_next s.worker ≡ false → s.opened ≡ false

-- After a stop.
record StoppedSince (from s : State) : Type 0 where
  stopping : s.stopping ≡ true
  no_worker : from.worker ≡ absent → s.worker ≡ absent
  not_taken :
      from.opened ≡ false
      → may_take from.worker ≡ false
      → (s.opened ≡ false) × (may_take s.worker ≡ false)
