-- ===== src/Reconnect.antt =====
-- The reconnect of core-driver/cam_driver/pipeline.py: the watchdog, the worker thread, a stop and the
-- shutdown, as steps that interleave. What the source answers is an argument (Outcome); setting
-- `_stopping` and its event is one step. A `close` gives the device back.
pub mod Invariant
pub mod Ends
pub mod Released
mod Tests
use camera_service.Common.{
  ℕ, zero, suc, ◌+◌, ◌*◌, ◌≡◌, Bool, true, false, not, ◌&&◌, ◌||◌, min, if◌then◌else◌,
}

pub record Config : Type 0 where
  pub backoff : ℕ
  pub backoff_max : ℕ

-- Where the worker is: before `source.stop`, at the loop's head, inside `reopen`, behind it, about to
-- start the source, in the backoff, and in the `finally`.
pub data Worker : Type 0 where
  absent begun at_loop reopening reopened checked waiting leaving : Worker

-- Where the main thread is: in its loop, waiting for the worker, past the wait, and at its end; late
-- if it gave up waiting.
pub data Main : Type 0 where
  serving joining joined late closed closed_late : Main

-- `cleared` says that the publish window and the PTS memo are not those of an older timeline of the
-- source; `stop_asked` is the idle callback that requests a stop.
pub record State : Type 0 where
  pub stopping : Bool
  pub reconnecting : Bool
  pub fatal : Bool
  pub stop_asked : Bool
  pub opened : Bool
  pub streaming : Bool
  pub cleared : Bool
  pub attempt : ℕ
  pub backoff : ℕ
  pub worker : Worker
  pub main : Main

-- A pipeline that runs.
unfoldable pub running : State
running = record {
  stopping = false;
  reconnecting = false;
  fatal = false;
  stop_asked = false;
  opened = true;
  streaming = true;
  cleared = true;
  attempt = 0;
  backoff = 0;
  worker = absent;
  main = serving;
}

-- What a call of the source does: it returns, it raises, or it finds that the stream has changed; the
-- latter two with whether the device is held afterwards.
pub data Outcome : Type 0 where
  returns : Outcome
  raises changed : Bool → Outcome

-- The branch on SourceConfigChanged, and on any other exception.
unfoldable pub give_up : State → State
give_up s = record s { fatal = true; stop_asked = true; worker = leaving }

unfoldable pub reopen : Outcome → State → State
reopen returns s = record s { opened = true; cleared = false; worker = reopened }
reopen (raises held) s = record s { opened = held; cleared = false; worker = waiting }
reopen (changed held) s = give_up (record s { opened = held; cleared = false })

-- The check behind `reopen`: the source is handed back, or the state of the old timeline is dropped.
unfoldable pub check : Outcome → State → State
check returns s =
    if s.stopping
    then record s { opened = false; streaming = false; worker = leaving }
    else record s { cleared = true; worker = checked }
check (raises held) s =
    if s.stopping
    then record s { opened = held; worker = leaving }
    else record s { cleared = true; worker = checked }
check (changed held) s =
    if s.stopping
    then record s { opened = held; worker = leaving }
    else record s { cleared = true; worker = checked }

unfoldable pub start : Outcome → State → State
start returns s = record s { streaming = true; worker = leaving }
start (raises held) s = record s { opened = held; worker = waiting }
start (changed held) s = give_up (record s { opened = held })

-- The next step of the worker, by where it is.
unfoldable pub work : Worker → Config → Outcome → State → State
work absent c o s = s
work begun c o s = record s { streaming = false; worker = at_loop }
work at_loop c o s =
    if s.stopping
    then record s { worker = leaving }
    else record s { attempt = s.attempt + 1; worker = reopening }
work reopening c o s = reopen o s
work reopened c o s = check o s
work checked c o s = start o s
work waiting c o s =
    if s.stopping
    then record s { worker = leaving }
    else record s { backoff = min (s.backoff * 2) c.backoff_max; worker = at_loop }
work leaving c o s = record s { reconnecting = false; worker = absent }

-- The watchdog, as the source reports a disconnect.
unfoldable pub watchdog : Config → State → State
watchdog c s =
    if s.stopping || s.reconnecting
    then s
    else record s { reconnecting = true; attempt = 0; backoff = c.backoff; worker = begun }

unfoldable pub request_stop : State → State
request_stop s = if s.stopping then s else record s { stopping = true; streaming = false }

-- `shutdown` up to its wait for the worker.
unfoldable pub shutdown : State → State
shutdown s = record s { stopping = true; streaming = s.streaming && s.stopping; main = joining }

-- `source.close` at the end of `shutdown`.
unfoldable pub close : Main → State → State
close joined s = record s { opened = false; streaming = false; main = closed }
close late s = record s { opened = false; streaming = false; main = closed_late }
close _ s = s

-- One step of one of the two threads.
pub data Step (c : Config) : State → State → Type 0 where
  watched : (s : State) → s.main ≡ serving → Step c s (watchdog c s)
  worked : (o : Outcome) (s : State) → Step c s (work s.worker c o s)
  stop_requested : (s : State) → s.main ≡ serving → Step c s (request_stop s)
  shut_down : (s : State) → s.main ≡ serving → Step c s (shutdown s)
  worker_joined :
      (s : State) → s.main ≡ joining → s.worker ≡ absent → Step c s (record s { main = joined })
  timed_out : (s : State) → s.main ≡ joining → Step c s (record s { main = late })
  source_closed : (s : State) → Step c s (close s.main s)

pub data Run (c : Config) : State → State → Type 0 where
  start_of : (s : State) → Run c s s
  and_then : {s t u : State} → Run c s t → Step c t u → Run c s u
