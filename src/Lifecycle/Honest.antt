-- ===== src/Lifecycle/Honest.antt =====
-- The state that core-driver/cam_driver/lifecycle.py reports is that of the recording.
use camera_service.Common.{◌≡◌, Bool, true, false, Option, List, [], ◌∷◌, arith, ℕ}
use camera_service.Pipeline.{Pipeline, Result, Revision}
use camera_service.Pipeline.Open.{
  Matches, activate-Matches, deactivate-Matches, feed-Matches, session_bus-Matches,
  request_stop-Matches,
}
use camera_service.Lifecycle.{
  Lifecycle, to_active, to_inactive, unknown, Meets, remember, notify, conclude, request_active,
  request_inactive, request, session_error, Event, requested, framed, bus_posted, error_reported,
  stop_requested, event, events,
}

conclude-pipe :
    (write : Bool) (failed : List ℕ) (r : Result) (p : Pipeline) (l : Lifecycle)
    → ((conclude write failed r p l).1.pipe ≡ p) × ((conclude write failed r p l).0.ok ≡ r.ok)
unfolding conclude remember notify
conclude-pipe write failed r p l = ground arith

request_active-Matches :
    (expected : Option Revision) (e : Meets) (l : Lifecycle)
    → Matches l.pipe
    → Matches (request_active expected e l).1.pipe
unfolding request_active conclude remember notify
request_active-Matches expected e l h = ground (arith, activate-Matches e.start_error l.pipe h)

request_inactive-Matches :
    (e : Meets) (l : Lifecycle) → Matches l.pipe → Matches (request_inactive e l).1.pipe
unfolding request_inactive conclude remember notify
request_inactive-Matches e l h = ground (arith, deactivate-Matches true e.ending l.pipe h)

session_error-Matches :
    (index : ℕ) (e : Meets) (l : Lifecycle)
    → Matches l.pipe
    → Matches (session_error index e l).pipe
unfolding session_error remember notify
session_error-Matches index e l h = ground (arith, deactivate-Matches false e.ending l.pipe h)

pub event-Matches : (l : Lifecycle) (e : Event) → Matches l.pipe → Matches (event l e).pipe
unfolding event request
event-Matches l (requested to_active expected e) h = request_active-Matches expected e l h
event-Matches l (requested to_inactive expected e) h = request_inactive-Matches e l h
event-Matches l (requested (unknown name) expected e) h = h
event-Matches l (framed x) h = feed-Matches x l.pipe h
event-Matches l (bus_posted m) h = session_bus-Matches m l.pipe h
event-Matches l (error_reported index e) h = session_error-Matches index e l h
event-Matches l (stop_requested n) h = request_stop-Matches n l.pipe h

-- Whatever the requests, frames, bus messages, session errors and stops, in any order, from a state
-- in which it is so: the reported state is `active` exactly while a session is open, and
-- `inactive` exactly while none is.
pub events-Matches : (l : Lifecycle) (es : List Event) → Matches l.pipe → Matches (events l es).pipe
unfolding events
events-Matches l [] h = h
events-Matches l (e ∷ es) h = events-Matches (event l e) es (event-Matches l e h)
