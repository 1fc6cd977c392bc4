-- ===== src/Pipeline/Open.antt =====
-- The lifecycle state of core-driver/cam_driver/pipeline.py against its open session.
use camera_service.Common.{◌≡◌, ◌⊎◌, Bool, true, false, Option, List, arith, ℕ}
use camera_service.Session.{Frame, is_none}
use camera_service.Session.Close.{BusMessage}
use camera_service.Pipeline.{
  inactive, active, Pipeline, activate, deactivate, Ending, close_session, count_push, feed,
  session_bus, request_stop,
}

-- Between two steps of the main loop the state is `active` while a session is open, and `inactive`
-- while none is.
abbrev pub Matches : Pipeline → Type 0
Matches p =
    ((p.lifecycle ≡ active) × (is_none p.session ≡ false))
    ⊎ ((p.lifecycle ≡ inactive) × (is_none p.session ≡ true))

pub activate-Matches :
    (start_error : Option (List ℕ)) (p : Pipeline) → Matches p → Matches (activate start_error p).1
unfolding activate
activate-Matches start_error p h = ground arith

pub deactivate-Matches :
    (wait : Bool) (n : Ending) (p : Pipeline) → Matches p → Matches (deactivate wait n p).1
unfolding deactivate
deactivate-Matches wait n p h = ground arith

pub feed-Matches : (x : Frame) (p : Pipeline) → Matches p → Matches (feed x p)
unfolding feed count_push
feed-Matches x p h = ground arith

pub session_bus-Matches : (m : BusMessage) (p : Pipeline) → Matches p → Matches (session_bus m p)
unfolding session_bus
session_bus-Matches m p h = ground arith

pub request_stop-Matches : (n : Ending) (p : Pipeline) → Matches p → Matches (request_stop n p)
unfolding request_stop
request_stop-Matches n p h = ground arith

-- A deactivation of an open session succeeds, whatever its end meets, and leaves none open.
pub deactivate_open :
    (wait : Bool) (n : Ending) (p : Pipeline)
    → is_none p.session ≡ false
    → let (r, q) = deactivate wait n p in (r.ok ≡ true) × (q.lifecycle ≡ inactive)
unfolding deactivate close_session
deactivate_open wait n p h = ground arith
