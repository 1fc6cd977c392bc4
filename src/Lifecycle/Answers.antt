-- ===== src/Lifecycle/Answers.antt =====
-- What the answers of `request` in core-driver/cam_driver/lifecycle.py promise: idempotence, and
-- refusals that leave the recording alone.
use camera_service.Common.{◌≡◌, true, false, Option, arith}
use camera_service.Session.{is_none}
use camera_service.Pipeline.{State, inactive, active, Revision, activate, refusal}
use camera_service.Pipeline.Open.{Matches, deactivate_open}
use camera_service.Lifecycle.{
  Lifecycle, Transition, to_active, to_inactive, unknown, Meets, remember, notify, conclude,
  request_active, request_inactive, request,
}

-- The state that a transition leads to.
abbrev pub Reached : Transition → State → Type 0
Reached to_active s = s ≡ active
Reached to_inactive s = s ≡ inactive
Reached (unknown name) s = ⊥

request_reaches :
    (t : Transition) (expected : Option Revision) (e : Meets) (l : Lifecycle)
    → Matches l.pipe
    → (request t expected e l).0.ok ≡ true
    → Reached t (request t expected e l).1.pipe.lifecycle
unfolding request request_active request_inactive conclude remember notify activate refusal
request_reaches to_active expected e l h k = ground arith
request_reaches to_inactive expected e l h k = ground (arith, deactivate_open true e.ending l.pipe)
request_reaches (unknown name) expected e l h k = ground arith

request_same :
    (t : Transition) (expected : Option Revision) (e : Meets) (l : Lifecycle)
    → Reached t l.pipe.lifecycle
    → let (a, m) = request t expected e l in (a.ok ≡ true) × (a.noop ≡ true) × (m ≡ l)
unfolding request request_active request_inactive
request_same to_active expected e l h = ground arith
request_same to_inactive expected e l h = ground arith
request_same (unknown name) expected e l h = absurd h

-- Sending a request again that was answered with ok is no error: whatever it then meets and expects,
-- the answer is ok, it says that nothing was done, and the service is as it was.
request_again :
    (t : Transition) (expected expected' : Option Revision) (e e' : Meets) (l : Lifecycle)
    → Matches l.pipe
    → (request t expected e l).0.ok ≡ true
    → let m = (request t expected e l).1 in
      let (b, n) = request t expected' e' m in (b.ok ≡ true) × (b.noop ≡ true) × (n ≡ m)
request_again t expected expected' e e' l h k =
    request_same t expected' e' (request t expected e l).1 (request_reaches t expected e l h k)

-- A request that is refused, for whatever reason, gives its error, and leaves the state, the open
-- session, the attestations and the remembered state as they were.
request_refused :
    (t : Transition) (expected : Option Revision) (e : Meets) (l : Lifecycle)
    → Matches l.pipe
    → (request t expected e l).0.ok ≡ false
    → let (a, m) = request t expected e l in
      (is_none a.error ≡ false)
      × (m.pipe.lifecycle ≡ l.pipe.lifecycle)
      × (m.pipe.session ≡ l.pipe.session)
      × (m.pipe.attests ≡ l.pipe.attests)
      × (m.file ≡ l.file)
unfolding request request_active request_inactive conclude remember notify activate refusal
request_refused to_active expected e l h k = ground arith
request_refused to_inactive expected e l h k = ground (arith, deactivate_open true e.ending l.pipe)
request_refused (unknown name) expected e l h k = ground arith
