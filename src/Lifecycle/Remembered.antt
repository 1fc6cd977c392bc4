-- ===== src/Lifecycle/Remembered.antt =====
-- The remembered state of core-driver/cam_driver/lifecycle.py: what a restart after a crash finds.
use camera_service.Common.{
  sym, subst, ◌≡◌, ◌∙◌, ◌⊎◌, true, false, Option, none, some, List, [], ◌∷◌, All, arith, ℕ,
}
use camera_service.Session.{is_none}
use camera_service.Pipeline.{
  State, inactive, active, Pipeline, Revision, activate, refusal, count_push, feed, session_bus,
}
use camera_service.Pipeline.Open.{Matches, deactivate_open}
use camera_service.Lifecycle.{
  Lifecycle, to_active, to_inactive, unknown, Meets, remember, notify, conclude, recall,
  request_active, request_inactive, request, session_error, Event, requested, framed, bus_posted,
  error_reported, stop_requested, event, events, create, boot, resolve_boot_state,
}
use camera_service.Lifecycle.Honest.{event-Matches, events-Matches}

-- The service runs with a state file, which is not there or holds the reported state.
abbrev pub Remembers : Lifecycle → Type 0
Remembers l = (l.resume ≡ true) × ((l.file ≡ none) ⊎ (l.file ≡ some l.pipe.lifecycle))

-- The state file could be written, and it is no clean stop, which forgets the state.
abbrev pub Crashes : Event → Type 0
Crashes (requested t expected e) = e.write ≡ true
Crashes (framed x) = Unit
Crashes (bus_posted m) = Unit
Crashes (error_reported index e) = e.write ≡ true
Crashes (stop_requested n) = ⊥

-- A refusal by the pipeline does not change its state.
activate_refused :
    (start_error : Option (List ℕ)) (e : Meets) (p : Pipeline)
    → Matches p
    → let (r, q) = activate start_error p in
      r.ok ≡ false → (q.lifecycle ≡ p.lifecycle) × (q.session ≡ p.session)
unfolding activate refusal
activate_refused start_error e p h k = ground arith

request_active-Remembers :
    (expected : Option Revision) (e : Meets) (l : Lifecycle)
    → e.write ≡ true
    → Matches l.pipe
    → Remembers l
    → Remembers (request_active expected e l).1
unfolding request_active conclude remember notify
request_active-Remembers expected e l w h r =
    ground (arith, activate_refused e.start_error e l.pipe h)

request_inactive-Remembers :
    (e : Meets) (l : Lifecycle)
    → e.write ≡ true
    → Matches l.pipe
    → Remembers l
    → Remembers (request_inactive e l).1
unfolding request_inactive conclude remember notify
request_inactive-Remembers e l w h r = ground (arith, deactivate_open true e.ending l.pipe)

session_error-Remembers :
    (index : ℕ) (e : Meets) (l : Lifecycle)
    → e.write ≡ true
    → Matches l.pipe
    → Remembers l
    → Remembers (session_error index e l)
unfolding session_error remember notify
session_error-Remembers index e l w h r = ground (arith, deactivate_open false e.ending l.pipe)

event-Remembers :
    (l : Lifecycle) (e : Event) → Crashes e → Matches l.pipe → Remembers l → Remembers (event l e)
unfolding event request feed count_push session_bus
event-Remembers l (requested to_active expected e) w h r =
    request_active-Remembers expected e l w h r
event-Remembers l (requested to_inactive expected e) w h r = request_inactive-Remembers e l w h r
event-Remembers l (requested (unknown name) expected e) w h r = r
event-Remembers l (framed x) w h r = ground arith
event-Remembers l (bus_posted m) w h r = ground arith
event-Remembers l (error_reported index e) w h r = session_error-Remembers index e l w h r
event-Remembers l (stop_requested n) w h r = absurd w

events-Remembers :
    (l : Lifecycle) (es : List Event)
    → All Crashes es
    → Matches l.pipe
    → Remembers l
    → Remembers (events l es)
unfolding events
events-Remembers l [] w h r = r
events-Remembers l (e ∷ es) (w, ws) h r =
    events-Remembers (event l e) es ws (event-Matches l e h) (event-Remembers l e w h r)

-- A pipeline that was just built, in a service that may record.
pub record Fresh (p : Pipeline) : Type 0 where
  pub enabled : p.enabled ≡ true
  pub desc_probe : p.desc_probe ≡ true
  pub stopping : p.stopping ≡ false
  pub lifecycle : p.lifecycle ≡ inactive
  pub session : is_none p.session ≡ true

boot_recalled :
    (e : Meets) (p : Pipeline) (initial s : State)
    → Fresh p
    → e.start_error ≡ none
    → (s ≡ active) ⊎ (s ≡ inactive)
    → let (booted, m) = boot e (create p true initial true true (some s)) in
      (booted ≡ true) × (m.pipe.lifecycle ≡ s) × Matches m.pipe
unfolding boot create resolve_boot_state recall request request_active conclude remember notify
    activate
boot_recalled e p initial s f k h =
    ground (arith, f.enabled, f.desc_probe, f.stopping, f.lifecycle, f.session)

-- A service that runs with a state file it can write, from a state in which the file is not there
-- or holds the reported state, and that crashes after any requests, frames, bus messages and session
-- errors: if the file is there, a restart of the service whose pipeline can open a session boots,
-- whatever its configured initial state, into the state in which the crash found it, with a session
-- open exactly if that state is `active`.
pub restart_resumes :
    (l : Lifecycle) (es : List Event) (e : Meets) (p : Pipeline) (initial s : State)
    → All Crashes es
    → Matches l.pipe
    → Remembers l
    → (events l es).file ≡ some s
    → Fresh p
    → e.start_error ≡ none
    → let crashed = events l es in
      let (booted, m) = boot e (create p true initial true true crashed.file) in
      (booted ≡ true) × (m.pipe.lifecycle ≡ crashed.pipe.lifecycle) × Matches m.pipe
restart_resumes l es e p initial s w h r k f o =
    let crashed = events l es in
    let same : s ≡ crashed.pipe.lifecycle = ground (arith, k, events-Remembers l es w h r) in
    let b = boot_recalled e p initial s f o (ground (arith, same, events-Matches l es h)) in
    subst
      (λ (x : Option State).
        ((boot e (create p true initial true true x)).0 ≡ true)
        × ((boot e (create p true initial true true x)).1.pipe.lifecycle ≡ crashed.pipe.lifecycle)
        × Matches (boot e (create p true initial true true x)).1.pipe)
      (sym k) (b.0, b.1 ∙ same, b.2)
