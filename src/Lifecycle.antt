-- ===== src/Lifecycle.antt =====
-- The lifecycle policy of core-driver/cam_driver/lifecycle.py over the pipeline's sessions: which
-- requests are legal, and the remembered state. A request is one step, as on the main loop; `write`
-- says whether the state file could be written. Observers are counted, clocks and logging left out;
-- the run id only labels files.
pub mod Remembered
pub mod Honest
pub mod RunId
pub mod Answers
mod Tests
use camera_service.Common.{
  ℕ, ◌+◌, Bool, true, false, not, ◌&&◌, ◌||◌, Option, none, some, List, [], ◌∷◌, ◌++◌,
  if◌then◌else◌,
}
use camera_service.Common.Text.{codes, text_eq}
use camera_service.DropStats.{Summary}
use camera_service.Session.{Frame}
use camera_service.Session.Close.{Description, BusMessage}
use camera_service.Pipeline.{
  State, inactive, activating, active, deactivating, Revision, Pipeline, Result, refusal, activate,
  deactivate, Ending, is_open, feed, session_bus, request_stop, settings_changed,
}

-- `file` is what the state file holds, if it is there.
pub record Lifecycle : Type 0 where
  pub pipe : Pipeline
  pub recording_enabled : Bool
  pub initial_state : State
  pub resume : Bool
  pub file : Option State
  pub boot_reason : Option (List ℕ)
  pub last_error : Option (List ℕ)
  pub notified : ℕ

-- A name that is no transition, quoted, or one of the two.
pub data Transition : Type 0 where
  to_active to_inactive : Transition
  unknown : List ℕ → Transition

-- The answer to a request, without its descriptor.
pub record Answer : Type 0 where
  pub ok : Bool
  pub state : State
  pub error : Option (List ℕ)
  pub noop : Bool
  pub session : Option Description

abbrev pub same_state : State → State → Bool
same_state inactive inactive = true
same_state activating activating = true
same_state active active = true
same_state deactivating deactivating = true
same_state _ _ = false

abbrev pub state_name : State → List ℕ
state_name inactive = codes "inactive"
state_name activating = codes "activating"
state_name active = codes "active"
state_name deactivating = codes "deactivating"

-- The constructor: `has_file` says whether a state file is configured.
unfoldable pub create : Pipeline → Bool → State → Bool → Bool → Option State → Lifecycle
create pipe recording_enabled initial_state has_file resume file = record {
  pipe = pipe;
  recording_enabled = recording_enabled;
  initial_state = if same_state initial_state inactive then inactive else active;
  resume = resume && has_file;
  file = file;
  boot_reason = none;
  last_error = none;
  notified = 0;
}

unfoldable pub notify : Lifecycle → Lifecycle
notify l = record l { notified = l.notified + 1 }

unfoldable pub remember : Bool → State → Lifecycle → Lifecycle
remember write s l = if l.resume && write then record l { file = some s } else l

unfoldable pub forget : Bool → Lifecycle → Lifecycle
forget removed l = if l.resume && removed then record l { file = none } else l

-- A file that cannot be read, or that holds another word, is the same as none.
unfoldable pub recall : Lifecycle → Option State
recall l =
    if l.resume
    then elim l.file [ some inactive ↦ some inactive | some active ↦ some active | _ ↦ none ]
    else none

abbrev refuse : List ℕ → Lifecycle → Answer × Lifecycle
refuse e l = (
  record { ok = false; state = l.pipe.lifecycle; error = some e; noop = false; session = none },
  l,
)

abbrev idle : Lifecycle → Answer × Lifecycle
idle l =
    (record { ok = true; state = l.pipe.lifecycle; error = none; noop = true; session = none }, l)

abbrev or_else : Option (List ℕ) → Option (List ℕ) → Option (List ℕ)
or_else none d = d
or_else (some e) d = some e

abbrev error_of : Option Description → Option (List ℕ)
error_of none = none
error_of (some d) = d.error

-- What `request` does with the result of the pipeline.
unfoldable pub conclude : Bool → List ℕ → Result → Pipeline → Lifecycle → Answer × Lifecycle
conclude write failed r p l =
    let err = or_else r.error (error_of r.session) in
    let l' : Lifecycle = record l {
      pipe = p;
      last_error = if r.ok then err else or_else err (some failed);
    } in
    (
      record { ok = r.ok; state = p.lifecycle; error = err; noop = false; session = r.session },
      notify (if r.ok then remember write p.lifecycle l' else l'),
    )

-- What a request meets: the outcome of a session's start, or of its end.
pub record Meets : Type 0 where
  pub start_error : Option (List ℕ)
  pub ending : Ending
  pub write : Bool

abbrev changed : Option Revision → Pipeline → Bool
unfolding settings_changed
changed none p = false
changed (some expected) p = settings_changed expected p

unfoldable pub request_active : Option Revision → Meets → Lifecycle → Answer × Lifecycle
unfolding changed
request_active expected e l =
    if same_state l.pipe.lifecycle active
    then idle l
    else if not (same_state l.pipe.lifecycle inactive)
    then refuse (codes "cannot activate from " ++ state_name l.pipe.lifecycle) l
    else if not l.recording_enabled
    then refuse (codes "recording disabled by config") l
    else if changed expected l.pipe
    then refuse (codes "recording settings changed; refresh and review before retrying") l
    else let (r, p) = activate e.start_error l.pipe in
      conclude e.write (codes "activate failed") r p l

unfoldable pub request_inactive : Meets → Lifecycle → Answer × Lifecycle
request_inactive e l =
    if same_state l.pipe.lifecycle inactive
    then idle l
    else if not (same_state l.pipe.lifecycle active)
    then refuse (codes "cannot deactivate from " ++ state_name l.pipe.lifecycle) l
    else let (r, p) = deactivate true e.ending l.pipe in
      conclude e.write (codes "deactivate failed") r p l

unfoldable pub request : Transition → Option Revision → Meets → Lifecycle → Answer × Lifecycle
request to_active expected e l = request_active expected e l
request to_inactive expected e l = request_inactive e l
request (unknown name) expected e l = refuse (codes "unknown transition " ++ name) l

-- `resolve_boot_state` and `boot`.
unfoldable pub resolve_boot_state : Lifecycle → State × List ℕ
resolve_boot_state l =
    if not l.recording_enabled then (inactive, codes "derived") else elim (recall l) [
      | some s ↦ (s, codes "resumed")
      | none ↦ (l.initial_state, codes "config")
    ]

unfoldable pub boot : Meets → Lifecycle → Bool × Lifecycle
boot e l =
    let (s, reason) = resolve_boot_state l in
    let l' : Lifecycle = record l { boot_reason = some reason } in
    if same_state s active
    then (let (a, l'') = request to_active none e l' in (a.ok, l''))
    else (true, notify l')

-- `_on_session_error` of the pipeline with its hook, `_on_uncommanded_end`.
unfoldable pub session_error : ℕ → Meets → Lifecycle → Lifecycle
session_error index e l =
    if not (is_open index l.pipe.session) || l.pipe.stopping
    then l
    else let (r, p) = deactivate false e.ending l.pipe in
      let l' : Lifecycle = record l {
        pipe = record p { fatal = p.fatal || p.session_error_fatal };
        last_error =
            or_else (or_else r.error (error_of r.session))
              (some (codes "recording session ended on an error"));
      } in
      notify (remember e.write inactive l')

-- What happens to a service that runs: requests, frames, messages of the session's bus, the report
-- of a session's error, and the clean stop.
pub data Event : Type 0 where
  requested : Transition → Option Revision → Meets → Event
  framed : Frame → Event
  bus_posted : BusMessage → Event
  error_reported : ℕ → Meets → Event
  stop_requested : Ending → Event

unfoldable pub event : Lifecycle → Event → Lifecycle
event l (requested t expected e) = (request t expected e l).1
event l (framed x) = record l { pipe = feed x l.pipe }
event l (bus_posted m) = record l { pipe = session_bus m l.pipe }
event l (error_reported index e) = session_error index e l
event l (stop_requested n) = record l { pipe = request_stop n l.pipe }

unfoldable pub events : Lifecycle → List Event → Lifecycle
events l [] = l
events l (e ∷ es) = events (event l e) es
