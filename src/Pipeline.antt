-- ===== src/Pipeline.antt =====
-- The recording sessions of CapturePipeline in core-driver/cam_driver/pipeline.py: activate,
-- deactivate, the end of a session on an error, and the stop. They all run on the main loop, one
-- after another; frames come from the feed thread. The settings view is its generation and revision.
-- Building a session's description and snapshot is one outcome, `start_error`. Health windows, the
-- progress hook and logging are left out.
pub mod Open
use camera_service.Common.{
  ℕ, ◌+◌, Bool, true, false, not, ◌&&◌, ◌||◌, Option, none, some, List, [], ◌∷◌, ◌++◌, ◌==◌,
  if◌then◌else◌,
}
use camera_service.Common.Text.{codes, text_eq}
use camera_service.DropStats.{DropStats, summary, note_enqueue_failure}
use camera_service.Session.{
  PushResult, accepted, dropped, skipped, Session, opened, Frame, push_one, is_none,
}
use camera_service.Session.Close.{
  Popped, Description, Attest, begin_close, finish_close, describe, BusMessage, on_bus,
}

pub data State : Type 0 where
  inactive activating active deactivating : State

pub record Revision : Type 0 where
  pub generation : List ℕ
  pub revision : ℕ

-- `session_error_fatal`, `_fatal` and `_progress_timer` by their own names; `attests` are the
-- attestations written to the sidecars so far.
pub record Pipeline : Type 0 where
  pub enabled : Bool
  pub desc_probe : Bool
  pub stream_copy : Bool
  pub stopping : Bool
  pub lifecycle : State
  pub session_seq : ℕ
  pub session : Option Session
  pub progress_timer : Bool
  pub view : Option Revision
  pub session_error_fatal : Bool
  pub fatal : Bool
  pub drops : DropStats
  pub attests : List Attest

-- The dict that activate and deactivate return; its state is that of the pipeline.
pub record Result : Type 0 where
  pub ok : Bool
  pub error : Option (List ℕ)
  pub session : Option Description

unfoldable pub refusal : List ℕ → Result
refusal e = record { ok = false; error = some e; session = none }

unfoldable pub activate : Option (List ℕ) → Pipeline → Result × Pipeline
activate start_error p =
    if not p.enabled || not p.desc_probe
    then (refusal (codes "recording disabled by config"), p)
    else if p.stopping
    then (refusal (codes "stopping"), p)
    else if not (is_none p.session)
    then (refusal (codes "already recording"), p)
    else elim start_error [
      | some e ↦ (
        refusal (codes "session start failed: " ++ e),
        record p { lifecycle = inactive; session_seq = p.session_seq + 1 },
      )
      | none ↦
          let s = opened (p.session_seq + 1) p.stream_copy (summary p.drops) in
          (
            record { ok = true; error = none; session = some (describe s) },
            record p {
              lifecycle = active;
              session_seq = p.session_seq + 1;
              session = some s;
              progress_timer = true;
            },
          )
    ]

-- What a close meets: the appsrc's `block`, the bus, the disk and the writer's steps.
pub record Ending : Type 0 where
  pub block : Bool
  pub popped : Popped
  pub on_disk : List (List ℕ)
  pub works : List Bool

-- `_close_session_sync`: the result and what was attested.
unfoldable pub close_session : Bool → Ending → DropStats → Session → Result × Attest
close_session wait_eos n drops s =
    let (info, a, s') =
      finish_close wait_eos n.popped n.on_disk n.works (summary drops) (begin_close n.block s) in
    (record { ok = true; error = info.error; session = some info }, a)

unfoldable pub deactivate : Bool → Ending → Pipeline → Result × Pipeline
deactivate wait_eos n p = elim p.session [
  | none ↦ (refusal (codes "not recording"), p)
  | some s ↦
      let (r, a) = close_session wait_eos n p.drops s in
      (
        r,
        record p {
          lifecycle = inactive;
          session = none;
          progress_timer = false;
          attests = p.attests ++ a ∷ [];
        },
      )
]

-- `self._session is sess`: the sequence number tells the sessions apart.
abbrev pub is_open : ℕ → Option Session → Bool
is_open index none = false
is_open index (some s) = s.index == index

-- `_feed_recording`, and the count of what the recording lost.
unfoldable pub count_push : PushResult → Pipeline → Pipeline
count_push accepted p = p
count_push skipped p = p
count_push dropped p = record p { drops = note_enqueue_failure p.drops }

-- The feed thread, as far as the recording goes: `_session` is read once.
unfoldable pub feed : Frame → Pipeline → Pipeline
feed x p = if p.stopping then p else elim p.session [
  | none ↦ p
  | some s ↦ let (r, s') = push_one x s in count_push r (record p { session = some s' })
]

unfoldable pub session_bus : BusMessage → Pipeline → Pipeline
session_bus m p = elim p.session [ none ↦ p | some s ↦ record p { session = some (on_bus m s) } ]

-- `request_stop`, whose first close is repeated by that of `_close_session_sync`.
unfoldable pub request_stop : Ending → Pipeline → Pipeline
request_stop n p = if p.stopping then p else elim p.session [
  | none ↦ record p { stopping = true }
  | some s ↦ record p {
    stopping = true;
    session = none;
    lifecycle = inactive;
    attests = p.attests ++ (close_session true n p.drops (begin_close n.block s)).1 ∷ [];
  }
]

-- `check_recording_settings`: whether it raises.
unfoldable pub settings_changed : Revision → Pipeline → Bool
settings_changed expected p = elim p.view [
  | none ↦ true
  | some v ↦ not (text_eq expected.generation v.generation && expected.revision == v.revision)
]
