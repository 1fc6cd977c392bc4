-- ===== src/Session.antt =====
-- RecordingSession of core-driver/cam_driver/session.py: the feed of one recording session. The
-- session's GStreamer pipeline is outside the repository: what `push` asks of its appsrc is the
-- record `Feed`, an argument of each push, and what the session does to it is the list
-- `appsrc_calls`. A payload is its bytes. Files, clocks and logging are arguments or left out.
pub mod Close
pub mod Push
pub mod Gate
pub mod Closing
pub mod Interleaving
pub mod Segments
pub mod Attested
mod Tests
use camera_service.Common.{
  ℕ, ◌+◌, Bool, true, false, not, ◌&&◌, ◌||◌, Option, none, some, List, [], ◌∷◌, ◌++◌, length, ltb,
  if◌then◌else◌,
}
use camera_service.Common.Int.{ℤ}
use camera_service.Common.Text.{codes}
use camera_service.DropStats.{Summary}
use camera_service.Timestamps.{FrameStamp}
use camera_service.Keyframe.{is_sync_point}
use camera_service.Keyframe.Caps.{CapsKind, parse_caps_kind}
use camera_service.Sidecar
use camera_service.Sidecar.{Sidecar}

pub data PushResult : Type 0 where
  accepted dropped skipped : PushResult

-- Gst.FlowReturn, as far as the code tells its values apart.
pub data Flow : Type 0 where
  flow_ok flow_eos flow_other : Flow

pub data AppsrcCall : Type 0 where
  set_caps : List ℕ → AppsrcCall
  push_buffer : List ℕ → ℤ → ℕ → Flow → AppsrcCall
  end_of_stream : AppsrcCall

-- What one push meets: the appsrc's properties and answer, an OSError of the header write, and
-- whether a close began while `push-buffer` was waiting.
pub record Feed : Type 0 where
  pub block : Bool
  pub max_bytes : ℕ
  pub current_level_bytes : ℕ
  pub header_error : Option (List ℕ)
  pub flow : Flow
  pub closing_meanwhile : Bool

-- `pipeline` says whether `_pipeline`, `_appsrc` and `_bus` are set: they are set and cleared
-- together. `has_on_error` says whether there is a callback, `reports` counts its idle_add calls.
pub record Session : Type 0 where
  pub index : ℕ
  pub sidecar : Sidecar
  pub has_header : Bool
  pub pipeline : Bool
  pub closing : Bool
  pub closed : Bool
  pub await_key : Bool
  pub caps_applied : Bool
  pub caps_kind : Option CapsKind
  pub eos_seen : Bool
  pub frames : ℕ
  pub skipped_awaiting_keyframe : ℕ
  pub first_pts : Option ℤ
  pub first_stamp : Option FrameStamp
  pub error : Option (List ℕ)
  pub truncated : Bool
  pub segments : List (List ℕ)
  pub open_fragment : Option (List ℕ)
  pub drops_at_start : Option Summary
  pub has_on_error : Bool
  pub reports : ℕ
  pub appsrc_calls : List AppsrcCall

-- A session that `start` has opened: `encoded` is that of the constructor.
abbrev pub opened : ℕ → Bool → Summary → Session
opened index encoded drops_now = record {
  index = index;
  sidecar = Sidecar.start Sidecar.new;
  has_header = false;
  pipeline = true;
  closing = false;
  closed = false;
  await_key = encoded;
  caps_applied = false;
  caps_kind = none;
  eos_seen = false;
  frames = 0;
  skipped_awaiting_keyframe = 0;
  first_pts = none;
  first_stamp = none;
  error = none;
  truncated = false;
  segments = [];
  open_fragment = none;
  drops_at_start = some drops_now;
  has_on_error = true;
  reports = 0;
  appsrc_calls = [];
}

abbrev pub is_none {ℓ} : {A : Type ℓ} → Option A → Bool
is_none none = true
is_none (some a) = false

unfoldable pub record_error : List ℕ → Session → Session
record_error error s = elim s.error [
  | some e ↦ s
  | none ↦ record s {
    error = some error;
    reports = if s.has_on_error then s.reports + 1 else s.reports;
  }
]

-- The first test of `push`.
unfoldable pub refuses : Session → Bool
refuses s = s.closing || s.closed || not (is_none s.error) || not s.pipeline

-- `if self._caps_kind is None and caps_str`
unfoldable pub note_caps : Option (List ℕ) → Session → Session
note_caps none s = s
note_caps (some []) s = s
note_caps (some (c ∷ cs)) s =
    if is_none s.caps_kind
    then record s { caps_kind = some (parse_caps_kind (some (c ∷ cs))) }
    else s

-- `self._caps_kind or (None, None, 4)`
unfoldable pub kind_sync : Option CapsKind → List ℕ → Bool
kind_sync none payload = is_sync_point none payload none 4
kind_sync (some k) payload = is_sync_point k.media payload k.stream_format k.nal_length_size

unfoldable pub apply_caps : Option (List ℕ) → Session → Session
apply_caps none s = s
apply_caps (some []) s = s
apply_caps (some (c ∷ cs)) s =
    if s.caps_applied
    then s
    else record s { caps_applied = true; appsrc_calls = s.appsrc_calls ++ set_caps (c ∷ cs) ∷ [] }

unfoldable pub over_bound : Feed → List ℕ → Bool
over_bound f payload =
    not f.block && ltb 0 f.max_bytes && ltb f.max_bytes (f.current_level_bytes + length payload)

-- `begin_close` up to the feed lock: `_closing`, and the EOS that wakes a push blocked on a full
-- queue. Returns `eos_sent`.
unfoldable pub close_signal : Bool → Session → Bool × Session
close_signal block s =
    let eos = s.pipeline && ltb 0 s.frames && block in
    (
      eos,
      record s {
        closing = true;
        appsrc_calls = if eos then s.appsrc_calls ++ end_of_stream ∷ [] else s.appsrc_calls;
      },
    )

-- `push-buffer` and what follows it. A close that began meanwhile has run its first half.
unfoldable pub push_frame : Feed → List ℕ → ℤ → FrameStamp → Session → PushResult × Session
push_frame f payload pts stamp s =
    let waiting : Session = record s {
      appsrc_calls = s.appsrc_calls ++ push_buffer payload pts stamp.frame_id f.flow ∷ [];
    } in
    let s' = if f.closing_meanwhile then (close_signal f.block waiting).1 else waiting in
    elim f.flow [
      | flow_ok ↦ (
        accepted,
        record s' { frames = s'.frames + 1; sidecar = Sidecar.add stamp pts s'.sidecar },
      )
      | flow_eos ↦ (if s'.closing then skipped else dropped, s')
      | flow_other ↦ (dropped, s')
    ]

-- The sidecar header, written on the first frame that gets here.
unfoldable pub with_header : Feed → List ℕ → ℤ → FrameStamp → Session → PushResult × Session
with_header f payload pts stamp s = elim s.first_pts [
  | some p ↦ push_frame f payload pts stamp s
  | none ↦
      let s' : Session = record s { first_pts = some pts; first_stamp = some stamp } in
      elim f.header_error [
        | some e ↦ (dropped, record_error (codes "sidecar header write failed: " ++ e) s')
        | none ↦ push_frame f payload pts stamp (record s' { has_header = true })
      ]
]

unfoldable pub offer :
    Feed → List ℕ → ℤ → FrameStamp → Option (List ℕ) → Session → PushResult × Session
offer f payload pts stamp caps_str s =
    let s' = apply_caps caps_str s in
    if over_bound f payload then (dropped, s') else with_header f payload pts stamp s'

-- The gate of a stream-copy session that has not seen a sync point yet.
unfoldable pub gate :
    Feed → List ℕ → ℤ → FrameStamp → Option (List ℕ) → Session → PushResult × Session
gate f payload pts stamp caps_str s =
    let s' = note_caps caps_str s in
    if kind_sync s'.caps_kind payload
    then offer f payload pts stamp caps_str (record s' { await_key = false })
    else (skipped, record s' { skipped_awaiting_keyframe = s'.skipped_awaiting_keyframe + 1 })

unfoldable pub push :
    Feed → List ℕ → ℤ → FrameStamp → Option (List ℕ) → Session → PushResult × Session
push f payload pts stamp caps_str s =
    if refuses s
    then (skipped, s)
    else if s.await_key
    then gate f payload pts stamp caps_str s
    else offer f payload pts stamp caps_str s

-- One call of `push`, and a run of them.
pub record Frame : Type 0 where
  pub feed : Feed
  pub payload : List ℕ
  pub pts : ℤ
  pub stamp : FrameStamp
  pub caps : Option (List ℕ)

unfoldable pub push_one : Frame → Session → PushResult × Session
push_one x s = push x.feed x.payload x.pts x.stamp x.caps s

unfoldable pub push_all : List Frame → Session → List PushResult × Session
push_all [] s = ([], s)
push_all (x ∷ xs) s = let (r, s') = push_one x s in let (rs, s'') = push_all xs s' in (r ∷ rs, s'')
