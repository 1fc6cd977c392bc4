-- ===== src/Session/Tests.antt =====
-- The theorems on a session of three frames: a delta frame, a key frame and a delta frame, in
-- Annex B, with a close that begins during the last push.
use camera_service.Common.{
  ℕ, ◌≡◌, ◌⊎◌, refl, true, false, Bool, none, some, List, [], ◌∷◌, ◌||◌, length, ltb,
}
use camera_service.Common.Int.{pos}
use camera_service.Common.Text.{codes, text_eq}
use camera_service.DropStats.{Summary, summary}
use camera_service.DropStats
use camera_service.Timestamps.{system}
use camera_service.Session.{
  push, refuses, gate, offer, apply_caps, over_bound, with_header, push_frame, accepted, skipped,
  flow_ok, Feed, Session, opened, kind_sync, note_caps, Frame, push_one, push_all, close_signal,
}
use camera_service.Keyframe.{
  is_sync_point, nal_headers, annexb_nal_headers, after_start_code, any_header, is_h264_idr,
  is_prefixed,
}
use camera_service.Keyframe.Caps.{parse_caps_kind}
use camera_service.Session.Push.{kept_frames, RunOutcome, push_all-RunOutcome, fed}
use camera_service.Session.Gate.{any_sync, push_all_gated}
use camera_service.Session.Close.{eos, close_join, reconcile, finish_close}
use camera_service.Session.Closing.{count_eos, one_if}
use camera_service.Session.Interleaving.{
  unclosed, signalled, joined, push_step, join_step, Steps, no_step, then_step, eos_once,
}
use camera_service.Session.Segments.{has, Ascending, reconcile-Ascending}
use camera_service.Session.Attested.{Finalized, attested}

abbrev no_drops : Summary
unfolding summary
no_drops = summary DropStats.new

abbrev room : Bool → Feed
room closes = record {
  block = true;
  max_bytes = 100;
  current_level_bytes = 0;
  header_error = none;
  flow = flow_ok;
  closing_meanwhile = closes;
}

abbrev full : Feed
full = record (room false) { block = false; current_level_bytes = 99 }

abbrev frame : Feed → ℕ → ℕ → Frame
frame f n nal = record {
  feed = f;
  payload = 0 ∷ 0 ∷ 1 ∷ nal ∷ 7 ∷ [];
  pts = pos n;
  stamp = record {
    frame_id = n;
    timestamp_ns = 10;
    source = system;
    system_ns = 10;
    camera_ns = 0;
    chunk_ns = none;
  };
  caps = some (codes "video/x-h264");
}

-- Header bytes of an IDR slice and of another one.
abbrev key : ℕ
key = 101

abbrev other : ℕ
other = 65

abbrev three : List Frame
three = frame (room false) 1 other ∷ frame (room false) 2 key ∷ frame (room true) 3 other ∷ []

abbrev session : Session
session = opened 0 true no_drops

two_accepted : (push_all three session).0 ≡ skipped ∷ accepted ∷ accepted ∷ []
unfolding push_all push_one push refuses gate note_caps kind_sync offer apply_caps over_bound
    with_header push_frame close_signal is_sync_point nal_headers annexb_nal_headers
    after_start_code any_header is_h264_idr is_prefixed parse_caps_kind text_eq
two_accepted = refl

push_all-RunOutcome_example :
    let (rs, t) = push_all three session in RunOutcome (kept_frames three rs) session t
push_all-RunOutcome_example = push_all-RunOutcome three session

push_all_gated_example :
    let t = (push_all three session).1 in
    ((t.await_key ≡ true) × (t.appsrc_calls ≡ session.appsrc_calls) × (t.frames ≡ session.frames))
    ⊎ ((t.await_key ≡ false) × (any_sync t.caps_kind three ≡ true))
push_all_gated_example = push_all_gated three session refl

-- The key frame, the delta frame with the close in it, and the join.
abbrev after_key : Session
after_key = (push_one (frame (room false) 2 key) session).1

abbrev after_close : Session
after_close = (push_one (frame (room true) 3 other) after_key).1

abbrev run : Steps true unclosed session joined (close_join true after_close)
unfolding push_one push refuses gate note_caps kind_sync offer apply_caps over_bound with_header
    push_frame close_signal is_sync_point nal_headers annexb_nal_headers after_start_code any_header
    is_h264_idr is_prefixed parse_caps_kind text_eq
run =
    then_step unclosed (signalled true) joined session after_close (close_join true after_close)
      (then_step unclosed unclosed (signalled true) session after_key after_close
        (then_step unclosed unclosed unclosed session session after_key (no_step unclosed session)
          (push_step (frame (room false) 2 key) session refl))
        (push_step (frame (room true) 3 other) after_key refl))
      (join_step true after_close)

eos_once_example :
    let t = close_join true after_close in
    (t.closed ≡ true) × (count_eos t.appsrc_calls ≡ one_if (ltb 0 t.frames))
eos_once_example = eos_once true true 0 no_drops (close_join true after_close) run

attested_example :
    let t = close_join true after_close in
    let (d, a, u) = finish_close true eos [] (true ∷ []) no_drops t in
    (u.pipeline ≡ false)
    × (a.frames_recorded ≡ length (fed t.appsrc_calls))
    × (a.truncated ≡ false
        → (a.error ≡ none)
          × ((a.frames_recorded ≡ 0) ⊎ ((count_eos t.appsrc_calls ≡ 1) × Finalized true eos t)))
attested_example =
    attested true true true 0 no_drops no_drops eos [] (true ∷ []) (close_join true after_close) run

reconcile-Ascending_example :
    let t = reconcile (codes "b" ∷ codes "a" ∷ codes "b" ∷ []) session in
    Ascending t.segments
    × ((a : List ℕ)
        → has a t.segments
          ≡ (has a session.segments || has a (codes "b" ∷ codes "a" ∷ codes "b" ∷ [])))
reconcile-Ascending_example = reconcile-Ascending (codes "b" ∷ codes "a" ∷ codes "b" ∷ []) session
