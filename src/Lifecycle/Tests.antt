-- ===== src/Lifecycle/Tests.antt =====
-- The theorems on a service that records, meets an error, and starts again.
use camera_service.Common.{
  ℕ, ◌≤◌, length, ◌≡◌, inl, inr, refl, true, false, Option, none, some, List, [], ◌∷◌,
}
use camera_service.Common.Text.{codes}
use camera_service.DropStats
use camera_service.DropStats.{Summary, summary}
use camera_service.Session.Close.{eos}
use camera_service.Pipeline.{inactive, active, Pipeline, activate}
use camera_service.Pipeline.Open.{Matches}
use camera_service.Lifecycle.{
  Lifecycle, to_active, Meets, Event, requested, error_reported, stop_requested, request,
  request_active, conclude, remember, notify, event, events, create, boot,
}
use camera_service.Lifecycle.RunId.{
  sanitize_run_id, dashed, strip_left, strip_right, kept, Kept, PlainStart, sanitize_run_id_safe,
}
use camera_service.Lifecycle.Honest.{events-Matches}
use camera_service.Lifecycle.Remembered.{Fresh, restart_resumes}

abbrev no_drops : Summary
unfolding summary
no_drops = summary DropStats.new

abbrev pipe : Pipeline
pipe = record {
  enabled = true;
  desc_probe = true;
  stream_copy = false;
  stopping = false;
  lifecycle = inactive;
  session_seq = 0;
  session = none;
  progress_timer = false;
  view = none;
  session_error_fatal = false;
  fatal = false;
  drops = DropStats.new;
  attests = [];
}

abbrev service : Lifecycle
service = record {
  pipe = pipe;
  recording_enabled = true;
  initial_state = inactive;
  resume = true;
  file = none;
  boot_reason = none;
  last_error = none;
  notified = 0;
}

abbrev meets : Option (List ℕ) → Meets
meets start_error = record {
  start_error = start_error;
  ending = record { block = true; popped = eos; on_disk = []; works = [] };
  write = true;
}

abbrev fine : Meets
fine = meets none

-- A recording that is started is left by a crash.
abbrev started : List Event
started = requested to_active none fine ∷ []

abbrev one_error : List Event
one_error =
    requested to_active none fine
    ∷ error_reported 1 fine
    ∷ requested to_active none fine
    ∷ stop_requested (fine.ending)
    ∷ []

events-Matches_example : Matches (events service one_error).pipe
events-Matches_example = events-Matches service one_error (inr (refl, refl))

Fresh-pipe : Fresh pipe
Fresh-pipe = record {
  enabled = refl;
  desc_probe = refl;
  stopping = refl;
  lifecycle = refl;
  session = refl;
}

restart_resumes_example :
    let crashed = events service started in
    let (booted, m) = boot fine (create pipe true inactive true true crashed.file) in
    (booted ≡ true) × (m.pipe.lifecycle ≡ crashed.pipe.lifecycle) × Matches m.pipe
unfolding events event request request_active conclude remember notify activate
restart_resumes_example =
    restart_resumes service started fine pipe inactive active (refl, tt) (inr (refl, refl))
      (refl, inl refl) refl Fresh-pipe refl

sanitize_run_id_safe_example :
    let id = codes "run-7" in (1 ≤ length id) × (length id ≤ 64) × Kept id × PlainStart id
unfolding sanitize_run_id dashed strip_left strip_right kept
sanitize_run_id_safe_example = sanitize_run_id_safe (some (codes "../run 7")) (codes "run-7") refl
