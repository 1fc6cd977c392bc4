-- ===== src/Session/Push.antt =====
-- What each push does to the session's accounting: the frame counter, the sidecar and the muxer see
-- the same frames.
use mathlib.Core.List.{append_assoc, append-nil}
use camera_service.Common.{
  ℕ, ◌+◌, ◌≡◌, refl, sym, ◌∙◌, ap, Bool, true, false, Option, none, some, List, [], ◌∷◌, ◌++◌,
  length, arith, Bool-cases, inl, inr,
}
use camera_service.Common.Int.{ℤ}
use camera_service.Timestamps.{FrameStamp}
use camera_service.Sidecar
use camera_service.Sidecar.{Sidecar}
use camera_service.Session.{
  PushResult, accepted, dropped, skipped, flow_ok, flow_eos, flow_other, AppsrcCall, set_caps,
  push_buffer, end_of_stream, Feed, Session, record_error, note_caps, kind_sync, apply_caps,
  over_bound, close_signal, push_frame, with_header, offer, gate, push, Frame, push_one, push_all,
}

-- A buffer that the appsrc took: its frame id and its PTS.
abbrev pub Fed : Type 0
Fed = ℕ × ℤ

-- The buffers that the appsrc took, in order.
abbrev pub fed : List AppsrcCall → List Fed
fed [] = []
fed (push_buffer p pts frame_id flow_ok ∷ cs) = (frame_id, pts) ∷ fed cs
fed (push_buffer p pts frame_id flow_eos ∷ cs) = fed cs
fed (push_buffer p pts frame_id flow_other ∷ cs) = fed cs
fed (set_caps c ∷ cs) = fed cs
fed (end_of_stream ∷ cs) = fed cs

-- What one result adds to the frame counter, to the sidecar and to the buffers taken.
abbrev pub bump : PushResult → ℕ → ℕ
bump accepted n = n + 1
bump _ n = n

abbrev pub logged : PushResult → FrameStamp → ℤ → Sidecar → Sidecar
logged accepted stamp pts sc = Sidecar.add stamp pts sc
logged _ stamp pts sc = sc

abbrev pub fed_by : PushResult → FrameStamp → ℤ → List Fed
fed_by accepted stamp pts = (stamp.frame_id, pts) ∷ []
fed_by _ stamp pts = []

pub record Outcome (stamp : FrameStamp) (pts : ℤ) (s : Session) (r : PushResult) (t : Session)
    : Type 0 where
  pub frames : t.frames ≡ bump r s.frames
  pub sidecar : t.sidecar ≡ logged r stamp pts s.sidecar
  pub muxer : fed t.appsrc_calls ≡ fed s.appsrc_calls ++ fed_by r stamp pts

pub fed-append : (cs ds : List AppsrcCall) → fed (cs ++ ds) ≡ fed cs ++ fed ds
fed-append [] ds = refl
fed-append (push_buffer p pts i flow_ok ∷ cs) ds =
    ap (λ (l : List Fed). (i, pts) ∷ l) (fed-append cs ds)
fed-append (push_buffer p pts i flow_eos ∷ cs) ds = fed-append cs ds
fed-append (push_buffer p pts i flow_other ∷ cs) ds = fed-append cs ds
fed-append (set_caps c ∷ cs) ds = fed-append cs ds
fed-append (end_of_stream ∷ cs) ds = fed-append cs ds

-- Two sessions that agree on the accounting.
pub record SameCounts (s t : Session) : Type 0 where
  pub frames : t.frames ≡ s.frames
  pub sidecar : t.sidecar ≡ s.sidecar
  pub muxer : fed t.appsrc_calls ≡ fed s.appsrc_calls

note_caps-SameCounts : (c : Option (List ℕ)) (s : Session) → SameCounts s (note_caps c s)
unfolding note_caps
note_caps-SameCounts none s = record { frames = refl; sidecar = refl; muxer = refl }
note_caps-SameCounts (some []) s = record { frames = refl; sidecar = refl; muxer = refl }
note_caps-SameCounts (some (c ∷ cs)) s = ground arith

apply_caps-SameCounts : (c : Option (List ℕ)) (s : Session) → SameCounts s (apply_caps c s)
unfolding apply_caps
apply_caps-SameCounts none s = record { frames = refl; sidecar = refl; muxer = refl }
apply_caps-SameCounts (some []) s = record { frames = refl; sidecar = refl; muxer = refl }
apply_caps-SameCounts (some (c ∷ cs)) s =
    ground
      (arith, fed-append s.appsrc_calls (set_caps (c ∷ cs) ∷ []), append-nil (fed s.appsrc_calls))

pub close_signal-SameCounts : (block : Bool) (s : Session) → SameCounts s (close_signal block s).1
unfolding close_signal
close_signal-SameCounts block s =
    ground (arith, fed-append s.appsrc_calls (end_of_stream ∷ []), append-nil (fed s.appsrc_calls))

push_frame-Outcome :
    (f : Feed) (payload : List ℕ) (pts : ℤ) (stamp : FrameStamp) (s : Session)
    → let r = push_frame f payload pts stamp s in Outcome stamp pts s r.0 r.1
unfolding push_frame
push_frame-Outcome f payload pts stamp s =
    let waiting : Session = record s {
      appsrc_calls = s.appsrc_calls ++ push_buffer payload pts stamp.frame_id f.flow ∷ [];
    } in
    let c = close_signal-SameCounts f.block waiting in
    let m = fed-append s.appsrc_calls (push_buffer payload pts stamp.frame_id f.flow ∷ []) in
    ground (arith, m, c.frames, c.sidecar, c.muxer)

with_header-Outcome :
    (f : Feed) (payload : List ℕ) (pts : ℤ) (stamp : FrameStamp) (s : Session)
    → let r = with_header f payload pts stamp s in Outcome stamp pts s r.0 r.1
unfolding with_header record_error
with_header-Outcome f payload pts stamp s =
    let first : Session = record s { first_pts = some pts; first_stamp = some stamp } in
    ground (
      arith,
      push_frame-Outcome f payload pts stamp s,
      push_frame-Outcome f payload pts stamp (record first { has_header = true }),
      append-nil (fed s.appsrc_calls),
    )

SameCounts-Outcome :
    (stamp : FrameStamp) (pts : ℤ) (s s' : Session) (r : PushResult) (t : Session)
    → SameCounts s s'
    → Outcome stamp pts s' r t
    → Outcome stamp pts s r t
SameCounts-Outcome stamp pts s s' r t e h = record {
  frames = h.frames ∙ ap (bump r) e.frames;
  sidecar = h.sidecar ∙ ap (logged r stamp pts) e.sidecar;
  muxer = h.muxer ∙ ap (λ (l : List Fed). l ++ fed_by r stamp pts) e.muxer;
}

offer-Outcome :
    (f : Feed) (payload : List ℕ) (pts : ℤ) (stamp : FrameStamp) (c : Option (List ℕ)) (s : Session)
    → let r = offer f payload pts stamp c s in Outcome stamp pts s r.0 r.1
unfolding offer
offer-Outcome f payload pts stamp c s =
    let s' = apply_caps c s in
    let e = apply_caps-SameCounts c s in
    let later =
      SameCounts-Outcome stamp pts s s' (with_header f payload pts stamp s').0
        (with_header f payload pts stamp s').1 e (with_header-Outcome f payload pts stamp s') in
    elim (Bool-cases (over_bound f payload)) [
      | inl full ↦ rw full (record {
        frames = e.frames;
        sidecar = e.sidecar;
        muxer = e.muxer ∙ sym (append-nil (fed s.appsrc_calls));
      })
      | inr room ↦ rw room later
    ]

gate-Outcome :
    (f : Feed) (payload : List ℕ) (pts : ℤ) (stamp : FrameStamp) (c : Option (List ℕ)) (s : Session)
    → let r = gate f payload pts stamp c s in Outcome stamp pts s r.0 r.1
unfolding gate
gate-Outcome f payload pts stamp c s =
    let s' = note_caps c s in
    let e = note_caps-SameCounts c s in
    let open' : Session = record s' { await_key = false } in
    let later =
      SameCounts-Outcome stamp pts s s' (offer f payload pts stamp c open').0
        (offer f payload pts stamp c open').1 e
        (let o = offer-Outcome f payload pts stamp c open' in
          record { frames = o.frames; sidecar = o.sidecar; muxer = o.muxer }) in
    elim (Bool-cases (kind_sync s'.caps_kind payload)) [
      | inl sync ↦ rw sync later
      | inr wait ↦ rw wait (record {
        frames = e.frames;
        sidecar = e.sidecar;
        muxer = e.muxer ∙ sym (append-nil (fed s.appsrc_calls));
      })
    ]

-- Whatever the state and the appsrc's answers, a push counts a frame, hands the sidecar its row
-- and adds a buffer to those the appsrc took exactly if it returns `accepted`.
pub push-Outcome :
    (x : Frame) (s : Session) → let r = push_one x s in Outcome x.stamp x.pts s r.0 r.1
unfolding push push_one
push-Outcome x s = ground (
  arith,
  gate-Outcome x.feed x.payload x.pts x.stamp x.caps s,
  offer-Outcome x.feed x.payload x.pts x.stamp x.caps s,
  append-nil (fed s.appsrc_calls),
)

-- The frames of a run that were accepted, by the results.
abbrev pub kept_frames : List Frame → List PushResult → List Frame
kept_frames [] rs = []
kept_frames (x ∷ xs) [] = []
kept_frames (x ∷ xs) (accepted ∷ rs) = x ∷ kept_frames xs rs
kept_frames (x ∷ xs) (dropped ∷ rs) = kept_frames xs rs
kept_frames (x ∷ xs) (skipped ∷ rs) = kept_frames xs rs

abbrev pub add_all : List Frame → Sidecar → Sidecar
add_all [] sc = sc
add_all (x ∷ xs) sc = add_all xs (Sidecar.add x.stamp x.pts sc)

abbrev pub fed_of : List Frame → List Fed
fed_of [] = []
fed_of (x ∷ xs) = (x.stamp.frame_id, x.pts) ∷ fed_of xs

-- What a run of pushes leaves in a session, when `kept` are the accepted frames.
pub record RunOutcome (kept : List Frame) (s t : Session) : Type 0 where
  pub frames : t.frames ≡ s.frames + length kept
  pub sidecar : t.sidecar ≡ add_all kept s.sidecar
  pub muxer : fed t.appsrc_calls ≡ fed s.appsrc_calls ++ fed_of kept

then_run :
    (x : Frame) (r : PushResult) (xs : List Frame) (rs : List PushResult) (s t u : Session)
    → Outcome x.stamp x.pts s r t
    → RunOutcome (kept_frames xs rs) t u
    → RunOutcome (kept_frames (x ∷ xs) (r ∷ rs)) s u
then_run x accepted xs rs s t u o h = record {
  frames = omega (arith, o.frames, h.frames);
  sidecar = h.sidecar ∙ ap (add_all (kept_frames xs rs)) o.sidecar;
  muxer =
      h.muxer
      ∙ ap (λ (l : List Fed). l ++ fed_of (kept_frames xs rs)) o.muxer
      ∙ append_assoc (fed s.appsrc_calls) ((x.stamp.frame_id, x.pts) ∷ [])
          (fed_of (kept_frames xs rs));
}
then_run x dropped xs rs s t u o h = record {
  frames = omega (arith, o.frames, h.frames);
  sidecar = h.sidecar ∙ ap (add_all (kept_frames xs rs)) o.sidecar;
  muxer =
      h.muxer
      ∙ ap (λ (l : List Fed). l ++ fed_of (kept_frames xs rs))
          (o.muxer ∙ append-nil (fed s.appsrc_calls));
}
then_run x skipped xs rs s t u o h = record {
  frames = omega (arith, o.frames, h.frames);
  sidecar = h.sidecar ∙ ap (add_all (kept_frames xs rs)) o.sidecar;
  muxer =
      h.muxer
      ∙ ap (λ (l : List Fed). l ++ fed_of (kept_frames xs rs))
          (o.muxer ∙ append-nil (fed s.appsrc_calls));
}

-- Over any run of pushes the frame counter, the sidecar and the muxer agree: the counter rises by
-- the number of accepted frames, the sidecar is handed the rows of exactly those frames, and the
-- buffers that the appsrc took are theirs, in the same order.
pub push_all-RunOutcome :
    (xs : List Frame) (s : Session)
    → let (rs, t) = push_all xs s in RunOutcome (kept_frames xs rs) s t
unfolding push_all
push_all-RunOutcome [] s = record {
  frames = omega arith;
  sidecar = refl;
  muxer = sym (append-nil (fed s.appsrc_calls));
}
push_all-RunOutcome (x ∷ xs) s =
    let (r, t) = push_one x s in
    let (rs, u) = push_all xs t in
    then_run x r xs rs s t u (push-Outcome x s) (push_all-RunOutcome xs t)
