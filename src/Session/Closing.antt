-- ===== src/Session/Closing.antt =====
-- What a push and a bus message do to the fields that `begin_close` reads and writes in
-- core-driver/cam_driver/session.py: `_closing`, `closed`, the pipeline, the counter and EOS.
use camera_service.Common.{
  ℕ, suc, ◌+◌, ◌≤◌, ◌≡◌, ◌∙◌, ap, Bool, true, false, ◌&&◌, Option, none, some, List, [], ◌∷◌, ◌++◌,
  ◌⊎◌, ltb, arith, Bool-cases, inl, inr,
}
use camera_service.Common.Int.{ℤ}
use camera_service.Timestamps.{FrameStamp}
use camera_service.Session.{
  skipped, kind_sync, AppsrcCall, set_caps, push_buffer, end_of_stream, Feed, Session, record_error,
  refuses, note_caps, apply_caps, over_bound, close_signal, push_frame, with_header, offer, gate,
  push, Frame, push_one,
}
use camera_service.Session.Close.{BusMessage, on_bus}

-- How often EOS was sent.
abbrev pub count_eos : List AppsrcCall → ℕ
count_eos [] = 0
count_eos (end_of_stream ∷ cs) = suc (count_eos cs)
count_eos (set_caps c ∷ cs) = count_eos cs
count_eos (push_buffer p pts frame_id flow ∷ cs) = count_eos cs

pub count_eos-append : (a b : List AppsrcCall) → count_eos (a ++ b) ≡ count_eos a + count_eos b
count_eos-append [] b = omega arith
count_eos-append (end_of_stream ∷ a) b = omega (arith, count_eos-append a b)
count_eos-append (set_caps c ∷ a) b = count_eos-append a b
count_eos-append (push_buffer p pts frame_id flow ∷ a) b = count_eos-append a b

-- What does not touch the close at all.
pub record SameClose (s t : Session) : Type 0 where
  pub closing : t.closing ≡ s.closing
  pub closed : t.closed ≡ s.closed
  pub pipeline : t.pipeline ≡ s.pipeline
  pub frames : t.frames ≡ s.frames
  pub count : count_eos t.appsrc_calls ≡ count_eos s.appsrc_calls

note_caps-SameClose : (c : Option (List ℕ)) (s : Session) → SameClose s (note_caps c s)
unfolding note_caps
note_caps-SameClose c s = ground arith

apply_caps-SameClose : (c : Option (List ℕ)) (s : Session) → SameClose s (apply_caps c s)
unfolding apply_caps
apply_caps-SameClose none s = ground arith
apply_caps-SameClose (some []) s = ground arith
apply_caps-SameClose (some (c ∷ cs)) s =
    ground (arith, count_eos-append s.appsrc_calls (set_caps (c ∷ cs) ∷ []))

pub on_bus-SameClose : (m : BusMessage) (s : Session) → SameClose s (on_bus m s)
unfolding on_bus record_error
on_bus-SameClose m s = ground arith

-- The EOS that a close sends first.
abbrev pub eos_first : Bool → Session → Bool
eos_first block s = s.pipeline && ltb 0 s.frames && block

abbrev pub one_if : Bool → ℕ
one_if true = 1
one_if false = 0

-- A push: undisturbed, or with the first half of a close within it.
pub record Pushed (block : Bool) (s t : Session) : Type 0 where
  pub closed : t.closed ≡ s.closed
  pub pipeline : t.pipeline ≡ s.pipeline
  pub frames : s.frames ≤ t.frames
  pub close :
      ((t.closing ≡ s.closing) × (count_eos t.appsrc_calls ≡ count_eos s.appsrc_calls))
      ⊎ ((t.closing ≡ true)
          × (count_eos t.appsrc_calls ≡ count_eos s.appsrc_calls + one_if (eos_first block s)))

pub SameClose-Pushed :
    (block : Bool) (s s' t : Session) → SameClose s s' → Pushed block s' t → Pushed block s t
SameClose-Pushed block s s' t e h = record {
  closed = h.closed ∙ e.closed;
  pipeline = h.pipeline ∙ e.pipeline;
  frames = omega (arith, h.frames, e.frames);
  close = elim h.close [
    | inl (c, n) ↦ inl (c ∙ e.closing, n ∙ e.count)
    | inr (c, n) ↦ inr (
      c,
      n
          ∙ ap (λ (k : ℕ). k + one_if (eos_first block s')) e.count
          ∙ ap (λ (b : Bool). count_eos s.appsrc_calls + one_if (b && ltb 0 s'.frames && block))
              e.pipeline
          ∙ ap (λ (k : ℕ). count_eos s.appsrc_calls + one_if (s.pipeline && ltb 0 k && block))
              e.frames,
    )
  ];
}

SameClose-stays : (block : Bool) (s t : Session) → SameClose s t → Pushed block s t
SameClose-stays block s t e = record {
  closed = e.closed;
  pipeline = e.pipeline;
  frames = omega (arith, e.frames);
  close = inl (e.closing, e.count);
}

pub close_signal-Pushed :
    (block : Bool) (s : Session)
    → let (eos, t) = close_signal block s in
      (eos ≡ eos_first block s)
      × (t.closing ≡ true)
      × (t.closed ≡ s.closed)
      × (t.pipeline ≡ s.pipeline)
      × (t.frames ≡ s.frames)
      × (count_eos t.appsrc_calls ≡ count_eos s.appsrc_calls + one_if (eos_first block s))
unfolding close_signal
close_signal-Pushed block s = ground (arith, count_eos-append s.appsrc_calls (end_of_stream ∷ []))

push_frame-Pushed :
    (f : Feed) (payload : List ℕ) (pts : ℤ) (stamp : FrameStamp) (s : Session)
    → Pushed f.block s (push_frame f payload pts stamp s).1
unfolding push_frame
push_frame-Pushed f payload pts stamp s =
    let waiting : Session = record s {
      appsrc_calls = s.appsrc_calls ++ push_buffer payload pts stamp.frame_id f.flow ∷ [];
    } in
    let (eos, c, d, p, n, k) = close_signal-Pushed f.block waiting in
    let m = count_eos-append s.appsrc_calls (push_buffer payload pts stamp.frame_id f.flow ∷ []) in
    ground (arith, m, c, d, p, n, k)

with_header-Pushed :
    (f : Feed) (payload : List ℕ) (pts : ℤ) (stamp : FrameStamp) (s : Session)
    → Pushed f.block s (with_header f payload pts stamp s).1
unfolding with_header record_error
with_header-Pushed f payload pts stamp s =
    let first : Session = record s { first_pts = some pts; first_stamp = some stamp } in
    let a = push_frame-Pushed f payload pts stamp s in
    let b = push_frame-Pushed f payload pts stamp (record first { has_header = true }) in
    ground (arith, a.closed, a.pipeline, a.frames, a.close, b.closed, b.pipeline, b.frames, b.close)

offer-Pushed :
    (f : Feed) (payload : List ℕ) (pts : ℤ) (stamp : FrameStamp) (c : Option (List ℕ)) (s : Session)
    → Pushed f.block s (offer f payload pts stamp c s).1
unfolding offer
offer-Pushed f payload pts stamp c s =
    let s' = apply_caps c s in
    let e = apply_caps-SameClose c s in
    let w =
      SameClose-Pushed f.block s s' (with_header f payload pts stamp s').1 e
        (with_header-Pushed f payload pts stamp s') in
    elim (Bool-cases (over_bound f payload)) [
      | inl full ↦ rw full (SameClose-stays f.block s s' e)
      | inr room ↦ rw room w
    ]

reopen :
    (s t u : Session) (b : Bool)
    → SameClose s t
    → Pushed b (record t { await_key = false }) u
    → Pushed b s u
reopen s t u b e h =
    SameClose-Pushed b s (record t { await_key = false }) u
      (record {
        closing = e.closing;
        closed = e.closed;
        pipeline = e.pipeline;
        frames = e.frames;
        count = e.count;
      })
      h

gate-Pushed :
    (f : Feed) (payload : List ℕ) (pts : ℤ) (stamp : FrameStamp) (c : Option (List ℕ)) (s : Session)
    → Pushed f.block s (gate f payload pts stamp c s).1
unfolding gate
gate-Pushed f payload pts stamp c s =
    let s' = note_caps c s in
    let e = note_caps-SameClose c s in
    let open' : Session = record s' { await_key = false } in
    elim (Bool-cases (kind_sync s'.caps_kind payload)) [
      | inl sync ↦ rw sync (
          reopen s s' (offer f payload pts stamp c open').1 f.block e
            (offer-Pushed f payload pts stamp c open'))
      | inr wait ↦ rw wait (
          SameClose-stays f.block s
            (record s' { skipped_awaiting_keyframe = s'.skipped_awaiting_keyframe + 1 })
            (record {
              closing = e.closing;
              closed = e.closed;
              pipeline = e.pipeline;
              frames = e.frames;
              count = e.count;
            }))
    ]

pub push-Pushed : (x : Frame) (s : Session) → Pushed x.feed.block s (push_one x s).1
unfolding push push_one
push-Pushed x s =
    let g = gate-Pushed x.feed x.payload x.pts x.stamp x.caps s in
    let o = offer-Pushed x.feed x.payload x.pts x.stamp x.caps s in
    ground (arith, g.closed, g.pipeline, g.frames, g.close, o.closed, o.pipeline, o.frames, o.close)

-- A closing session takes no frame.
pub push_closing : (x : Frame) (s : Session) → s.closing ≡ true → push_one x s ≡ (skipped, s)
unfolding push push_one refuses
push_closing x s c = ground arith
