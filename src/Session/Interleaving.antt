-- ===== src/Session/Interleaving.antt =====
-- The feed thread against `begin_close` of core-driver/cam_driver/session.py: pushes, bus messages
-- and the two halves of a close in any order that the two locks allow.
use camera_service.Common.{
  ℕ, ◌<◌, ◌≡◌, refl, sym, ◌∙◌, ap, Bool, true, false, ◌&&◌, [], ◌∷◌, ltb, arith, if◌then◌else◌, inl,
  inr,
}
use camera_service.DropStats.{Summary}
use camera_service.Session.{opened, end_of_stream, Session, close_signal, Frame, push_one}
use camera_service.Session.Close.{close_join, BusMessage, on_bus}
use camera_service.Session.Closing.{
  count_eos, count_eos-append, one_if, on_bus-SameClose, close_signal-Pushed, push-Pushed,
  push_closing,
}

-- Where `begin_close` is: not called yet, waiting for the feed lock with its `eos_sent`, or through.
pub data Phase : Type 0 where
  unclosed : Phase
  signalled : Bool → Phase
  joined : Phase

-- A close that begins while the push of `x` waits in `push-buffer` leaves the session closing.
abbrev pub phase_after : Frame → Session → Phase
phase_after x s =
    if (push_one x s).1.closing
    then signalled (s.pipeline && ltb 0 s.frames && x.feed.block)
    else unclosed

-- One step of a session whose appsrc has the given `block`. A push that meets a close in progress,
-- or a closed session, cannot be interrupted by another close.
pub data Step (block : Bool) : Phase → Session → Phase → Session → Type 0 where
  push_step :
      (x : Frame) (s : Session)
      → x.feed.block ≡ block
      → Step block unclosed s (phase_after x s) (push_one x s).1
  late_push :
      (x : Frame) (e : Bool) (s : Session)
      → Step block (signalled e) s (signalled e) (push_one x s).1
  closed_push : (x : Frame) (s : Session) → Step block joined s joined (push_one x s).1
  bus_step : (m : BusMessage) (p : Phase) (s : Session) → Step block p s p (on_bus m s)
  signal_step :
      (s : Session)
      → Step block unclosed s (signalled (close_signal block s).0) (close_signal block s).1
  join_step : (e : Bool) (s : Session) → Step block (signalled e) s joined (close_join e s)

pub data Steps (block : Bool) : Phase → Session → Phase → Session → Type 0 where
  no_step : (p : Phase) (s : Session) → Steps block p s p s
  then_step :
      (p q r : Phase) (s t u : Session)
      → Steps block p s q t
      → Step block q t r u
      → Steps block p s r u

-- What holds of the session in each phase of the close.
abbrev pub Closes : Phase → Session → Type 0
Closes unclosed s =
    (s.closing ≡ false) × (s.closed ≡ false) × (s.pipeline ≡ true) × (count_eos s.appsrc_calls ≡ 0)
Closes (signalled e) s =
    (s.closing ≡ true)
    × (s.closed ≡ false)
    × (s.pipeline ≡ true)
    × (count_eos s.appsrc_calls ≡ one_if e)
    × (e ≡ true → 0 < s.frames)
Closes joined s =
    (s.closing ≡ true)
    × (s.closed ≡ true)
    × (s.pipeline ≡ true)
    × (count_eos s.appsrc_calls ≡ one_if (ltb 0 s.frames))

push-Closes :
    (x : Frame) (s : Session) → Closes unclosed s → Closes (phase_after x s) (push_one x s).1
push-Closes x s (c, d, p, n) =
    let h = push-Pushed x s in
    elim h.close [
      | inl (c', n') ↦ rw (c' ∙ c) (c' ∙ c, h.closed ∙ d, h.pipeline ∙ p, n' ∙ n)
      | inr (c', n') ↦
          rw c'
            (c', h.closed ∙ d, h.pipeline ∙ p, omega (arith, n', n), λ e. ground (arith, h.frames))
    ]

close_join-Closes :
    (e : Bool) (s : Session) → Closes (signalled e) s → Closes joined (close_join e s)
unfolding close_join
close_join-Closes e s (c, d, p, n, f) =
    ground (arith, c, p, n, f, count_eos-append s.appsrc_calls (end_of_stream ∷ []))

bus-Closes : (m : BusMessage) (p : Phase) (s : Session) → Closes p s → Closes p (on_bus m s)
bus-Closes m unclosed s (c, d, p, n) =
    let e = on_bus-SameClose m s in (e.closing ∙ c, e.closed ∙ d, e.pipeline ∙ p, e.count ∙ n)
bus-Closes m (signalled b) s (c, d, p, n, f) =
    let e = on_bus-SameClose m s in
    (e.closing ∙ c, e.closed ∙ d, e.pipeline ∙ p, e.count ∙ n, λ t. omega (arith, f t, e.frames))
bus-Closes m joined s (c, d, p, n) =
    let e = on_bus-SameClose m s in
    (
      e.closing ∙ c,
      e.closed ∙ d,
      e.pipeline ∙ p,
      e.count ∙ n ∙ ap (λ (k : ℕ). one_if (ltb 0 k)) (sym e.frames),
    )

Step-Closes :
    {block : Bool} {p : Phase} {s : Session} {q : Phase} {t : Session}
    → Step block p s q t
    → Closes p s
    → Closes q t
Step-Closes (push_step x s b) h = push-Closes x s h
Step-Closes (late_push x e s) (c, d, p, n, f) = rw (push_closing x s c) (c, d, p, n, f)
Step-Closes (closed_push x s) (c, d, p, n) = rw (push_closing x s c) (c, d, p, n)
Step-Closes (bus_step m p s) h = bus-Closes m p s h
Step-Closes {block} (signal_step s) (c, d, p, n) =
    let (e, c', d', p', f, k) = close_signal-Pushed block s in
    (c', d' ∙ d, p' ∙ p, omega (arith, k, n, ap one_if e), λ t. ground (arith, e, f, t))
Step-Closes (join_step e s) h = close_join-Closes e s h

Steps-Closes :
    {block : Bool} {p : Phase} {s : Session} {q : Phase} {t : Session}
    → Steps block p s q t
    → Closes p s
    → Closes q t
Steps-Closes (no_step p s) h = h
Steps-Closes (then_step p q r s t u a b) h = Step-Closes b (Steps-Closes a h)

pub opened-Closes :
    (block encoded : Bool) (index : ℕ) (drops : Summary) (t : Session)
    → Steps block unclosed (opened index encoded drops) joined t
    → Closes joined t
opened-Closes block encoded index drops t a = Steps-Closes a (refl, refl, refl, refl)

-- However pushes, bus messages and one close interleave, in a session that was opened with any
-- appsrc: once `begin_close` is through, EOS was sent exactly once if a frame was accepted, and not
-- at all otherwise.
pub eos_once :
    (block encoded : Bool) (index : ℕ) (drops : Summary) (t : Session)
    → Steps block unclosed (opened index encoded drops) joined t
    → (t.closed ≡ true) × (count_eos t.appsrc_calls ≡ one_if (ltb 0 t.frames))
eos_once block encoded index drops t a =
    let (c, d, p, n) = opened-Closes block encoded index drops t a in (d, n)
