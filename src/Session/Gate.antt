-- ===== src/Session/Gate.antt =====
-- The keyframe gate and the queue bound of a session's feed.
use camera_service.Common.{
  ℕ, ◌+◌, ◌<◌, ◌≡◌, ◌≢◌, ◌⊎◌, refl, ◌∙◌, ap, Bool, true, false, ◌||◌, Option, none, List, [], ◌∷◌,
  length, arith, Bool-cases, inl, inr,
}
use camera_service.Common.Int.{ℤ}
use camera_service.Timestamps.{FrameStamp}
use camera_service.Keyframe.Caps.{CapsKind}
use camera_service.Session.{
  accepted, dropped, flow_ok, Feed, Session, record_error, refuses, note_caps, kind_sync,
  apply_caps, over_bound, close_signal, push_frame, with_header, offer, gate, push, Frame, push_one,
  push_all,
}

-- The gate of `t` stands as that of `s`.
record SameGate (s t : Session) : Type 0 where
  await_key : t.await_key ≡ s.await_key
  caps_kind : t.caps_kind ≡ s.caps_kind

with_header-SameGate :
    (f : Feed) (payload : List ℕ) (pts : ℤ) (stamp : FrameStamp) (s : Session)
    → SameGate s (with_header f payload pts stamp s).1
unfolding with_header push_frame record_error close_signal
with_header-SameGate f payload pts stamp s = ground arith

apply_caps-SameGate : (c : Option (List ℕ)) (s : Session) → SameGate s (apply_caps c s)
unfolding apply_caps
apply_caps-SameGate c s = ground arith

offer-SameGate :
    (f : Feed) (payload : List ℕ) (pts : ℤ) (stamp : FrameStamp) (c : Option (List ℕ)) (s : Session)
    → SameGate s (offer f payload pts stamp c s).1
unfolding offer
offer-SameGate f payload pts stamp c s =
    ground
      (arith, apply_caps-SameGate c s, with_header-SameGate f payload pts stamp (apply_caps c s))

note_caps_keeps :
    (c : Option (List ℕ)) (s : Session)
    → let t = note_caps c s in
      (t.await_key ≡ s.await_key) × (t.appsrc_calls ≡ s.appsrc_calls) × (t.frames ≡ s.frames)
unfolding note_caps
note_caps_keeps c s = ground arith

-- The gate stays shut and nothing reaches the appsrc, or it opens on a sync point.
abbrev GateStep : List ℕ → Session → Session → Type 0
GateStep payload s t =
    ((t.await_key ≡ true) × (t.appsrc_calls ≡ s.appsrc_calls) × (t.frames ≡ s.frames))
    ⊎ ((t.await_key ≡ false) × (kind_sync t.caps_kind payload ≡ true))

gate-GateStep :
    (f : Feed) (payload : List ℕ) (pts : ℤ) (stamp : FrameStamp) (c : Option (List ℕ)) (s : Session)
    → s.await_key ≡ true
    → GateStep payload s (gate f payload pts stamp c s).1
unfolding gate
gate-GateStep f payload pts stamp c s w =
    let s' = note_caps c s in
    let open' : Session = record s' { await_key = false } in
    let k = note_caps_keeps c s in
    let o = offer-SameGate f payload pts stamp c open' in
    elim (Bool-cases (kind_sync s'.caps_kind payload)) [
      | inl sync ↦
          rw sync (
            inr (o.await_key, ap (λ (q : Option CapsKind). kind_sync q payload) o.caps_kind ∙ sync))
      | inr wait ↦ rw wait (inl (k.0 ∙ w, k.1, k.2))
    ]

push-GateStep :
    (x : Frame) (s : Session) → s.await_key ≡ true → GateStep x.payload s (push_one x s).1
unfolding push push_one
push-GateStep x s w = ground (arith, gate-GateStep x.feed x.payload x.pts x.stamp x.caps s)

push_open : (x : Frame) (s : Session) → s.await_key ≡ false → SameGate s (push_one x s).1
unfolding push push_one
push_open x s w = ground (arith, offer-SameGate x.feed x.payload x.pts x.stamp x.caps s)

run_open : (xs : List Frame) (s : Session) → s.await_key ≡ false → SameGate s (push_all xs s).1
unfolding push_all
run_open [] s w = record { await_key = refl; caps_kind = refl }
run_open (x ∷ xs) s w =
    let t = (push_one x s).1 in
    let a = push_open x s w in
    let b = run_open xs t (a.await_key ∙ w) in
    record { await_key = b.await_key ∙ a.await_key; caps_kind = b.caps_kind ∙ a.caps_kind }

-- One of the frames is a sync point under the caps that the session parsed.
abbrev pub any_sync : Option CapsKind → List Frame → Bool
any_sync k [] = false
any_sync k (x ∷ xs) = kind_sync k x.payload || any_sync k xs

or_true : (a b : Bool) → (a ≡ true) ⊎ (b ≡ true) → (a || b) ≡ true
or_true a b h = ground arith

-- Over any run of pushes into a session that waits for a keyframe: either it still waits, and
-- nothing was done to the appsrc and no frame was counted, or one of the frames was a sync point.
pub push_all_gated :
    (xs : List Frame) (s : Session)
    → s.await_key ≡ true
    → let t = (push_all xs s).1 in
      ((t.await_key ≡ true) × (t.appsrc_calls ≡ s.appsrc_calls) × (t.frames ≡ s.frames))
      ⊎ ((t.await_key ≡ false) × (any_sync t.caps_kind xs ≡ true))
unfolding push_all
push_all_gated [] s w = inl (w, refl, refl)
push_all_gated (x ∷ xs) s w =
    let t = (push_one x s).1 in
    let u = (push_all xs t).1 in
    let rest = λ (v : t.await_key ≡ true). push_all_gated xs t v in
    elim (push-GateStep x s w) [
      | inl (v, calls, n) ↦ elim (rest v) [
        | inl (v', calls', n') ↦ inl (v', calls' ∙ calls, n' ∙ n)
        | inr (v', later) ↦ inr (v', or_true _ _ (inr later))
      ]
      | inr (v, sync) ↦
          let o = run_open xs t v in
          inr (
            o.await_key ∙ v,
            or_true _ _
                (inl (ap (λ (q : Option CapsKind). kind_sync q x.payload) o.caps_kind ∙ sync)),
          )
    ]

-- A frame that would take the queue of a non-blocking appsrc over its bound is never accepted.
push_bounded :
    (x : Frame) (s : Session)
    → x.feed.block ≡ false
    → 0 < x.feed.max_bytes
    → x.feed.max_bytes < x.feed.current_level_bytes + length x.payload
    → (push_one x s).0 ≢ accepted
unfolding push push_one offer gate over_bound
push_bounded x s b m l = ground arith

refuses-caps :
    (c d : Option (List ℕ)) (s : Session)
    → refuses (apply_caps c (record (note_caps d s) { await_key = false })) ≡ refuses s
unfolding refuses apply_caps note_caps
refuses-caps c d s = ground arith

push_accepts :
    (y : Frame) (t : Session)
    → t.await_key ≡ false
    → refuses t ≡ false
    → over_bound y.feed y.payload ≡ false
    → y.feed.header_error ≡ none
    → y.feed.flow ≡ flow_ok
    → (push_one y t).0 ≡ accepted
unfolding push_one push offer with_header push_frame close_signal
push_accepts y t w r room he fl = ground arith

push_drops_sync :
    (x : Frame) (s : Session)
    → s.await_key ≡ true
    → refuses s ≡ false
    → kind_sync (note_caps x.caps s).caps_kind x.payload ≡ true
    → over_bound x.feed x.payload ≡ true
    → push_one x s
      ≡ (dropped, apply_caps x.caps (record (note_caps x.caps s) { await_key = false }))
unfolding push_one push gate offer
push_drops_sync x s w r k full = ground arith

-- The gate does not close again: when the queue is full for the sync point on which it opened,
-- that frame is dropped, and the session then accepts the next frame that the appsrc takes,
-- whether or not it is a sync point.
gate_opened_by_dropped :
    (x y : Frame) (s : Session)
    → s.await_key ≡ true
    → refuses s ≡ false
    → kind_sync (note_caps x.caps s).caps_kind x.payload ≡ true
    → over_bound x.feed x.payload ≡ true
    → over_bound y.feed y.payload ≡ false
    → y.feed.header_error ≡ none
    → y.feed.flow ≡ flow_ok
    → ((push_one x s).0 ≡ dropped) × ((push_one y (push_one x s).1).0 ≡ accepted)
gate_opened_by_dropped x y s w r k full room he fl =
    let t : Session = apply_caps x.caps (record (note_caps x.caps s) { await_key = false }) in
    let shut = apply_caps-SameGate x.caps (record (note_caps x.caps s) { await_key = false }) in
    rw (push_drops_sync x s w r k full)
      (refl, push_accepts y t shut.await_key (refuses-caps x.caps x.caps s ∙ r) room he fl)
