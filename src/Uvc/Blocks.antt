-- ===== src/Uvc/Blocks.antt =====
-- The blocks of payloads that a frame consists of, for the frames of
-- core-driver/cam_driver/uvcpcap.py.
use mathlib.Core.List.{append_assoc, append-nil}
use camera_service.Common.{
  ℕ, ◌%◌, ◌≡◌, refl, sym, ◌∙◌, ap, true, not, ◌&&◌, Option, none, some, List, [], ◌∷◌, ◌++◌, drop,
  All, ◌==◌, if◌then◌else◌,
}
use camera_service.Usbmon.{Packet, lost, payload}
use camera_service.Uvc.{bit, parse_uvc_header, Config, accum, Assembly, Frame, delivered, accepts}

abbrev pub Event : Type 0
Event = Packet × ℕ

-- The bytes of a payload with a header that is read, of this FID and without ERR.
unfoldable pub reads : Config → ℕ → Packet → Option (List ℕ)
reads c fid lost = none
reads c fid (payload p) = elim (parse_uvc_header c.strict p) [
  | none ↦ none
  | some h ↦ if (h.info % 2 == fid) && not (bit 64 h.info) then some (drop h.hlen p) else none
]

join : Option (List ℕ) → Option (List ℕ) → Option (List ℕ)
join none y = none
join (some x) none = none
join (some x) (some y) = some (x ++ y)

-- The bytes of a block of payloads, all of them read so.
pub block_bytes : Config → ℕ → List Event → Option (List ℕ)
block_bytes c fid [] = some []
block_bytes c fid ((p, ts) ∷ es) = join (reads c fid p) (block_bytes c fid es)

pub first_ts : List Event → Option ℕ
first_ts [] = none
first_ts ((p, ts) ∷ es) = some ts

-- The events end with a block that holds these bytes.
pub record Open (c : Config) (es : List Event) (fid : ℕ) (b : List ℕ) (ts : ℕ) : Type 0 where
  pub before : List Event
  pub block : List Event
  pub split : es ≡ before ++ block
  pub intact : block_bytes c fid block ≡ some b
  pub stamped : first_ts block ≡ some ts

-- A frame is what a block of successive events holds, and has the time of its first.
pub record Intact (c : Config) (es : List Event) (f : Frame) : Type 0 where
  pub before : List Event
  pub block : List Event
  pub after : List Event
  pub fid : ℕ
  pub b : List ℕ
  pub split : es ≡ (before ++ block) ++ after
  pub intact : block_bytes c fid block ≡ some b
  pub bytes : f.bytes ≡ delivered c b
  pub stamped : first_ts block ≡ some f.ts_ns
  pub accepted : accepts c f.bytes ≡ true

unfoldable pub Inv : Config → List Event → Assembly → Type 0
Inv c es a = a.phase ≡ accum → (fid : ℕ) × (a.fid ≡ some fid) × Open c es fid a.buf a.start_ts

pub record Sound (c : Config) (es : List Event) (r : List Frame × Assembly) : Type 0 where
  pub given : All (Intact c es) r.0
  pub inv : Inv c es r.1

join_nil : (o : Option (List ℕ)) → join (some []) o ≡ o
unfolding join
join_nil none = refl
join_nil (some y) = refl

join_assoc : (x y z : Option (List ℕ)) → join (join x y) z ≡ join x (join y z)
unfolding join
join_assoc none y z = refl
join_assoc (some x) none z = refl
join_assoc (some x) (some y) none = refl
join_assoc (some x) (some y) (some z) = ap some (append_assoc x y z)

block_bytes-append :
    (c : Config) (fid : ℕ) (xs ys : List Event)
    → block_bytes c fid (xs ++ ys) ≡ join (block_bytes c fid xs) (block_bytes c fid ys)
unfolding block_bytes
block_bytes-append c fid [] ys = sym (join_nil (block_bytes c fid ys))
block_bytes-append c fid ((p, ts) ∷ xs) ys =
    ap (join (reads c fid p)) (block_bytes-append c fid xs ys)
    ∙ sym (join_assoc (reads c fid p) (block_bytes c fid xs) (block_bytes c fid ys))

first_ts-append :
    (xs ys : List Event) (ts : ℕ) → first_ts xs ≡ some ts → first_ts (xs ++ ys) ≡ some ts
unfolding first_ts
first_ts-append [] ys ts h = cc
first_ts-append ((p, t) ∷ xs) ys ts h = h

join-some :
    (x y : Option (List ℕ)) (a b : List ℕ) → x ≡ some a → y ≡ some b → join x y ≡ some (a ++ b)
unfolding join
join-some x y a b h k = rw (h, k, join) refl

one_bytes :
    (c : Config) (fid : ℕ) (p : Packet) (ts : ℕ) (d : List ℕ)
    → reads c fid p ≡ some d
    → block_bytes c fid ((p, ts) ∷ []) ≡ some d
unfolding block_bytes join
one_bytes c fid p ts d h = rw (h, join) (ap some (append-nil d))

pub extend :
    {c : Config} {es : List Event} {fid : ℕ} {b : List ℕ} {ts : ℕ} (p : Packet) (t : ℕ) (d : List ℕ)
    → Open c es fid b ts
    → reads c fid p ≡ some d
    → Open c (es ++ (p, t) ∷ []) fid (b ++ d) ts
extend {c} {es} {fid} {b} {ts} p t d o h = record {
  before = o.before;
  block = o.block ++ (p, t) ∷ [];
  split = ap (λ l. l ++ (p, t) ∷ []) o.split ∙ append_assoc o.before o.block ((p, t) ∷ []);
  intact =
      block_bytes-append c fid o.block ((p, t) ∷ [])
      ∙ join-some (block_bytes c fid o.block) (block_bytes c fid ((p, t) ∷ [])) b d o.intact
          (one_bytes c fid p t d h);
  stamped = first_ts-append o.block ((p, t) ∷ []) ts o.stamped;
}

pub fresh :
    (c : Config) (es : List Event) (fid : ℕ) (p : Packet) (t : ℕ) (d : List ℕ)
    → reads c fid p ≡ some d
    → Open c (es ++ (p, t) ∷ []) fid d t
unfolding first_ts
fresh c es fid p t d h = record {
  before = es;
  block = (p, t) ∷ [];
  split = refl;
  intact = one_bytes c fid p t d h;
  stamped = refl;
}

Intact-append :
    (c : Config) (es xs : List Event) (f : Frame) → Intact c es f → Intact c (es ++ xs) f
Intact-append c es xs f w = record {
  before = w.before;
  block = w.block;
  after = w.after ++ xs;
  fid = w.fid;
  b = w.b;
  split = ap (λ l. l ++ xs) w.split ∙ append_assoc (w.before ++ w.block) w.after xs;
  intact = w.intact;
  bytes = w.bytes;
  stamped = w.stamped;
  accepted = w.accepted;
}

pub All-Intact-append :
    (c : Config) (es xs : List Event) (fs : List Frame)
    → All (Intact c es) fs
    → All (Intact c (es ++ xs)) fs
All-Intact-append c es xs [] w = tt
All-Intact-append c es xs (f ∷ fs) (w, ws) =
    (Intact-append c es xs f w, All-Intact-append c es xs fs ws)
