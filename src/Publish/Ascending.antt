-- ===== src/Publish/Ascending.antt =====
-- The time stamps on the wire of the transport in core-driver/cam_driver/pipeline.py.
use camera_service.Common.{
  ℕ, ◌-◌, ◌≤◌, ◌<◌, ◌≡◌, refl, ◌∙◌, ap, Bool, true, Option, none, some, List, [], ◌∷◌, max, arith,
}
use camera_service.Common.Int.{ℤ, pos, ◌+ℤ◌, ◌<ℤ◌, +ℤ_parts, eq_of_parts}
use camera_service.Publish.{Wire, new_wire, wire_pts, transport_pts}

-- A publish: the frame's own PTS, whether it is the held frame, and the monotonic clock.
pub record Publish : Type 0 where
  pub pts : ℤ
  pub held : Bool
  pub now : ℕ

unfoldable pub wire_run : Bool → ℕ → Wire → List Publish → List ℤ
wire_run finite interval w [] = []
wire_run finite interval w (p ∷ ps) =
    let (tpts, w') = transport_pts finite interval p.pts p.held p.now w in
    tpts ∷ wire_run finite interval w' ps

unfoldable pub Rising : Option ℤ → List ℤ → Type 0
Rising o [] = Unit
Rising none (t ∷ ts) = Rising (some t) ts
Rising (some l) (t ∷ ts) = (l <ℤ t) × Rising (some t) ts

later : (l : ℤ) (n : ℕ) → 1 ≤ n → l <ℤ (l +ℤ pos n)
later l n h = omega (arith, h, +ℤ_parts l (pos n))

wire_pts_rises :
    (finite : Bool) (interval : ℕ) (pts : ℤ) (held : Bool) (now : ℕ) (w : Wire) (l : ℤ)
    → 1 ≤ interval
    → w.last ≡ some l
    → l <ℤ wire_pts finite interval pts held now w
unfolding wire_pts
wire_pts_rises finite interval pts held now w l h e =
    ground (arith, e, later l (max (now - w.last_mono) 1) (omega arith), later l interval h)

run_rises :
    (finite : Bool) (interval : ℕ) (w : Wire) (o : Option ℤ) (ps : List Publish)
    → 1 ≤ interval
    → w.last ≡ o
    → Rising o (wire_run finite interval w ps)
unfolding wire_run transport_pts Rising
run_rises finite interval w o [] h e = tt
run_rises finite interval w none (p ∷ ps) h e =
    run_rises finite interval (transport_pts finite interval p.pts p.held p.now w).1
      (some (wire_pts finite interval p.pts p.held p.now w)) ps h refl
run_rises finite interval w (some l) (p ∷ ps) h e = (
  wire_pts_rises finite interval p.pts p.held p.now w l h e,
  run_rises finite interval (transport_pts finite interval p.pts p.held p.now w).1
      (some (wire_pts finite interval p.pts p.held p.now w)) ps h refl,
)

-- Whatever is published, live or from a playback, new frames or the held one again, and whatever their
-- PTS and the clock: the time stamps on the wire rise strictly, so that none is repeated and none
-- steps back, where the interval of a frame is not 0.
pub wire_run-Rising :
    (finite : Bool) (interval : ℕ) (ps : List Publish)
    → 1 ≤ interval
    → Rising none (wire_run finite interval new_wire ps)
unfolding new_wire
wire_run-Rising finite interval ps h = run_rises finite interval new_wire none ps h refl

-- The clock goes on from publish to publish.
unfoldable pub Ticking : ℕ → List Publish → Type 0
Ticking n [] = Unit
Ticking n (p ∷ ps) = (n < p.now) × Ticking p.now ps

-- A start, and the wall time since a reading of the clock.
unfoldable pub elapsed : ℤ → ℕ → List Publish → List ℤ
elapsed l m [] = []
elapsed l m (p ∷ ps) = (l +ℤ pos (p.now - m)) ∷ elapsed l m ps

rebased : (l : ℤ) (m n k : ℕ) → m ≤ n → n ≤ k → (l +ℤ pos (n - m)) +ℤ pos (k - n) ≡ l +ℤ pos (k - m)
rebased l m n k h g =
    let x = l +ℤ pos (n - m) in
    eq_of_parts (x +ℤ pos (k - n)) (l +ℤ pos (k - m)) (
      omega
        (arith, h, g, +ℤ_parts l (pos (n - m)), +ℤ_parts x (pos (k - n)), +ℤ_parts l (pos (k - m))))

elapsed_rebased :
    (l : ℤ) (m n c : ℕ) (ps : List Publish)
    → m ≤ n
    → n ≤ c
    → Ticking c ps
    → elapsed (l +ℤ pos (n - m)) n ps ≡ elapsed l m ps
unfolding elapsed Ticking
elapsed_rebased l m n c [] h g t = refl
elapsed_rebased l m n c (p ∷ ps) h g (t, ts) =
    let here = rebased l m n p.now h (omega (arith, g, t)) in
    let rest = elapsed_rebased l m n p.now ps h (omega (arith, g, t)) ts in cc

finite_pts :
    (interval : ℕ) (pts : ℤ) (held : Bool) (now : ℕ) (w : Wire) (l : ℤ)
    → w.last ≡ some l
    → w.last_mono < now
    → wire_pts true interval pts held now w ≡ l +ℤ pos (now - w.last_mono)
unfolding wire_pts
finite_pts interval pts held now w l e h =
    let same : max (now - w.last_mono) 1 ≡ now - w.last_mono = omega (arith, h) in
    ground (arith, e, same)

playback_run :
    (interval : ℕ) (w : Wire) (l : ℤ) (ps : List Publish)
    → w.last ≡ some l
    → Ticking w.last_mono ps
    → wire_run true interval w ps ≡ elapsed l w.last_mono ps
unfolding wire_run transport_pts Ticking elapsed
playback_run interval w l [] e t = refl
playback_run interval w l (p ∷ ps) e (t, ts) =
    let tpts = wire_pts true interval p.pts p.held p.now w in
    let here : tpts ≡ l +ℤ pos (p.now - w.last_mono) =
      finite_pts interval p.pts p.held p.now w l e t in
    let rest =
      playback_run interval (transport_pts true interval p.pts p.held p.now w).1 tpts ps refl ts in
    let shifted : elapsed tpts p.now ps ≡ elapsed l w.last_mono ps =
      ap (λ x. elapsed x p.now ps) here
      ∙ elapsed_rebased l w.last_mono p.now p.now ps (omega (arith, t)) (omega arith) ts in
    cc

-- In a playback, while the monotonic clock goes on, the time stamp of a publish on the wire is the wall
-- time since the first publish, whatever the PTS of the frames and however long a frame is held.
playback_wall_time :
    (interval : ℕ) (p : Publish) (ps : List Publish)
    → Ticking p.now ps
    → wire_run true interval new_wire (p ∷ ps) ≡ pos 0 ∷ elapsed (pos 0) p.now ps
unfolding new_wire wire_run transport_pts wire_pts
playback_wall_time interval p ps t =
    ap (λ ts. pos 0 ∷ ts)
      (playback_run interval (transport_pts true interval p.pts p.held p.now new_wire).1 (pos 0) ps
        refl t)
