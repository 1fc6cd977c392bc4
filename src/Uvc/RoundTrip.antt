-- ===== src/Uvc/RoundTrip.antt =====
-- What a camera sends as UVC payloads is reassembled by core-driver/cam_driver/uvcpcap.py.
use mathlib.Core.List.{append-nil, append_assoc}
use camera_service.Common.{
  ℕ, suc, ◌+◌, ◌-◌, ◌%◌, ◌<◌, ◌≡◌, ◌≢◌, refl, sym, ◌∙◌, ap, Bool, true, false, some, List, [], ◌∷◌,
  ◌++◌, map, length, drop, drop-length_append, length-append, All, arith, if◌then◌else◌,
}
use camera_service.Usbmon.{Packet, payload}
use camera_service.Uvc.{
  bit, parse_uvc_header, Config, Phase, accum, await, skip, Assembly, reset, Frame, delivered,
  accepts, finalize, begin, same_fid, append, accumulate, feed_data, feed, feed_packet,
  feed_packets,
}
use camera_service.Uvc.Camera.{packet, flags, payloads, content, Sent, stream}

parse-packet :
    (strict : Bool) (pad : List ℕ) (info : ℕ) (d : List ℕ)
    → info < 4
    → (strict ≡ true → pad ≡ [])
    → parse_uvc_header strict (packet pad info d)
      ≡ some (record { hlen = 2 + length pad; info = info })
unfolding parse_uvc_header packet
parse-packet true pad info d h p = rw (p refl) (ground (arith, h))
parse-packet false pad info d h p = ground (arith, h, length-append pad d)

drop-packet : (pad : List ℕ) (info : ℕ) (d : List ℕ) → drop (2 + length pad) (packet pad info d) ≡ d
unfolding packet
drop-packet pad info d =
    let two : 2 + length pad ≡ suc (suc (length pad)) = omega arith in
    ap (λ n. drop n ((2 + length pad) ∷ info ∷ pad ++ d)) two ∙ drop-length_append pad d

-- What the flags say.
flags_read :
    (fid : ℕ) (eof : Bool)
    → fid < 2
    → (flags fid eof % 2 ≡ fid)
      × (bit 2 (flags fid eof) ≡ eof)
      × (bit 64 (flags fid eof) ≡ false)
      × (flags fid eof < 4)
flags_read fid true h = ground arith
flags_read fid false h = ground arith

-- The frame that is open as a new one begins.
pending : Phase → Config → Assembly → List Frame
pending accum c a = (finalize c a).0
pending await c a = []
pending skip c a = []

closed : Phase → Config → Assembly → Assembly
closed accum c a = (finalize c a).1
closed await c a = a
closed skip c a = a

close : Config → Bool → Assembly → List Frame × Assembly
close c eof a =
    let (out, b) = finalize c a in if eof then (out, record b { phase = await }) else ([], a)

module _ (c : Config) (pad : List ℕ) (fits : c.strict ≡ true → pad ≡ []) where
  feed-packet :
      (fid : ℕ) (eof : Bool) (d : List ℕ) (ts : ℕ) (a : Assembly)
      → fid < 2
      → feed_packet c (payload (packet pad (flags fid eof) d)) ts a
        ≡ feed_data c (flags fid eof) d ts a.phase a
  unfolding feed_packet feed
  feed-packet fid eof d ts a h =
      rw (parse-packet c.strict pad (flags fid eof) d (flags_read fid eof h).3 fits, feed)
        (ap (λ x. feed_data c (flags fid eof) x ts a.phase a) (drop-packet pad (flags fid eof) d))

  feed_inside :
      (fid : ℕ) (eof : Bool) (d : List ℕ) (ts : ℕ) (a : Assembly)
      → fid < 2
      → a.phase ≡ accum
      → same_fid a.fid fid ≡ true
      → feed_packet c (payload (packet pad (flags fid eof) d)) ts a ≡ append c eof d a
  unfolding feed_data accumulate
  feed_inside fid eof d ts a h p f =
      feed-packet fid eof d ts a h ∙ ground (arith, p, f, flags_read fid eof h)

  feed_begun :
      (fid : ℕ) (eof : Bool) (d : List ℕ) (ts : ℕ) (a : Assembly)
      → fid < 2
      → accumulate c (flags fid eof) d ts (begin (flags fid eof % 2) ts a)
        ≡ append c eof d (begin fid ts a)
  unfolding accumulate begin
  feed_begun fid eof d ts a h = ground (arith, flags_read fid eof h)

  feed_toggled :
      (fid : ℕ) (eof : Bool) (d : List ℕ) (ts : ℕ) (a : Assembly)
      → fid < 2
      → same_fid a.fid fid ≡ false
      → accumulate c (flags fid eof) d ts a ≡ (
        (finalize c a).0 ++ (append c eof d (begin fid ts (finalize c a).1)).0,
        (append c eof d (begin fid ts (finalize c a).1)).1,
      )
  unfolding accumulate
  feed_toggled fid eof d ts a h f =
      let (m, e, x, l) = flags_read fid eof h in rw (m, e, x, f, accumulate) refl

  -- The first payload of a frame.
  feed_first_at :
      (fid : ℕ) (eof : Bool) (d : List ℕ) (ts : ℕ) (p : Phase) (a : Assembly)
      → fid < 2
      → p ≢ skip
      → same_fid a.fid fid ≡ false
      → feed_data c (flags fid eof) d ts p a ≡ (
        pending p c a ++ (append c eof d (begin fid ts (closed p c a))).0,
        (append c eof d (begin fid ts (closed p c a))).1,
      )
  unfolding feed_data pending closed
  feed_first_at fid eof d ts accum a h p f = feed_toggled fid eof d ts a h f
  feed_first_at fid eof d ts await a h p f =
      let (m, x, y, l) = flags_read fid eof h in rw (m, f) (rw m at (feed_begun fid eof d ts a h))
  feed_first_at fid eof d ts skip a h p f = absurd (p refl)

  feed_first :
      (fid : ℕ) (eof : Bool) (d : List ℕ) (ts : ℕ) (a : Assembly)
      → fid < 2
      → a.phase ≢ skip
      → same_fid a.fid fid ≡ false
      → feed_packet c (payload (packet pad (flags fid eof) d)) ts a ≡ (
        pending a.phase c a ++ (append c eof d (begin fid ts (closed a.phase c a))).0,
        (append c eof d (begin fid ts (closed a.phase c a))).1,
      )
  feed_first fid eof d ts a h p f =
      feed-packet fid eof d ts a h ∙ feed_first_at fid eof d ts a.phase a h p f

  -- The payloads behind the first.
  feed_more :
      (fid : ℕ) (eof : Bool) (d : List ℕ) (ts : ℕ) (more : List (List ℕ × ℕ)) (a : Assembly)
      → fid < 2
      → a.phase ≡ accum
      → same_fid a.fid fid ≡ true
      → feed_packets c (payloads pad fid eof d ts more) a
        ≡ close c eof (record a { buf = a.buf ++ content d more })
  unfolding feed_packets payloads content close append
  feed_more fid eof d ts [] a h p f = ground (
    arith,
    feed_inside fid eof d ts a h p f,
    append-nil (close c eof (record a { buf = a.buf ++ d })).0,
  )
  feed_more fid eof d ts ((e, t) ∷ more) a h p f =
      let b : Assembly = record a { buf = a.buf ++ d } in
      ground (
        arith,
        feed_inside fid false d ts a h p f,
        feed_more fid eof e t more b h p f,
        append_assoc a.buf d (content e more),
      )

  -- All the payloads of a frame.
  opened : ℕ → ℕ → List ℕ → Assembly → Assembly
  opened fid ts b a = record (begin fid ts (closed a.phase c a)) { buf = b }

  feed_frame :
      (fid : ℕ) (eof : Bool) (d : List ℕ) (ts : ℕ) (more : List (List ℕ × ℕ)) (a : Assembly)
      → fid < 2
      → a.phase ≢ skip
      → same_fid a.fid fid ≡ false
      → feed_packets c (payloads pad fid eof d ts more) a ≡ (
        pending a.phase c a ++ (close c eof (opened fid ts (content d more) a)).0,
        (close c eof (opened fid ts (content d more) a)).1,
      )
  unfolding feed_packets payloads content opened append begin close
  feed_frame fid eof d ts [] a h p f = rw (feed_first fid eof d ts a h p f) (
      ap (λ (l : List Frame). (l, (close c eof (opened fid ts d a)).1))
        (append-nil (pending a.phase c a ++ (close c eof (opened fid ts d a)).0)))
  feed_frame fid eof d ts ((e, t) ∷ more) a h p f =
      let b : Assembly = opened fid ts d a in
      let same : same_fid b.fid fid ≡ true = ground arith in
      rw
        (
          feed_first fid false d ts a h p f,
          feed_more fid eof e t more b h refl same,
          append-nil (pending a.phase c a),
        )
        refl

  feed_packets-append :
      (ps qs : List (Packet × ℕ)) (a : Assembly)
      → feed_packets c (ps ++ qs) a ≡ (
        (feed_packets c ps a).0 ++ (feed_packets c qs (feed_packets c ps a).1).0,
        (feed_packets c qs (feed_packets c ps a).1).1,
      )
  unfolding feed_packets
  feed_packets-append [] qs a = refl
  feed_packets-append ((p, ts) ∷ ps) qs a =
      let (out, b) = feed_packet c p ts a in
      ground (
        arith,
        feed_packets-append ps qs b,
        append_assoc out (feed_packets c ps b).0 (feed_packets c qs (feed_packets c ps b).1).0,
      )

unfoldable pub frame_of : Config → Sent → Frame
frame_of c s = record { ts_ns = s.ts_ns; bytes = delivered c (content s.first s.more) }

-- A frame that the configuration accepts.
abbrev pub Accepted : Config → Sent → Type 0
Accepted c s = accepts c (delivered c (content s.first s.more)) ≡ true

-- The last frame ends with EOF.
unfoldable pub Closed : List Sent → Type 0
Closed [] = Unit
Closed (s ∷ []) = s.eof ≡ true
Closed (s ∷ t ∷ ss) = Closed (t ∷ ss)

close_whole :
    (c : Config) (eof : Bool) (a : Assembly)
    → a.phase ≡ accum
    → accepts c (delivered c a.buf) ≡ true
    → (close c eof a).0 ++ pending (close c eof a).1.phase c (close c eof a).1
      ≡ record { ts_ns = a.start_ts; bytes = delivered c a.buf } ∷ []
unfolding close pending finalize
close_whole c true a p h = rw (h, finalize) refl
close_whole c false a p h = rw (p, pending) (rw (h, finalize) refl)

close_state :
    (c : Config) (eof : Bool) (a : Assembly)
    → a.phase ≡ accum
    → ((close c eof a).1.phase ≢ skip) × ((close c eof a).1.fid ≡ a.fid)
unfolding close finalize
close_state c eof a p = ground (arith, p)

regroup :
    (p r x q u m f : List Frame)
    → x ++ q ≡ u ++ m
    → r ++ u ≡ f
    → ((p ++ r) ++ x) ++ q ≡ p ++ (f ++ m)
regroup p r x q u m f e g =
    append_assoc (p ++ r) x q
    ∙ ap (λ l. (p ++ r) ++ l) e
    ∙ append_assoc p r (u ++ m)
    ∙ ap (λ l. p ++ l) (sym (append_assoc r u m) ∙ ap (λ l. l ++ m) g)

toggled : (fid : ℕ) (a : Assembly) → fid < 2 → a.fid ≡ some fid → same_fid a.fid (1 - fid) ≡ false
toggled fid a h e = ground (arith, h, e)

module _ (c : Config) (pad : List ℕ) (fits : c.strict ≡ true → pad ≡ []) where
  -- The frames given and the one that is open, after a stream.
  stream_frames :
      (fid : ℕ) (ss : List Sent) (a : Assembly)
      → fid < 2
      → a.phase ≢ skip
      → same_fid a.fid fid ≡ false
      → All (Accepted c) ss
      → let r = feed_packets c (stream pad fid ss) a in
        r.0 ++ pending r.1.phase c r.1 ≡ pending a.phase c a ++ map (frame_of c) ss
  unfolding stream feed_packets opened begin frame_of
  stream_frames fid [] a h p f w = sym (append-nil (pending a.phase c a))
  stream_frames fid (s ∷ ss) a h p f (w, ws) =
      let b = content s.first s.more in
      let o = opened c pad fits fid s.ts_ns b a in
      let r = close c s.eof o in
      let (k, g) = close_state c s.eof o refl in
      let x = feed_packets c (stream pad (1 - fid) ss) r.1 in
      let rest = stream_frames (1 - fid) ss r.1 (omega arith) k (toggled fid r.1 h g) ws in
      let run =
        feed_packets-append c pad fits (payloads pad fid s.eof s.first s.ts_ns s.more)
          (stream pad (1 - fid) ss) a in
      let frame = feed_frame c pad fits fid s.eof s.first s.ts_ns s.more a h p f in
      let one = close_whole c s.eof o refl w in
      let grouped =
        regroup (pending a.phase c a) r.0 x.0 (pending x.1.phase c x.1) (pending r.1.phase c r.1)
          (map (frame_of c) ss) (frame_of c s ∷ []) rest one in
      rw (run, frame) grouped

  -- After a stream whose last frame ends with EOF, no frame is open.
  stream-Closed :
      (fid : ℕ) (s : Sent) (ss : List Sent) (a : Assembly)
      → fid < 2
      → a.phase ≢ skip
      → same_fid a.fid fid ≡ false
      → Closed (s ∷ ss)
      → (feed_packets c (stream pad fid (s ∷ ss)) a).1.phase ≡ await
  unfolding stream feed_packets opened begin Closed close
  stream-Closed fid s [] a h p f e =
      let frame = feed_frame c pad fits fid s.eof s.first s.ts_ns s.more a h p f in
      let run =
        feed_packets-append c pad fits (payloads pad fid s.eof s.first s.ts_ns s.more) [] a in
      rw (run, frame, e, close) refl
  stream-Closed fid s (t ∷ ss) a h p f e =
      let o = opened c pad fits fid s.ts_ns (content s.first s.more) a in
      let (k, g) = close_state c s.eof o refl in
      let frame = feed_frame c pad fits fid s.eof s.first s.ts_ns s.more a h p f in
      let run =
        feed_packets-append c pad fits (payloads pad fid s.eof s.first s.ts_ns s.more)
          (stream pad (1 - fid) (t ∷ ss)) a in
      rw (run, frame)
        (stream-Closed (1 - fid) t ss (close c s.eof o).1 (omega arith) k
          (toggled fid (close c s.eof o).1 h g) e)

-- A camera sends frames that the configuration accepts, each in any number of payloads with any padding
-- of their headers (none if headers are read strictly); the FID toggles from frame to frame, and EOF
-- may be missing except at the last. The extractor gives back exactly these frames, in their order,
-- each with the time of its first payload.
pub feed_packets-stream :
    (c : Config) (pad : List ℕ) (ss : List Sent)
    → (c.strict ≡ true → pad ≡ [])
    → All (Accepted c) ss
    → Closed ss
    → (feed_packets c (stream pad 0 ss) reset).0 ≡ map (frame_of c) ss
unfolding reset feed_packets stream pending
feed_packets-stream c pad [] fits w e = refl
feed_packets-stream c pad (s ∷ ss) fits w e =
    let r = feed_packets c (stream pad 0 (s ∷ ss)) reset in
    let awaits = stream-Closed c pad fits 0 s ss reset (omega arith) (cc) refl e in
    sym (append-nil r.0)
    ∙ ap (λ p. r.0 ++ pending p c r.1) (sym awaits)
    ∙ stream_frames c pad fits 0 (s ∷ ss) reset (omega arith) (cc) refl w
