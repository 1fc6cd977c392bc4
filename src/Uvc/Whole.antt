-- ===== src/Uvc/Whole.antt =====
-- A frame is given only where all of its block came: core-driver/cam_driver/uvcpcap.py.
use mathlib.Core.List.{append_assoc, append-nil}
use camera_service.Common.{
  ℕ, ◌%◌, ◌≡◌, ◌≢◌, refl, sym, ◌∙◌, subst, Bool, true, false, ◌&&◌, some, List, [], ◌∷◌, ◌++◌, drop,
  All, arith, Bool-cases, Option-cases, inl, inr,
}
use camera_service.Common.Text.{text_eq}
use camera_service.Usbmon.{Packet, lost, payload}
use camera_service.Uvc.{
  bit, Header, parse_uvc_header, Config, Phase, accum, await, skip, Assembly, reset, Frame,
  delivered, accepts, finalize, begin, poison, count_bad, count_cut, same_fid, append, accumulate,
  feed_data, feed, feed_packet, feed_packets,
}
use camera_service.Uvc.Blocks.{
  Event, reads, Open, Intact, Inv, Sound, extend, fresh, All-Intact-append,
}

All-join : (P : Frame → Type 0) (xs ys : List Frame) → All P xs → All P ys → All P (xs ++ ys)
All-join P [] ys p q = q
All-join P (x ∷ xs) ys (p, ps) q = (p, All-join P xs ys ps q)

-- What is finalized from an open block.
finalize_given :
    (c : Config) (es : List Event) (fid : ℕ) (a : Assembly)
    → Open c es fid a.buf a.start_ts
    → All (Intact c es) (finalize c a).0
unfolding finalize
finalize_given c es fid a o = elim (Bool-cases (accepts c (delivered c a.buf))) [
  | inl y ↦ rw y (
    record {
      before = o.before;
      block = o.block;
      after = [];
      fid = fid;
      b = a.buf;
      split = o.split ∙ sym (append-nil (o.before ++ o.block));
      intact = o.intact;
      bytes = refl;
      stamped = o.stamped;
      accepted = y;
    },
    tt,
  )
  | inr n ↦ rw n tt
]

append-Sound :
    (c : Config) (es : List Event) (fid : ℕ) (eof : Bool) (d : List ℕ) (a : Assembly)
    → a.fid ≡ some fid
    → Open c es fid (a.buf ++ d) a.start_ts
    → Sound c es (append c eof d a)
unfolding append Inv
append-Sound c es fid true d a f o = record {
  given = finalize_given c es fid (record a { buf = a.buf ++ d }) o;
  inv = λ p. cc;
}
append-Sound c es fid false d a f o = record { given = tt; inv = λ p. (fid, f, o) }

quiet : (c : Config) (es : List Event) (a : Assembly) → a.phase ≢ accum → Sound c es ([], a)
unfolding Inv
quiet c es a h = record { given = tt; inv = λ p. absurd (h p) }

poison_phase : (a : Assembly) → (poison a).phase ≢ accum
unfolding poison
poison_phase a h = ground arith

poison-Sound : (c : Config) (es : List Event) (a : Assembly) → Sound c es ([], poison a)
poison-Sound c es a = quiet c es (poison a) (poison_phase a)

finalize_state : (c : Config) (a : Assembly) → (finalize c a).1.fid ≡ a.fid
unfolding finalize
finalize_state c a = ground arith

module _ (c : Config) (es : List Event) (p : Packet) (ts : ℕ) (info : ℕ) (d : List ℕ)
    (read : bit 64 info ≡ false → reads c (info % 2) p ≡ some d) where
  begun-Sound :
      (eof : Bool) (a : Assembly)
      → bit 64 info ≡ false
      → Sound c (es ++ (p, ts) ∷ []) (append c eof d (begin (info % 2) ts a))
  unfolding begin
  begun-Sound eof a x =
      append-Sound c (es ++ (p, ts) ∷ []) (info % 2) eof d (begin (info % 2) ts a) refl
        (fresh c es (info % 2) p ts d (read x))

  accumulate-Sound :
      (fid : ℕ) (a : Assembly)
      → a.fid ≡ some fid
      → Open c es fid a.buf a.start_ts
      → Sound c (es ++ (p, ts) ∷ []) (accumulate c info d ts a)
  unfolding accumulate
  accumulate-Sound fid a f o = elim (Bool-cases (bit 64 info)) [
    | inl x ↦ rw (x, accumulate) (quiet c (es ++ (p, ts) ∷ []) _ cc)
    | inr x ↦ elim (Bool-cases (same_fid a.fid (info % 2))) [
      | inl y ↦
          let e : fid ≡ info % 2 = ground arith in
          rw (x, y, accumulate)
            (append-Sound c (es ++ (p, ts) ∷ []) fid (bit 2 info) d a f
              (extend p ts d o (rw e (read x))))
      | inr y ↦
          let closed = (finalize c a).1 in
          let new = begun-Sound (bit 2 info) closed x in
          rw (x, y, accumulate)
            (record {
              given =
                  All-join (Intact c (es ++ (p, ts) ∷ [])) (finalize c a).0
                    (append c (bit 2 info) d (begin (info % 2) ts closed)).0
                    (All-Intact-append c es ((p, ts) ∷ []) (finalize c a).0
                      (finalize_given c es fid a o))
                    new.given;
              inv = new.inv;
            })
    ]
  ]

  begun_accumulate :
      (a : Assembly) → Sound c (es ++ (p, ts) ∷ []) (accumulate c info d ts (begin (info % 2) ts a))
  unfolding accumulate begin
  begun_accumulate a = elim (Bool-cases (bit 64 info)) [
    | inl x ↦ rw (x, accumulate) (quiet c (es ++ (p, ts) ∷ []) _ cc)
    | inr x ↦
        let same : same_fid (some (info % 2)) (info % 2) ≡ true = ground arith in
        rw (x, same, accumulate) (begun-Sound (bit 2 info) a x)
  ]

  feed_data-Sound :
      (q : Phase) (a : Assembly)
      → a.phase ≡ q
      → Inv c es a
      → Sound c (es ++ (p, ts) ∷ []) (feed_data c info d ts q a)
  unfolding feed_data Inv
  feed_data-Sound accum a e v = let (fid, f, o) = v e in accumulate-Sound fid a f o
  feed_data-Sound await a e v = elim (Bool-cases (same_fid a.fid (info % 2) && text_eq d [])) [
    | inl x ↦ rw (x, feed_data) (quiet c (es ++ (p, ts) ∷ []) _ (λ h. cc))
    | inr x ↦ rw (x, feed_data) (begun_accumulate a)
  ]
  feed_data-Sound skip a e v = elim (Bool-cases (same_fid a.fid (info % 2))) [
    | inl x ↦ rw (x, feed_data) (quiet c (es ++ (p, ts) ∷ []) a (λ h. cc))
    | inr x ↦ rw (x, feed_data) (begun_accumulate a)
  ]

reads_header :
    (c : Config) (b : List ℕ) (h : Header)
    → parse_uvc_header c.strict b ≡ some h
    → bit 64 h.info ≡ false
    → reads c (h.info % 2) (payload b) ≡ some (drop h.hlen b)
unfolding reads
reads_header c b h e x = ground (arith, e, x)

feed-Sound :
    (c : Config) (es : List Event) (b : List ℕ) (ts : ℕ) (a : Assembly)
    → Inv c es a
    → Sound c (es ++ (payload b, ts) ∷ []) (feed c b ts a)
unfolding feed
feed-Sound c es b ts a v = elim (Option-cases (parse_uvc_header c.strict b)) [
  | inl e ↦ rw (e, feed) (poison-Sound c (es ++ (payload b, ts) ∷ []) (count_bad a))
  | inr (h, e) ↦
      rw (e, feed)
        (feed_data-Sound c es (payload b) ts h.info (drop h.hlen b) (reads_header c b h e) a.phase a
          refl v)
]

feed_packet-Sound :
    (c : Config) (es : List Event) (p : Packet) (ts : ℕ) (a : Assembly)
    → Inv c es a
    → Sound c (es ++ (p, ts) ∷ []) (feed_packet c p ts a)
unfolding feed_packet
feed_packet-Sound c es lost ts a v = poison-Sound c (es ++ (lost, ts) ∷ []) (count_cut a)
feed_packet-Sound c es (payload b) ts a v = feed-Sound c es b ts a v

feed_packets-Sound :
    (c : Config) (es ps : List Event) (a : Assembly)
    → Inv c es a
    → Sound c (es ++ ps) (feed_packets c ps a)
unfolding feed_packets
feed_packets-Sound c es [] a v =
    subst (λ l. Sound c l ([], a)) (sym (append-nil es)) (record { given = tt; inv = v })
feed_packets-Sound c es ((p, ts) ∷ ps) a v =
    let one = feed_packet-Sound c es p ts a v in
    let (out, b) = feed_packet c p ts a in
    let rest = feed_packets-Sound c (es ++ (p, ts) ∷ []) ps b one.inv in
    let shift = append_assoc es ((p, ts) ∷ []) ps in
    subst (λ l. Sound c l (out ++ (feed_packets c ps b).0, (feed_packets c ps b).1)) shift
      (record {
        given =
            All-join (Intact c ((es ++ (p, ts) ∷ []) ++ ps)) out (feed_packets c ps b).0
              (All-Intact-append c (es ++ (p, ts) ∷ []) ps out one.given) rest.given;
        inv = rest.inv;
      })

reset-Inv : (c : Config) → Inv c [] reset
unfolding Inv reset
reset-Inv c h = cc

-- Whatever the packets of an isochronous stream are, of any content and with any of them marked as lost: every frame given
-- is what a block of successive packets holds, none of which is lost, has a bad header, ERR or another
-- FID; it has the time of the block's first packet, and is one that the configuration accepts.
pub feed_packets-Intact :
    (c : Config) (ps : List (Packet × ℕ)) → All (Intact c ps) (feed_packets c ps reset).0
feed_packets-Intact c ps = (feed_packets-Sound c [] ps reset (reset-Inv c)).given
