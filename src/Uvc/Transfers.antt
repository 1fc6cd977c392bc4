-- ===== src/Uvc/Transfers.antt =====
-- A bulk transfer as the two records of it in a capture, and what `_feed_bulk` of
-- core-driver/cam_driver/uvcpcap.py makes of each.
use camera_service.Common.{
  ℕ, zero, suc, ◌+◌, ◌-◌, ◌*◌, ◌≤◌, ◌<◌, ◌≡◌, refl, ap, true, false, ◌&&◌, some, List, [], ◌∷◌,
  ◌++◌, length, take, min, drop-length_append, length-append, ltb, ◌==◌, arith,
}
use camera_service.Usbmon.{Urb, buffer, submission, completion, xfer_bulk}
use camera_service.Uvc.{Config, Frame}
use camera_service.Uvc.Capture.{
  Endpoint, Walk, requested, without, feed_pending, feed_full, pending_max, grow, take_bulk,
  feed_bulk, complete, submit, on_urb,
}

-- A bulk transfer: what is requested and what comes back, each record behind a usbmon header.
pub record Transfer : Type 0 where
  pub id : ℕ
  pub header : List ℕ
  pub asked : ℕ
  pub bytes : List ℕ
  pub ts_ns : ℕ

abbrev pub asking : Endpoint → Transfer → Urb
asking e t = record {
  urb_id = t.id;
  kind = submission;
  xfer = xfer_bulk;
  ep = e.ep;
  is_in = true;
  dev = e.dev;
  bus = e.bus;
  has_setup = false;
  has_data = false;
  len = t.asked;
  len_cap = 0;
  setup = [];
  ndesc = 0;
  hdr_len = length t.header;
  bytes = t.header;
}

abbrev pub answer : Endpoint → Transfer → Urb
answer e t = record (asking e t) {
  kind = completion;
  has_data = true;
  len = length t.bytes;
  len_cap = length t.bytes;
  bytes = t.header ++ t.bytes;
}

-- The records of the transfers, one behind the other.
unfoldable pub transfers : Config → Endpoint → List Transfer → Walk → List Frame × Walk
transfers c e [] w = ([], w)
transfers c e (t ∷ ts) w =
    let (out, w') = on_urb c e (answer e t) t.ts_ns (on_urb c e (asking e t) t.ts_ns w).1 in
    let (more, w'') = transfers c e ts w' in (out ++ more, w'')

take-all : (xs : List ℕ) → take (length xs) xs ≡ xs
take-all [] = refl
take-all (x ∷ xs) = ap (λ (ys : List ℕ). x ∷ ys) (take-all xs)

pub buffer-answer : (e : Endpoint) (t : Transfer) → buffer (answer e t) ≡ t.bytes
unfolding buffer
buffer-answer e t =
    let n = length-append t.header t.bytes in
    let span : length t.header
          + min (length t.bytes) (length (t.header ++ t.bytes) - length t.header)
          - (length t.header + 0 * 16)
        ≡ length t.bytes =
      ground (arith, n) in
    let start : length t.header + 0 * 16 ≡ length t.header = omega arith in
    rw (span, start, drop-length_append t.header t.bytes) (take-all t.bytes)

asked-first : (k n : ℕ) (rest : List (ℕ × ℕ)) → requested k ((k, n) ∷ rest) ≡ some n
unfolding requested
asked-first k n rest = ground arith

-- Without a bound no payload ends in a transfer.
feed_full-unbounded :
    (c : Config) (ts fuel : ℕ) (w : Walk) → c.max_payload ≡ 0 → feed_full c ts fuel w ≡ ([], w)
unfolding feed_full
feed_full-unbounded c ts zero w e = refl
feed_full-unbounded c ts (suc fuel) w e = ground (arith, e)

-- A transfer that is filled goes on, and one that is short ends the payload.
pub take_bulk-filled :
    (c : Config) (u : Urb) (ts : ℕ) (w : Walk)
    → c.max_payload ≡ 0
    → 0 < length (grow u ts w).pending
    → length (grow u ts w).pending ≤ pending_max
    → take_bulk c u ts (some u.len) w ≡ ([], record (grow u ts w) { bulk_cont = true })
unfolding take_bulk
take_bulk-filled c u ts w e p b =
    let g = grow u ts w in
    let n = length g.pending in
    let unbounded = feed_full-unbounded c ts n g e in
    let kept : ltb pending_max n ≡ false = ground (arith, b) in
    let filled : ltb u.len u.len ≡ false = ground arith in
    let more : ltb 0 n ≡ true = ground (arith, p) in rw (unbounded, kept, filled, more) refl

pub take_bulk-short :
    (c : Config) (u : Urb) (ts asked : ℕ) (w : Walk)
    → c.max_payload ≡ 0
    → u.len < asked
    → length (grow u ts w).pending ≤ pending_max
    → take_bulk c u ts (some asked) w ≡ feed_pending c (grow u ts w)
unfolding take_bulk
take_bulk-short c u ts asked w e p b =
    let g = grow u ts w in
    let n = length g.pending in
    let unbounded = feed_full-unbounded c ts n g e in
    let kept : ltb pending_max n ≡ false = ground (arith, b) in
    let short : ltb u.len asked ≡ true = ground (arith, p) in rw (unbounded, kept, short) refl

-- The two records of a transfer.
pub transfer_taken :
    (c : Config) (e : Endpoint) (t : Transfer) (w : Walk)
    → 0 < length t.bytes
    → (k : List (ℕ × ℕ)) × (on_urb c e (answer e t) t.ts_ns (on_urb c e (asking e t) t.ts_ns w).1
        ≡ take_bulk c
            (answer e t)
            t.ts_ns
            (some t.asked)
            (record w { req_len = k; urbs = w.urbs + 1 }))
unfolding on_urb complete feed_bulk submit
transfer_taken c e t w p =
    let here : (e.dev == e.dev && e.bus == e.bus && true && e.ep == e.ep) ≡ true = ground arith in
    let some_bytes : (length t.bytes == 0) ≡ false = ground (arith, p) in
    let whole : ltb (length (buffer (answer e t))) (length t.bytes) ≡ false =
      rw (buffer-answer e t) (ground arith) in
    let known = asked-first t.id t.asked (without t.id w.req_len) in
    (
      without t.id ((t.id, t.asked) ∷ without t.id w.req_len),
      rw (here, some_bytes, whole, known) refl,
    )
