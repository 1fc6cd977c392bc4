-- ===== src/Uvc/Bulk.antt =====
-- A payload that spans bulk transfers: `_feed_bulk` of core-driver/cam_driver/uvcpcap.py.
use mathlib.Core.List.{append-nil, append_assoc}
use camera_service.Common.{
  ℕ, ◌+◌, ◌≤◌, ◌<◌, ◌≡◌, refl, sym, ◌∙◌, ap, true, false, some, List, [], ◌∷◌, ◌++◌, length,
  length-append, Bool-cases, inl, inr, arith, if◌then◌else◌,
}
use camera_service.Usbmon.{Urb, buffer}
use camera_service.Uvc.{Config, Assembly, Frame, feed}
use camera_service.Uvc.Capture.{
  Endpoint, Walk, drop_pending, feed_pending, pending_max, grow, take_bulk, on_urb,
}
use camera_service.Uvc.Transfers.{
  Transfer, asking, answer, transfers, buffer-answer, take_bulk-filled, take_bulk-short,
  transfer_taken,
}

-- The bytes of a payload, and when it started, while a transfer may add to it.
abbrev pub held : Walk → List ℕ
held w = if w.bulk_cont then w.pending else []

abbrev pub since : ℕ → Walk → ℕ
since ts w = if w.bulk_cont then w.pending_ts else ts

grow-pending : (u : Urb) (ts : ℕ) (w : Walk) → (grow u ts w).pending ≡ held w ++ buffer u
unfolding grow
grow-pending u ts w = elim (Bool-cases w.bulk_cont) [ inl k ↦ rw k refl | inr k ↦ rw k refl ]

grow-pending_ts : (u : Urb) (ts : ℕ) (w : Walk) → (grow u ts w).pending_ts ≡ since ts w
unfolding grow
grow-pending_ts u ts w = elim (Bool-cases w.bulk_cont) [ inl k ↦ rw k refl | inr k ↦ rw k refl ]

grow-assembly : (u : Urb) (ts : ℕ) (w : Walk) → (grow u ts w).assembly ≡ w.assembly
unfolding grow
grow-assembly u ts w = elim (Bool-cases w.bulk_cont) [ inl k ↦ rw k refl | inr k ↦ rw k refl ]

-- The transfers of one payload: all of them filled, but for the last, which is short.
unfoldable pub Spans : Transfer → List Transfer → Type 0
Spans t [] = 0 < length t.bytes × length t.bytes < t.asked
Spans t (s ∷ ss) = (0 < length t.bytes × length t.bytes ≡ t.asked) × Spans s ss

unfoldable pub joined : Transfer → List Transfer → List ℕ
joined t [] = t.bytes
joined t (s ∷ ss) = t.bytes ++ joined s ss

-- The payload was fed once, and is over.
pub record FedOnce (c : Config) (b : List ℕ) (ts : ℕ) (w : Walk) (r : List Frame × Walk)
    : Type 0 where
  pub out : r.0 ≡ (feed c b ts w.assembly).0
  pub assembly : r.1.assembly ≡ (feed c b ts w.assembly).1
  pub over : r.1.bulk_cont ≡ false

feed_pending-FedOnce :
    (c : Config) (w : Walk)
    → 0 < length w.pending
    → FedOnce c w.pending w.pending_ts w (feed_pending c w)
unfolding feed_pending drop_pending
feed_pending-FedOnce c w p = go w.pending refl p
  where
    go :
        (b : List ℕ)
        → w.pending ≡ b
        → 0 < length b
        → FedOnce c w.pending w.pending_ts w (feed_pending c w)
    go [] e q = ground (arith, q)
    go (b ∷ bs) e q = rw e (record { out = refl; assembly = refl; over = refl })

FedOnce-along :
    (c : Config) (b b' : List ℕ) (ts ts' : ℕ) (w w' : Walk) (r r' : List Frame × Walk)
    → b ≡ b'
    → ts ≡ ts'
    → w.assembly ≡ w'.assembly
    → r'.0 ≡ r.0
    → r'.1 ≡ r.1
    → FedOnce c b ts w r
    → FedOnce c b' ts' w' r'
FedOnce-along c b b' ts ts' w w' r r' i j k l m h =
    let same : feed c b ts w.assembly ≡ feed c b' ts' w'.assembly = cc in
    record {
      out = l ∙ h.out ∙ ap (λ (x : List Frame × Assembly). x.0) same;
      assembly =
          ap (λ (x : Walk). x.assembly) m
          ∙ h.assembly
          ∙ ap (λ (x : List Frame × Assembly). x.1) same;
      over = ap (λ (x : Walk). x.bulk_cont) m ∙ h.over;
    }

-- The walk once the two records of a transfer are counted, and the payload with its bytes.
module _ (e : Endpoint) (t : Transfer) (w : Walk) (k : List (ℕ × ℕ)) where
  abbrev counted : Walk
  counted = record w { req_len = k; urbs = w.urbs + 1 }

  abbrev grown : Walk
  grown = grow (answer e t) t.ts_ns counted

  grown-pending : grown.pending ≡ held w ++ t.bytes
  grown-pending =
      grow-pending (answer e t) t.ts_ns counted
      ∙ ap (λ (b : List ℕ). held w ++ b) (buffer-answer e t)

  grown_filled : 0 < length t.bytes → 0 < length grown.pending
  grown_filled p = rw grown-pending (omega (arith, p, length-append (held w) t.bytes))

last_transfer :
    (c : Config) (e : Endpoint) (t : Transfer) (w : Walk)
    → c.max_payload ≡ 0
    → Spans t []
    → length (held w ++ t.bytes) ≤ pending_max
    → FedOnce c (held w ++ t.bytes) (since t.ts_ns w) w (transfers c e (t ∷ []) w)
unfolding Spans transfers
last_transfer c e t w m (p, q) b =
    let (k, taken) = transfer_taken c e t w p in
    let g = grown e t w k in
    let pending = grown-pending e t w k in
    let fits : length g.pending ≤ pending_max = rw pending b in
    let short = taken ∙ take_bulk-short c (answer e t) t.ts_ns t.asked (counted e t w k) m q fits in
    let once = feed_pending-FedOnce c g (grown_filled e t w k p) in
    let r = on_urb c e (answer e t) t.ts_ns (on_urb c e (asking e t) t.ts_ns w).1 in
    FedOnce-along c g.pending (held w ++ t.bytes) g.pending_ts (since t.ts_ns w) g w
      (feed_pending c g) (transfers c e (t ∷ []) w) pending
      (grow-pending_ts (answer e t) t.ts_ns (counted e t w k))
      (grow-assembly (answer e t) t.ts_ns (counted e t w k))
      (append-nil r.0 ∙ ap (λ (x : List Frame × Walk). x.0) short)
      (ap (λ (x : List Frame × Walk). x.1) short) once

-- A transfer that is filled: the rest goes on from a walk that holds its bytes.
record Goes (c : Config) (e : Endpoint) (t : Transfer) (ss : List Transfer) (w g : Walk)
    : Type 0 where
  cont : g.bulk_cont ≡ true
  pending : g.pending ≡ held w ++ t.bytes
  time : g.pending_ts ≡ since t.ts_ns w
  same : g.assembly ≡ w.assembly
  rest : transfers c e (t ∷ ss) w ≡ transfers c e ss g

filled_transfer :
    (c : Config) (e : Endpoint) (t : Transfer) (ss : List Transfer) (w : Walk)
    → c.max_payload ≡ 0
    → 0 < length t.bytes
    → length t.bytes ≡ t.asked
    → length (held w ++ t.bytes) ≤ pending_max
    → (g : Walk) × Goes c e t ss w g
unfolding transfers
filled_transfer c e t ss w m p q b =
    let (k, taken) = transfer_taken c e t w p in
    let g = grown e t w k in
    let pending = grown-pending e t w k in
    let fits : length g.pending ≤ pending_max = rw pending b in
    let filled =
      taken
      ∙ ap (λ n. take_bulk c (answer e t) t.ts_ns (some n) (counted e t w k)) (sym q)
      ∙ take_bulk-filled c (answer e t) t.ts_ns (counted e t w k) m (grown_filled e t w k p) fits in
    (
      record g { bulk_cont = true },
      record {
        cont = refl;
        pending = pending;
        time = grow-pending_ts (answer e t) t.ts_ns (counted e t w k);
        same = grow-assembly (answer e t) t.ts_ns (counted e t w k);
        rest = rw filled refl;
      },
    )

transfers_spanned :
    (c : Config) (e : Endpoint) (t : Transfer) (ss : List Transfer) (w : Walk)
    → c.max_payload ≡ 0
    → Spans t ss
    → length (held w ++ joined t ss) ≤ pending_max
    → FedOnce c (held w ++ joined t ss) (since t.ts_ns w) w (transfers c e (t ∷ ss) w)
unfolding Spans joined
transfers_spanned c e t [] w m s b = last_transfer c e t w m s b
transfers_spanned c e t (s ∷ ss) w m ((p, q), h) b =
    let apart = append_assoc (held w) t.bytes (joined s ss) in
    let lengths : length (held w ++ t.bytes) ≤ pending_max = omega (
      arith,
      b,
      length-append (held w) t.bytes,
      length-append (held w) (t.bytes ++ joined s ss),
      length-append t.bytes (joined s ss),
    ) in
    let (g, goes) = filled_transfer c e t (s ∷ ss) w m p q lengths in
    let holds : held g ≡ held w ++ t.bytes = rw (goes.cont, goes.pending) refl in
    let began : since s.ts_ns g ≡ since t.ts_ns w = rw (goes.cont, goes.time) refl in
    let joins : held g ++ joined s ss ≡ held w ++ (t.bytes ++ joined s ss) = rw holds apart in
    let fits : length (held g ++ joined s ss) ≤ pending_max = rw joins b in
    FedOnce-along c (held g ++ joined s ss) (held w ++ (t.bytes ++ joined s ss)) (since s.ts_ns g)
      (since t.ts_ns w) g w (transfers c e (s ∷ ss) g) (transfers c e (t ∷ s ∷ ss) w) joins began
      goes.same (ap (λ (x : List Frame × Walk). x.0) goes.rest)
      (ap (λ (x : List Frame × Walk). x.1) goes.rest) (transfers_spanned c e s ss g m h fits)

-- The bytes of one UVC payload come in several bulk transfers, each of them submitted and answered on the
-- stream's endpoint with all of its bytes there: all filled up to what was requested, but for the last, which
-- is shorter. No maximal payload size was negotiated, no payload is open, and the bytes together are at most
-- 64 MB. Then the extractor is fed once, with the bytes of all transfers joined and the time of the first, and
-- its frames and its assembly are those of that payload; afterwards no payload is open.
pub feed_bulk-joined :
    (c : Config) (e : Endpoint) (t : Transfer) (ss : List Transfer) (w : Walk)
    → c.max_payload ≡ 0
    → w.bulk_cont ≡ false
    → Spans t ss
    → length (joined t ss) ≤ pending_max
    → FedOnce c (joined t ss) t.ts_ns w (transfers c e (t ∷ ss) w)
feed_bulk-joined c e t ss w m o s b =
    let none_held : held w ≡ [] = rw o refl in
    let now : since t.ts_ns w ≡ t.ts_ns = rw o refl in
    let bytes : held w ++ joined t ss ≡ joined t ss = rw none_held refl in
    let fits : length (held w ++ joined t ss) ≤ pending_max = rw bytes b in
    let r = transfers c e (t ∷ ss) w in
    FedOnce-along c (held w ++ joined t ss) (joined t ss) (since t.ts_ns w) t.ts_ns w w r r bytes
      now refl refl refl (transfers_spanned c e t ss w m s fits)
