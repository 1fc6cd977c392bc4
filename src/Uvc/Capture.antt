-- ===== src/Uvc/Capture.antt =====
-- The walk over a capture: `__iter__`, `_feed_bulk` and `_end_of_capture` of core-driver/cam_driver/uvcpcap.py.
use camera_service.Common.{
  ℕ, zero, suc, ◌+◌, ◌*◌, Bool, true, false, not, ◌&&◌, Option, none, some, List, [], ◌∷◌, ◌++◌,
  length, take, drop, ltb, leb, ◌==◌, if◌then◌else◌,
}
use camera_service.Pcap
use camera_service.Usbmon.{
  Packet, Urb, buffer, parse, is_usb, iso_packets, xfer_iso, xfer_bulk, submission, completion,
}
use camera_service.Uvc.{Config, Assembly, reset, Frame, poison, count_cut, feed, feed_packet}

-- The endpoint of the stream.
pub record Endpoint : Type 0 where
  pub bus : ℕ
  pub dev : ℕ
  pub ep : ℕ

-- `req_len` keeps the requested length of a submission by its id, the newest first.
pub record Walk : Type 0 where
  pub assembly : Assembly
  pub bulk_cont : Bool
  pub pending : List ℕ
  pub pending_ts : ℕ
  pub req_len : List (ℕ × ℕ)
  pub endian : Option Bool
  pub urbs : ℕ

unfoldable pub new_walk : Walk
new_walk = record {
  assembly = reset;
  bulk_cont = false;
  pending = [];
  pending_ts = 0;
  req_len = [];
  endian = none;
  urbs = 0;
}

-- `dict.get`, and the dict without the key.
unfoldable pub requested : ℕ → List (ℕ × ℕ) → Option ℕ
requested k [] = none
requested k ((j, n) ∷ rest) = if j == k then some n else requested k rest

unfoldable pub without : ℕ → List (ℕ × ℕ) → List (ℕ × ℕ)
without k [] = []
without k ((j, n) ∷ rest) = let kept = without k rest in if j == k then kept else (j, n) ∷ kept

unfoldable pub drop_pending : Walk → Walk
drop_pending w = record w { pending = []; bulk_cont = false }

-- A hole in a payload.
unfoldable pub cut_payload : Walk → Walk
cut_payload w = record (drop_pending w) { assembly = poison (count_cut w.assembly) }

-- Feeds what is pending, if there is something.
unfoldable pub feed_pending : Config → Walk → List Frame × Walk
feed_pending c w = elim w.pending [
  | [] ↦ ([], drop_pending w)
  | b ∷ bs ↦
      let (out, a) = feed c (b ∷ bs) w.pending_ts w.assembly in
      (out, record (drop_pending w) { assembly = a })
]

-- The payloads of full size in front; each takes a byte or more, so that the length is enough fuel.
unfoldable pub feed_full : Config → ℕ → ℕ → Walk → List Frame × Walk
feed_full c ts zero w = ([], w)
feed_full c ts (suc fuel) w =
    let (out, a) = feed c (take c.max_payload w.pending) w.pending_ts w.assembly in
    let rest =
      feed_full c ts fuel
        (record w { assembly = a; pending = drop c.max_payload w.pending; pending_ts = ts }) in
    if not (c.max_payload == 0) && leb c.max_payload (length w.pending)
    then (out ++ rest.0, rest.1)
    else ([], w)

abbrev pub pending_max : ℕ
pending_max = 64 * 1024 * 1024

-- The payload in front of a transfer's bytes, and a transfer whose bytes are all there, with the length that was requested.
unfoldable pub grow : Urb → ℕ → Walk → Walk
grow u ts w =
    if w.bulk_cont
    then record w { pending = w.pending ++ buffer u }
    else record w { pending = buffer u; pending_ts = ts }

unfoldable pub take_bulk : Config → Urb → ℕ → Option ℕ → Walk → List Frame × Walk
take_bulk c u ts req w =
    let grown = grow u ts w in
    let (out, fed) = feed_full c ts (length grown.pending) grown in
    let (last, over) = feed_pending c fed in
    let ends : Bool = elim req [ none ↦ true | some n ↦ ltb u.len n ] in
    if ltb pending_max (length grown.pending)
    then ([], record (drop_pending grown) { assembly = count_cut w.assembly })
    else if ends
    then (out ++ last, over)
    else (out, record fed { bulk_cont = ltb 0 (length fed.pending) })

unfoldable pub feed_bulk : Config → Urb → ℕ → Walk → List Frame × Walk
feed_bulk c u ts w =
    let popped : Walk = record w { req_len = without u.urb_id w.req_len } in
    let (out, over) = feed_pending c popped in
    if u.len == 0
    then (if w.bulk_cont then (out, over) else ([], drop_pending popped))
    else if not u.has_data
    then ([], cut_payload popped)
    else if ltb (length (buffer u)) u.len
    then ([], cut_payload w)
    else take_bulk c u ts (requested u.urb_id w.req_len) popped

-- The packets of an isochronous transfer.
unfoldable pub feed_iso : Config → List Packet → ℕ → Assembly → List Frame × Assembly
feed_iso c [] ts a = ([], a)
feed_iso c (p ∷ ps) ts a =
    let (out, b) = feed_packet c p ts a in let (more, d) = feed_iso c ps ts b in (out ++ more, d)

-- A completion on the endpoint.
unfoldable pub complete : Config → Urb → ℕ → Walk → List Frame × Walk
complete c u ts w =
    let counted : Walk = record w { urbs = w.urbs + 1 } in
    let (out, a) = feed_iso c (iso_packets w.endian u) ts w.assembly in
    if u.xfer == xfer_iso
    then (out, record counted { assembly = a })
    else if u.xfer == xfer_bulk
    then feed_bulk c u ts counted
    else ([], counted)

unfoldable pub submit : Urb → Walk → Walk
submit u w =
    if u.xfer == xfer_bulk
    then record w { req_len = (u.urb_id, u.len) ∷ without u.urb_id w.req_len }
    else w

-- A record that is parsed.
unfoldable pub on_urb : Config → Endpoint → Urb → ℕ → Walk → List Frame × Walk
on_urb c e u ts w =
    if not (u.dev == e.dev && u.bus == e.bus && u.is_in && u.ep == e.ep)
    then ([], w)
    else if u.kind == submission
    then ([], submit u w)
    else if u.kind == completion
    then complete c u ts w
    else ([], w)

unfoldable pub on_packet : Config → Endpoint → Pcap.Packet → Walk → List Frame × Walk
on_packet c e p w =
    let (urb, endian) = parse w.endian p.link_type p.payload in
    let locked : Walk = record w { endian = endian } in
    if is_usb p.link_type
    then elim urb [ none ↦ ([], locked) | some u ↦ on_urb c e u p.ts_ns locked ]
    else ([], w)

unfoldable pub walk : Config → Endpoint → List Pcap.Packet → Walk → List Frame × Walk
walk c e [] w = ([], w)
walk c e (p ∷ ps) w =
    let (out, w') = on_packet c e p w in let (more, w'') = walk c e ps w' in (out ++ more, w'')

-- How a pass ends: with frames, or with one of the errors.
pub data End : Type 0 where
  delivered no_transfer no_match no_frame : End

unfoldable pub end_of_capture : Walk → End
end_of_capture w =
    let st = w.assembly.stats in
    if ltb 0 st.frames_ok
    then delivered
    else if w.urbs == 0
    then no_transfer
    else if ltb 0 st.size_drops && ltb 0 (length st.sizes_seen)
    then no_match
    else no_frame

-- The frames of a file.
unfoldable pub frames_of_file : Config → Endpoint → List ℕ → List Frame
frames_of_file c e file = (walk c e (Pcap.iter_packets file).packets new_walk).0
