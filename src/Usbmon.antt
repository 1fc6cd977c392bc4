-- ===== src/Usbmon.antt =====
-- The records of a usbmon capture: _Urb and _UsbmonParser of core-driver/cam_driver/uvcpcap.py. A record is
-- its bytes. The fields of the header that nothing reads are left out (status, interval and so on).
use camera_service.Common.{
  ℕ, zero, suc, ◌+◌, ◌-◌, ◌*◌, ◌/◌, ◌%◌, ◌^◌, Bool, true, false, not, ◌&&◌, ◌||◌, Option, none,
  some, List, [], ◌∷◌, length, take, drop, min, ltb, leb, ◌==◌, if◌then◌else◌,
}
use camera_service.Pcap.{field}

abbrev pub linktype_64 : ℕ
linktype_64 = 220

abbrev pub linktype_48 : ℕ
linktype_48 = 189

abbrev pub is_usb : ℕ → Bool
is_usb linktype = linktype == linktype_64 || linktype == linktype_48

-- The transfer types and the record types that are read: 'S', 'C' and 'E'.
abbrev pub xfer_iso : ℕ
xfer_iso = 0

abbrev pub xfer_bulk : ℕ
xfer_bulk = 3

abbrev pub submission : ℕ
submission = 83

abbrev pub completion : ℕ
completion = 67

abbrev pub error_event : ℕ
error_event = 69

pub record Urb : Type 0 where
  pub urb_id : ℕ
  pub kind : ℕ
  pub xfer : ℕ
  pub ep : ℕ
  pub is_in : Bool
  pub dev : ℕ
  pub bus : ℕ
  pub has_setup : Bool
  pub has_data : Bool
  pub len : ℕ
  pub len_cap : ℕ
  pub setup : List ℕ
  pub ndesc : ℕ
  pub hdr_len : ℕ
  pub bytes : List ℕ

-- `_Urb.data`: the captured buffer behind the descriptors.
unfoldable pub buffer : Urb → List ℕ
buffer u =
    let start = u.hdr_len + u.ndesc * 16 in
    let end = u.hdr_len + min u.len_cap (length u.bytes - u.hdr_len) in
    take (end - start) (drop start u.bytes)

-- A signed 32-bit count, as `max(0, ...)` reads it.
abbrev pub count_of : ℕ → ℕ
count_of n = if ltb n (2 ^ 31) then n else 0

-- The number of descriptors of an isochronous transfer.
unfoldable pub descriptors : Bool → ℕ → List ℕ → ℕ
descriptors little hdr_len rec =
    if hdr_len == 64
    then min (field little 60 4 rec) 128
    else min (count_of (field little 44 4 rec)) (min ((length rec - hdr_len) / 16) 128)

unfoldable pub parse_with : Bool → ℕ → List ℕ → Option Urb
parse_with little linktype rec =
    let hdr_len : ℕ = if linktype == linktype_64 then 64 else 48 in
    let epnum = field little 10 1 rec in
    let xfer = field little 9 1 rec in
    if ltb (length rec) hdr_len
    then none
    else some (record {
      urb_id = field little 0 8 rec;
      kind = field little 8 1 rec;
      xfer = xfer;
      ep = epnum % 128;
      is_in = leb 128 epnum;
      dev = field little 11 1 rec;
      bus = field little 12 2 rec;
      has_setup = field little 14 1 rec == 0;
      has_data = field little 15 1 rec == 0;
      len = field little 32 4 rec;
      len_cap = field little 36 4 rec;
      setup = take 8 (drop 40 rec);
      ndesc = if xfer == xfer_iso then descriptors little hdr_len rec else 0;
      hdr_len = hdr_len;
      bytes = rec;
    })

unfoldable pub plausible : Urb → Bool
plausible u =
    (u.kind == submission || u.kind == completion || u.kind == error_event)
    && leb u.xfer 3
    && leb u.bus 4096
    && leb u.len_cap (length u.bytes - u.hdr_len + 16 * 128)

unfoldable pub is_plausible : Option Urb → Bool
is_plausible none = false
is_plausible (some u) = plausible u

-- While both byte orders are plausible: the one with the smaller bus.
unfoldable pub prefer : Option Urb → Option Urb → Option Urb
prefer (some le) (some be) = if leb le.bus be.bus then some le else some be
prefer le be = le

-- `parse`: the record, and the byte order once it is locked.
unfoldable pub parse_unlocked : Option Urb → Option Urb → Option Urb × Option Bool
parse_unlocked le be =
    if is_plausible le && not (is_plausible be)
    then (le, some true)
    else if is_plausible be && not (is_plausible le)
    then (be, some false)
    else if is_plausible le && is_plausible be
    then (prefer le be, none)
    else (le, none)

unfoldable pub parse : Option Bool → ℕ → List ℕ → Option Urb × Option Bool
parse (some little) linktype rec = (parse_with little linktype rec, some little)
parse none linktype rec =
    parse_unlocked (parse_with true linktype rec) (parse_with false linktype rec)

-- What a packet of an isochronous transfer gives: its bytes, or that they are lost.
pub data Packet : Type 0 where
  lost : Packet
  payload : List ℕ → Packet

-- The packet of a descriptor of status, offset and length; an empty one gives nothing.
unfoldable pub iso_packet : ℕ → ℕ → ℕ → List ℕ → Option Packet
iso_packet status off size buf =
    if not (status == 0)
    then some lost
    else if size == 0
    then none
    else if ltb (length buf) (off + size)
    then some lost
    else some (payload (take size (drop off buf)))

unfoldable pub add_packet : Option Packet → List Packet → List Packet
add_packet none ps = ps
add_packet (some p) ps = p ∷ ps

-- `iso_payloads`, for `n` descriptors from the `i`-th on.
unfoldable pub iso_payloads : Bool → Urb → List ℕ → ℕ → ℕ → List Packet
iso_payloads little u buf i zero = []
iso_payloads little u buf i (suc n) =
    let off = u.hdr_len + i * 16 in
    let packet =
      iso_packet (field little off 4 u.bytes) (field little (off + 4) 4 u.bytes)
        (field little (off + 8) 4 u.bytes) buf in
    let rest = add_packet packet (iso_payloads little u buf (i + 1) n) in
    if ltb (length u.bytes) (off + 16) then [] else rest

unfoldable pub iso_packets : Option Bool → Urb → List Packet
iso_packets none u = iso_payloads true u (buffer u) 0 u.ndesc
iso_packets (some little) u = iso_payloads little u (buffer u) 0 u.ndesc
