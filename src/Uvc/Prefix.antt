-- ===== src/Uvc/Prefix.antt =====
-- The frames of a capture that was cut off: `__iter__` of core-driver/cam_driver/uvcpcap.py over
-- core-driver/cam_driver/pcapio.py.
use mathlib.Core.List.{append_assoc}
use camera_service.Common.{ℕ, ◌≤◌, ◌≡◌, refl, sym, ◌∙◌, ap, List, [], ◌∷◌, ◌++◌, length}
use camera_service.Pcap
use camera_service.Pcap.Prefix.{iter_packets-Begins}
use camera_service.Uvc.{Config, Frame}
use camera_service.Uvc.Capture.{Endpoint, Walk, new_walk, on_packet, walk, frames_of_file}

-- The frames of a walk over packets that follow others.
walk-append :
    (c : Config) (e : Endpoint) (ps qs : List Pcap.Packet) (w : Walk)
    → (walk c e (ps ++ qs) w).0 ≡ (walk c e ps w).0 ++ (walk c e qs (walk c e ps w).1).0
unfolding walk
walk-append c e [] qs w = refl
walk-append c e (p ∷ ps) qs w =
    let step = on_packet c e p w in
    let rest = walk c e ps step.1 in
    ap (λ (fs : List Frame). step.0 ++ fs) (walk-append c e ps qs step.1)
    ∙ sym (append_assoc step.0 rest.0 (walk c e qs rest.1).0)

-- A capture file of which at least the first 24 bytes are there, and whatever bytes are missing
-- behind them: the frames that are extracted from it are the first frames of the whole file, each the
-- same and in the same order.
pub frames_of_file-append :
    (c : Config) (e : Endpoint) (a b : List ℕ)
    → 24 ≤ length a
    → (more : List Frame) × (frames_of_file c e (a ++ b) ≡ frames_of_file c e a ++ more)
unfolding frames_of_file
frames_of_file-append c e a b h =
    let begins = iter_packets-Begins a b h in
    let ps = (Pcap.iter_packets a).packets in
    let after = (walk c e ps new_walk).1 in
    (
      (walk c e begins.packets.0 after).0,
      ap (λ (qs : List Pcap.Packet). (walk c e qs new_walk).0) begins.packets.1
          ∙ walk-append c e ps begins.packets.0 new_walk,
    )
