-- ===== src/Pcap/Tests.antt =====
-- A classic file of two records, whole and cut, and the pcapng options.
use camera_service.Common.{
  ℕ, ◌≡◌, refl, true, false, none, List, [], ◌∷◌, ◌++◌, map, take, drop, arith,
}
use camera_service.Transport.{to_bytes, from_little}
use camera_service.Pcap.{
  int, iter_packets, options, interface_turn, fail, no_option_value, tsresol_to_ns,
}
use camera_service.Pcap.Prefix.{Begins, iter_packets-Begins}
use camera_service.Pcap.Classic.{
  Captured, int_bytes, record_bytes, records, magic_bytes, capture_file, frac_ns, packet_of,
  iter_packets-capture_file,
}

abbrev two : List Captured
two =
    record { ts_sec = 3; ts_frac = 250; payload = 7 ∷ 8 ∷ [] }
    ∷ record { ts_sec = 4; ts_frac = 1; payload = 9 ∷ [] }
    ∷ []

iter_packets-capture_file_example :
    iter_packets (capture_file false false 65535 220 two)
    ≡ record { packets = map (packet_of 220 (frac_ns false)) two; error = none }
iter_packets-capture_file_example =
    iter_packets-capture_file false false 65535 220 two (omega arith) (omega arith)

abbrev file : List ℕ
unfolding capture_file magic_bytes records record_bytes int_bytes to_bytes
file = capture_file true false 65535 220 two

iter_packets-Begins_example :
    Begins (iter_packets (take 50 file)) (iter_packets (take 50 file ++ drop 50 file))
unfolding capture_file magic_bytes records record_bytes int_bytes to_bytes
iter_packets-Begins_example = iter_packets-Begins (take 50 file) (drop 50 file) (omega arith)

-- An interface block whose last option is an if_tsresol without its value.
no_value :
    interface_turn true [] (220 ∷ 0 ∷ 0 ∷ 0 ∷ 0 ∷ 0 ∷ 0 ∷ 0 ∷ 9 ∷ 0 ∷ 1 ∷ 0 ∷ []) []
    ≡ fail no_option_value
unfolding interface_turn options int from_little
no_value = refl

quarter_seconds : tsresol_to_ns 130 3 ≡ 750000000
unfolding tsresol_to_ns
quarter_seconds = refl
