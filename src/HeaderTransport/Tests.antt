-- ===== src/HeaderTransport/Tests.antt =====
-- A header of version 1 with two pixels, and one whose length points behind the buffer.
use camera_service.Common.{ℕ, ◌≡◌, refl, List, [], ◌∷◌}
use camera_service.Common.Text.{codes, text_eq}
use camera_service.Transport.{from_little, name_of, unpack_header}
use camera_service.HeaderTransport.{
  bad_header_len, failed, parsed, decimal, source_name, parse_format, parse_header,
}
use camera_service.HeaderTransport.Mirror.{Mirrors, parse_header-unpack_header}

abbrev sample : ℕ → List ℕ
sample header_len =
    67 ∷ 65 ∷ 77 ∷ 70 ∷ 1 ∷ 0 ∷ header_len ∷ 0 ∷ 9 ∷ 0 ∷ 0 ∷ 0 ∷ 0 ∷ 0 ∷ 0 ∷ 0 ∷ 7 ∷ 0 ∷ 0 ∷ 0 ∷ 0
    ∷ 0 ∷ 0 ∷ 0 ∷ 2 ∷ 0 ∷ 1 ∷ 0 ∷ 1 ∷ 0 ∷ 0 ∷ 0 ∷ 42 ∷ 0 ∷ 0 ∷ 0 ∷ 11 ∷ 12 ∷ []

parse_header-unpack_header_example :
    Mirrors (sample 36) (parse_header (sample 36)) (unpack_header (sample 36))
parse_header-unpack_header_example = parse_header-unpack_header (sample 36)

-- A source of time that the table does not hold keeps its number.
unknown_source :
    parse_header (sample 36)
    ≡ parsed (record {
      timestamp_ns = 9;
      frame_id = 7;
      width = 2;
      height = 1;
      pixfmt = codes "GRAY8";
      ts_source = codes "42";
      header_len = 36;
    })
unfolding parse_header parse_format source_name decimal name_of from_little text_eq
unknown_source = refl

behind_the_buffer : parse_header (sample 39) ≡ failed bad_header_len
unfolding parse_header from_little text_eq
behind_the_buffer = refl
