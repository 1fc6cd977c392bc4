-- ===== src/Framing/Tests.antt =====
-- A header, a pinned format and a padded message.
use camera_service.Common.{ℕ, ◌≡◌, refl, some, List, [], ◌∷◌}
use camera_service.Common.Text.{codes}
use camera_service.Transport.{pack}
use camera_service.Framing.{pack_header, Pinned, pin, packed_rows, unpad_rows}
use camera_service.Framing.Mirror.{pack_header-pack}

pack_header-pack_example :
    pack_header 1700000000000000001 7 640 512 (codes "RGB") (codes "camera")
    ≡ pack (record {
      timestamp_ns = 1700000000000000001;
      frame_id = 7;
      width = 640;
      height = 512;
      pixfmt = codes "RGB";
      ts_source = codes "camera";
      flags = 0;
      version = 1;
    })
pack_header-pack_example =
    pack_header-pack 1700000000000000001 7 640 512 (codes "RGB") (codes "camera")

abbrev mosaic : Pinned
unfolding pin
mosaic = pin (codes "GRAY8") (some (codes "rggb")) 4 2

-- Two rows of three pixels, with a byte of padding each.
abbrev message : List ℕ
message = 1 ∷ 2 ∷ 3 ∷ 0 ∷ 4 ∷ 5 ∷ 6 ∷ 0 ∷ []

unpadded : unpad_rows message 4 3 2 ≡ 1 ∷ 2 ∷ 3 ∷ 4 ∷ 5 ∷ 6 ∷ []
unfolding unpad_rows packed_rows
unpadded = refl
