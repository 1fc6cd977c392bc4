-- ===== src/Framing/Mirror.antt =====
-- The writer's copies in plugins/ros2-source/cam_ros2_source/framing.py agree with what the core
-- reads: core-driver/cam_driver/transport.py and core-driver/cam_driver/formats.py.
use camera_service.Common.{
  ℕ, ◌≡◌, Bool, true, false, ◌||◌, Option, none, some, List, arith, if◌then◌else◌,
}
use camera_service.Common.Text.{codes}
use camera_service.Transport.{pack, packed}
use camera_service.Formats.{
  one_of, gst_mono, gst_color, contains, starts_with, parse_pixel_format, bytes_per_frame,
}
use camera_service.Framing.{pack_header, frame_bytes, Pinned, pin, pinned_bayer}

-- Whatever the stamp, the id, the geometry, the format and the source of time: the writer's header is
-- byte for byte the one that the core packs with version 1 and no flags, and both refuse the same.
pub pack_header-pack :
    (timestamp_ns frame_id width height : ℕ) (gst_format ts_source : List ℕ)
    → pack_header timestamp_ns frame_id width height gst_format ts_source
      ≡ pack (record {
        timestamp_ns = timestamp_ns;
        frame_id = frame_id;
        width = width;
        height = height;
        pixfmt = gst_format;
        ts_source = ts_source;
        flags = 0;
        version = 1;
      })
unfolding pack_header pack packed
pack_header-pack timestamp_ns frame_id width height gst_format ts_source = ground arith

pub frame_bytes-bytes_per_frame :
    (fmt : List ℕ) (width height : ℕ)
    → frame_bytes fmt width height ≡ bytes_per_frame fmt width height
unfolding frame_bytes bytes_per_frame one_of
frame_bytes-bytes_per_frame fmt width height = ground arith

-- The digits that tell the core of more than 8 bits.
abbrev pub deep : List ℕ → Bool
deep pf = contains (codes "16") pf || contains (codes "12") pf || contains (codes "10") pf

-- How the core parses what the writer accepts.
Parses : List ℕ → List ℕ → Option (List ℕ) → Type 0
Parses pf fmt bayer =
    let f = parse_pixel_format (some pf) in (f.gst_format ≡ fmt) × (f.bayer ≡ bayer)

-- The cases in which the writer accepts a name.
data Accepts (pf : List ℕ) (width height : ℕ) (p : Pinned) : Type 0 where
  raw_name :
      (one_of pf gst_mono || one_of pf gst_color) ≡ true
      → pin pf none width height ≡ p
      → Accepts pf width height p
  bayer_name :
      (pattern : List ℕ)
      → (one_of pf gst_mono || one_of pf gst_color) ≡ false
      → pinned_bayer pf ≡ some pattern
      → pin (codes "GRAY8") (some pattern) width height ≡ p
      → Accepts pf width height p
  mono_name :
      (one_of pf gst_mono || one_of pf gst_color) ≡ false
      → starts_with (codes "Mono") pf ≡ true
      → pin (if deep pf then codes "GRAY16_LE" else codes "GRAY8") none width height ≡ p
      → Accepts pf width height p
