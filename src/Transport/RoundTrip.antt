-- ===== src/Transport/RoundTrip.antt =====
-- A header that core-driver/cam_driver/transport.py packs is what its consumers unpack.
use camera_service.Common.{
  ℕ, ◌%◌, ◌^◌, ◌<◌, ◌≡◌, refl, ap, true, false, Option, none, some, List, ◌++◌, length, take, ltb,
  arith, Option-cases, inl, inr,
}
use camera_service.Common.Text.{codes, text_eq}
use camera_service.Transport.{
  to_bytes, code_of, name_of, pixel_formats, ts_sources, magic, header_size, FrameHeader, packed,
  pack, or_default, or_text, field, unpack_header,
}
use camera_service.Transport.Bytes.{from_little-to_bytes, name_of-code_of, code_of-within}

-- What the wire can carry of a header: 64 bits of the stamp and of the id, 8 bits of the flags, and
-- "camera" for a source that has no code.
abbrev pub known : Option ℕ → List ℕ → List ℕ
known none name = codes "camera"
known (some code) name = name

abbrev pub carried : FrameHeader → FrameHeader
carried h = record h {
  timestamp_ns = h.timestamp_ns % 2 ^ 64;
  frame_id = h.frame_id % 2 ^ 64;
  ts_source = known (code_of h.ts_source ts_sources) h.ts_source;
  flags = h.flags % 256;
}

source_code_bound : (h : FrameHeader) → or_default (code_of h.ts_source ts_sources) 1 < 256
source_code_bound h = elim (Option-cases (code_of h.ts_source ts_sources)) [
  | inl e ↦ rw e (omega arith)
  | inr (c, e) ↦ rw e (code_of-within h.ts_source c 256 ts_sources refl e)
]

packed-length :
    (code : ℕ) (h : FrameHeader) (pixels : List ℕ)
    → ltb (length (packed code h ++ pixels)) header_size ≡ false
unfolding packed to_bytes
packed-length code h pixels = ground arith

packed-magic :
    (code : ℕ) (h : FrameHeader) (pixels : List ℕ)
    → text_eq (take 4 (packed code h ++ pixels)) magic ≡ true
unfolding packed to_bytes text_eq
packed-magic code h pixels = refl

-- The fields of a packed header, where it was written.
record Fields (code : ℕ) (h : FrameHeader) (d : List ℕ) : Type 0 where
  version : field 4 2 d ≡ h.version
  timestamp_ns : field 8 8 d ≡ h.timestamp_ns % 2 ^ 64
  frame_id : field 16 8 d ≡ h.frame_id % 2 ^ 64
  width : field 24 2 d ≡ h.width
  height : field 26 2 d ≡ h.height
  pixfmt : field 28 4 d ≡ code
  ts_source : field 32 1 d ≡ or_default (code_of h.ts_source ts_sources) 1
  flags : field 33 1 d ≡ h.flags % 256

packed-Fields :
    (code : ℕ) (h : FrameHeader) (pixels : List ℕ)
    → code < 2 ^ 32
    → h.version < 2 ^ 16
    → h.width < 2 ^ 16
    → h.height < 2 ^ 16
    → Fields code h (packed code h ++ pixels)
unfolding packed to_bytes
packed-Fields code h pixels c v w k = record {
  version = from_little-to_bytes 2 h.version (omega arith);
  timestamp_ns = from_little-to_bytes 8 (h.timestamp_ns % 2 ^ 64) (omega arith);
  frame_id = from_little-to_bytes 8 (h.frame_id % 2 ^ 64) (omega arith);
  width = from_little-to_bytes 2 h.width (omega arith);
  height = from_little-to_bytes 2 h.height (omega arith);
  pixfmt = from_little-to_bytes 4 code (omega arith);
  ts_source =
      from_little-to_bytes 1 (or_default (code_of h.ts_source ts_sources) 1)
        (omega (arith, source_code_bound h));
  flags = from_little-to_bytes 1 (h.flags % 256) (omega arith);
}

camera_named : or_text (name_of 1 ts_sources) (codes "camera") ≡ codes "camera"
unfolding name_of
camera_named = refl

source_back :
    (name : List ℕ)
    → or_text (name_of (or_default (code_of name ts_sources) 1) ts_sources) (codes "camera")
      ≡ known (code_of name ts_sources) name
source_back name = elim (Option-cases (code_of name ts_sources)) [
  | inl e ↦ rw e camera_named
  | inr (c, e) ↦ rw (e, name_of-code_of name c ts_sources refl e) refl
]

unpack_header-Fields :
    (code : ℕ) (h : FrameHeader) (d : List ℕ)
    → ltb (length d) header_size ≡ false
    → text_eq (take 4 d) magic ≡ true
    → Fields code h d
    → name_of code pixel_formats ≡ some h.pixfmt
    → h.version ≡ 1
    → unpack_header d ≡ some (carried h)
unfolding unpack_header
unpack_header-Fields code h d l m f n v =
    let b = source_back h.ts_source in
    ground (
      arith,
      l,
      m,
      n,
      v,
      b,
      ap (λ (c : ℕ). name_of c pixel_formats) f.pixfmt,
      ap (λ (c : ℕ). or_text (name_of c ts_sources) (codes "camera")) f.ts_source,
      f.version,
      f.timestamp_ns,
      f.frame_id,
      f.width,
      f.height,
      f.flags,
    )

pack-none :
    (h : FrameHeader) (d : List ℕ) → code_of h.pixfmt pixel_formats ≡ none → pack h ≡ some d → ⊥
unfolding pack
pack-none h d n e = ground (arith, n, e)

pack-some :
    (code : ℕ) (h : FrameHeader) (d : List ℕ)
    → code_of h.pixfmt pixel_formats ≡ some code
    → pack h ≡ some d
    → (d ≡ packed code h) × (h.width < 2 ^ 16) × (h.height < 2 ^ 16)
unfolding pack
pack-some code h d c e = ground (arith, c, e)

-- Whatever header is packed with version 1, and whatever pixels follow it, the consumer unpacks the
-- header, with the stamp and the id modulo 2^64, the flags modulo 2^8, and "camera" for a source of
-- time that the table does not hold.
pub unpack_header-pack :
    (h : FrameHeader) (d pixels : List ℕ)
    → pack h ≡ some d
    → h.version ≡ 1
    → unpack_header (d ++ pixels) ≡ some (carried h)
unpack_header-pack h d pixels e v = elim (Option-cases (code_of h.pixfmt pixel_formats)) [
  | inl n ↦ absurd (pack-none h d n e)
  | inr (code, c) ↦
      let (p, w, k) = pack-some code h d c e in
      let b = code_of-within h.pixfmt code (2 ^ 32) pixel_formats refl c in
      rw p (
        unpack_header-Fields code h (packed code h ++ pixels) (packed-length code h pixels)
          (packed-magic code h pixels) (packed-Fields code h pixels b (omega arith) w k)
          (name_of-code_of h.pixfmt code pixel_formats refl c) v)
]
