-- ===== src/HeaderTransport/Mirror.antt =====
-- The bridge reads the header as the core's consumers do: plugins/webrtc-bridge/tools/header_transport.py beside
-- core-driver/cam_driver/transport.py.
use camera_service.Common.{
  ℕ, ◌≤◌, ◌<◌, ◌≡◌, refl, true, false, ◌||◌, inl, inr, ◌⊎◌, Option, none, some, List, length, take,
  ltb, ◌==◌, arith, Bool-cases, Option-cases,
}
use camera_service.Common.Text.{codes, text_eq}
use camera_service.Transport.{
  name_of, field, FrameHeader, pixel_formats, ts_sources, unpack_header, or_text, magic,
}
use camera_service.HeaderTransport.{
  FrameInfo, Parsed, failed, parsed, source_name, parse_format, parse_header,
}

-- The two readings of a header, where both succeed.
pub record Same (d : List ℕ) (i : FrameInfo) (h : FrameHeader) : Type 0 where
  pub timestamp_ns : i.timestamp_ns ≡ h.timestamp_ns
  pub frame_id : i.frame_id ≡ h.frame_id
  pub width : i.width ≡ h.width
  pub height : i.height ≡ h.height
  pub pixfmt : i.pixfmt ≡ h.pixfmt
  pub ts_source :
      (name : List ℕ) → name_of (field 32 1 d) ts_sources ≡ some name → i.ts_source ≡ h.ts_source
  pub pixels : 36 ≤ i.header_len × i.header_len ≤ length d
  pub has_pixels : 0 < i.width × 0 < i.height

unfoldable pub Mirrors : List ℕ → Parsed → Option FrameHeader → Type 0
Mirrors d (failed e) none = Unit
Mirrors d (failed e) (some h) =
    ((field 6 2 d < 36) ⊎ (length d < field 6 2 d)) ⊎ ((h.width ≡ 0) ⊎ (h.height ≡ 0))
Mirrors d (parsed i) none = true ≡ false
Mirrors d (parsed i) (some h) = Same d i h

source_name-some :
    (d : List ℕ) (o : Option (List ℕ)) (name : List ℕ)
    → o ≡ some name
    → source_name (field 32 1 d) o ≡ or_text o (codes "camera")
unfolding source_name
source_name-some d none name e = absurd (cc)
source_name-some d (some n) name e = refl

out_of_buffer :
    (d : List ℕ)
    → (ltb (field 6 2 d) 36 || ltb (length d) (field 6 2 d)) ≡ true
    → (field 6 2 d < 36) ⊎ (length d < field 6 2 d)
out_of_buffer d p = elim (Bool-cases (ltb (field 6 2 d) 36)) [
  | inl e ↦ inl (ground (arith, e))
  | inr e ↦ inr (ground (arith, e, p))
]

empty_side :
    (d : List ℕ)
    → (field 24 2 d == 0 || field 26 2 d == 0) ≡ true
    → (field 24 2 d ≡ 0) ⊎ (field 26 2 d ≡ 0)
empty_side d p = elim (Bool-cases (field 24 2 d == 0)) [
  | inl e ↦ inl (ground (arith, e))
  | inr e ↦ inr (ground (arith, e, p))
]

-- For every buffer: where the bridge reads a header, the core's consumers read the same one, with the same source
-- of time if its code is known, and its pixels begin within the buffer; where the bridge refuses a buffer, the
-- core's consumers do so too, or the header's length is not within the buffer, or a side of the frame is 0.
pub parse_header-unpack_header : (d : List ℕ) → Mirrors d (parse_header d) (unpack_header d)
unfolding parse_header unpack_header parse_format Mirrors
parse_header-unpack_header d = elim (Bool-cases (ltb (length d) 36)) [
  | inl a ↦ rw a tt
  | inr a ↦ elim (Bool-cases (text_eq (take 4 d) magic)) [
    | inr b ↦ rw (a, b) tt
    | inl b ↦ elim (Bool-cases (field 4 2 d == 1)) [
      | inr c ↦ rw (a, b, c) tt
      | inl c ↦ elim (Bool-cases (ltb (field 6 2 d) 36 || ltb (length d) (field 6 2 d))) [
        | inl p ↦ elim (Option-cases (name_of (field 28 4 d) pixel_formats)) [
          | inl n ↦ rw (a, b, c, p, n) tt
          | inr (f, n) ↦ rw (a, b, c, p, n) (inl (out_of_buffer d p))
        ]
        | inr p ↦ elim (Option-cases (name_of (field 28 4 d) pixel_formats)) [
          | inl n ↦ rw (a, b, c, p, n) tt
          | inr (f, n) ↦ elim (Bool-cases (field 24 2 d == 0 || field 26 2 d == 0)) [
            | inl z ↦ rw (a, b, c, p, n, z) (inr (empty_side d z))
            | inr z ↦
                rw (a, b, c, p, n, z)
                  (record {
                    timestamp_ns = refl;
                    frame_id = refl;
                    width = refl;
                    height = refl;
                    pixfmt = refl;
                    ts_source =
                        λ name e. source_name-some d (name_of (field 32 1 d) ts_sources) name e;
                    pixels = (ground (arith, p), ground (arith, p));
                    has_pixels = (ground (arith, z), ground (arith, z));
                  })
          ]
        ]
      ]
    ]
  ]
]
