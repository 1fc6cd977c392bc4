-- ===== src/Formats/Faithful.antt =====
-- The choices of core-driver/cam_driver/formats.py keep a recording faithful and its frames
-- transportable: what `auto` resolves to, and the table of core-driver/cam_driver/transport.py.
use camera_service.Common.{
  ℕ, ◌*◌, ◌≡◌, refl, ◌∙◌, ap, inl, inr, Bool, true, false, not, ◌&&◌, ◌||◌, Option, List, [], ◌∷◌,
  leb, arith, Bool-cases,
}
use camera_service.Common.Text.{codes, text_eq, text_eq-eq}
use camera_service.Formats.{
  one_of, gst_mono, gst_color, contains, starts_with, parse_aravis, or_mono8, parse_pixel_format,
  bytes_per_frame, auto_encoder, select_encoder, valid_encoders,
}
use camera_service.Transport.{code_of, pixel_formats}
use camera_service.Session.{is_none}

-- A test that holds of each name of a list holds of a text that is one of them.
all_named : (List ℕ → Bool) → List (List ℕ) → Bool
all_named p [] = true
all_named p (n ∷ ns) = p n && all_named p ns

all_named_sound :
    (p : List ℕ → Bool) (name : List ℕ) (names : List (List ℕ))
    → all_named p names ≡ true
    → one_of name names ≡ true
    → p name ≡ true
unfolding one_of all_named
all_named_sound p name [] h k = cc
all_named_sound p name (n ∷ ns) h k = elim (Bool-cases (text_eq name n)) [
  | inl e ↦ ap p (text_eq-eq name n e) ∙ ground arith
  | inr e ↦ ground (arith, all_named_sound p name ns)
]

has_code : List ℕ → Bool
has_code name = not (is_none (code_of name pixel_formats))

mono_codes : all_named has_code gst_mono ≡ true
unfolding all_named has_code code_of text_eq
mono_codes = refl

color_codes : all_named has_code gst_color ≡ true
unfolding all_named has_code code_of text_eq
color_codes = refl

gray8_code : has_code (codes "GRAY8") ≡ true
unfolding has_code code_of text_eq
gray8_code = refl

gray16_code : has_code (codes "GRAY16_LE") ≡ true
unfolding has_code code_of text_eq
gray16_code = refl

aravis_code : (pf : List ℕ) → has_code (parse_aravis pf).gst_format ≡ true
unfolding parse_aravis
aravis_code pf = ground (arith, gray8_code, gray16_code)

has_code_sound :
    (name : List ℕ) → has_code name ≡ true → is_none (code_of name pixel_formats) ≡ false
unfolding has_code
has_code_sound name h = ground arith

-- Whatever pixel format a source is configured with, the format of its frames has a code in the
-- table of the transport, so that its header can be packed.
parse_pixel_format-code_of :
    (pixel_format : Option (List ℕ))
    → is_none (code_of (parse_pixel_format pixel_format).gst_format pixel_formats) ≡ false
unfolding parse_pixel_format
parse_pixel_format-code_of pixel_format =
    let pf = or_mono8 pixel_format in
    has_code_sound (parse_pixel_format pixel_format).gst_format (
      ground (
        arith,
        all_named_sound has_code pf gst_mono mono_codes,
        all_named_sound has_code pf gst_color color_codes,
        aravis_code pf,
      ))

-- A mono format of 8 bits takes a byte for a pixel.
plane : List ℕ → Bool
plane name =
    contains (codes "16") name
    || (not (one_of name (codes "GRAY16_LE" ∷ codes "GRAY16_BE" ∷ []))
        && not (one_of name gst_color))

mono_planes : all_named plane gst_mono ≡ true
unfolding all_named plane contains starts_with one_of text_eq
mono_planes = refl

plane_bytes :
    (fmt : List ℕ) (width height : ℕ)
    → one_of fmt (codes "GRAY16_LE" ∷ codes "GRAY16_BE" ∷ []) ≡ false
    → one_of fmt gst_color ≡ false
    → bytes_per_frame fmt width height ≡ width * height
unfolding bytes_per_frame one_of
plane_bytes fmt width height a b = ground (arith, a, b)

gray8_bytes : (width height : ℕ) → bytes_per_frame (codes "GRAY8") width height ≡ width * height
unfolding bytes_per_frame one_of text_eq
gray8_bytes width height = refl

mono_bytes :
    (fmt : List ℕ) (width height : ℕ)
    → one_of fmt gst_mono ≡ true
    → contains (codes "16") fmt ≡ false
    → bytes_per_frame fmt width height ≡ width * height
unfolding plane
mono_bytes fmt width height m c =
    let p = all_named_sound plane fmt gst_mono mono_planes m in
    plane_bytes fmt width height (ground (arith, p, c)) (ground (arith, p, c))

-- What `auto` resolves to the hardware encoder has 8 bits and is not colour.
hardware_choice :
    (bits : ℕ) (is_color : Bool)
    → auto_encoder bits is_color false ≡ codes "hw-hevc-lossless"
    → (is_color ≡ false) × (leb bits 8 ≡ true)
unfolding auto_encoder
hardware_choice bits is_color h = ground (arith, h)

parsed_bytes :
    (pixel_format : Option (List ℕ)) (width height : ℕ)
    → (parse_pixel_format pixel_format).is_color ≡ false
    → leb (parse_pixel_format pixel_format).bits 8 ≡ true
    → bytes_per_frame (parse_pixel_format pixel_format).gst_format width height ≡ width * height
unfolding parse_pixel_format parse_aravis
parsed_bytes pixel_format width height c b =
    let pf = or_mono8 pixel_format in
    ground (arith, c, b, mono_bytes pf width height, gray8_bytes width height)

-- A source that is not encoded, with `auto` or an unknown encoder: the lossless hardware encoder,
-- which would resample chroma, is taken only for frames of one byte for each pixel.
select_encoder-bytes_per_frame :
    (encoder : List ℕ) (pixel_format : Option (List ℕ)) (width height : ℕ)
    → (one_of encoder valid_encoders && not (text_eq encoder (codes "auto"))) ≡ false
    → select_encoder encoder
        (parse_pixel_format pixel_format).bits
        (parse_pixel_format pixel_format).is_color
        false
      ≡ codes "hw-hevc-lossless"
    → bytes_per_frame (parse_pixel_format pixel_format).gst_format width height ≡ width * height
unfolding select_encoder
select_encoder-bytes_per_frame encoder pixel_format width height u h =
    let f = parse_pixel_format pixel_format in
    let (c, b) = hardware_choice f.bits f.is_color (rw u at h) in
    parsed_bytes pixel_format width height c b
