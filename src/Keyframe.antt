-- ===== src/Keyframe.antt =====
-- core-driver/cam_driver/keyframe.py: where a stream-copy recording may start. Bytes are numbers
-- below 256, a caps string is the list of its (ASCII) code points. The position `i` of a scan is
-- the part of the data from `i` on. The regular expressions are written out as greedy scans: in
-- each, what follows a repetition cannot start with a character of its class, so they do not
-- backtrack. Logging is left out.
pub mod Caps
pub mod AnnexB
pub mod Prefixed
pub mod SyncPoint
mod Tests
use camera_service.Common.{
  ℕ, zero, suc, ◌+◌, ◌*◌, ◌/◌, ◌%◌, Bool, true, false, ◌&&◌, ◌||◌, Option, none, some, List, [],
  ◌∷◌, length, take, drop, ltb, leb, ◌==◌, if◌then◌else◌,
}
use camera_service.Common.Text.{codes, text_eq}

-- `data.find(b"\x00\x00\x01", i)` and `i += 3`: what follows the first start code.
is_start_code : List ℕ → Bool
is_start_code (a ∷ b ∷ c ∷ r) = a == 0 && b == 0 && c == 1
is_start_code _ = false

unfoldable pub after_start_code : List ℕ → Option (List ℕ)
unfolding is_start_code
after_start_code [] = none
after_start_code (x ∷ d) =
    let rest = after_start_code d in if is_start_code (x ∷ d) then some (drop 3 (x ∷ d)) else rest

-- The header byte behind each Annex B start code; each round consumes a start code.
unfoldable pub annexb_nal_headers : ℕ → List ℕ → List ℕ
annexb_nal_headers zero d = []
annexb_nal_headers (suc fuel) d = elim (after_start_code d) [
  | none ↦ []
  | some r ↦ elim r [
    | [] ↦ annexb_nal_headers fuel []
    | h ∷ t ↦ h ∷ annexb_nal_headers fuel (h ∷ t)
  ]
]

-- `int.from_bytes(data, "big")`
unfoldable pub from_bytes : ℕ → List ℕ → ℕ
from_bytes acc [] = acc
from_bytes acc (b ∷ d) = from_bytes (acc * 256 + b) d

abbrev head_list : List ℕ → List ℕ
head_list [] = []
head_list (x ∷ xs) = x ∷ []

-- The header byte of each length-prefixed NAL, up to a size that is 0 or overruns the data.
unfoldable pub length_prefixed_nal_headers : ℕ → ℕ → List ℕ → List ℕ
length_prefixed_nal_headers zero nal_len d = []
length_prefixed_nal_headers (suc fuel) nal_len d =
    let size = from_bytes 0 (take nal_len d) in
    let rest = length_prefixed_nal_headers fuel nal_len (drop (nal_len + size) d) in
    elim (drop nal_len d) [
      | [] ↦ []
      | hdr ∷ body ↦ if size == 0 || ltb (length d) (nal_len + size) then [] else hdr ∷ rest
    ]

-- `hdr & 0x1F` is IDR; `(hdr >> 1) & 0x3F` is in BLA_W_LP..CRA_NUT.
unfoldable pub is_h264_idr : ℕ → Bool
is_h264_idr hdr = hdr % 32 == 5

unfoldable pub is_h265_irap : ℕ → Bool
is_h265_irap hdr = leb 16 (hdr / 2 % 64) && ltb (hdr / 2 % 64) 22

unfoldable pub any_header : (ℕ → Bool) → List ℕ → Bool
any_header p [] = false
any_header p (h ∷ hs) = p h || any_header p hs

abbrev pub is_media : Option (List ℕ) → List ℕ → Bool
is_media none name = false
is_media (some m) name = text_eq m name

unfoldable pub is_prefixed : Option (List ℕ) → Bool
is_prefixed f =
    is_media f (codes "avc")
    || is_media f (codes "avc3")
    || is_media f (codes "hvc1")
    || is_media f (codes "hev1")

unfoldable pub nal_headers : List ℕ → Option (List ℕ) → ℕ → List ℕ
unfolding is_prefixed
nal_headers data' stream_format nal_length_size =
    if is_prefixed stream_format
    then length_prefixed_nal_headers (length data') nal_length_size data'
    else annexb_nal_headers (length data') data'

unfoldable pub is_sync_point : Option (List ℕ) → List ℕ → Option (List ℕ) → ℕ → Bool
is_sync_point media_type data' stream_format nal_length_size =
    if is_media media_type (codes "image/jpeg")
    then true
    else if is_media media_type (codes "video/x-h264")
    then any_header is_h264_idr (nal_headers data' stream_format nal_length_size)
    else if is_media media_type (codes "video/x-h265")
    then any_header is_h265_irap (nal_headers data' stream_format nal_length_size)
    else true
