-- ===== src/Keyframe/SyncPoint.antt =====
-- Which delivered frames may start a stream-copy recording.
use camera_service.Common.{
  ℕ, suc, ◌<◌, ◌^◌, ◌≡◌, ◌↔◌, refl, Bool, true, false, Option, some, List, [], length, map, All,
  arith,
}
use camera_service.Common.Text.{codes, text_eq}
use camera_service.Keyframe.{
  is_prefixed, is_h264_idr, is_h265_irap, nal_headers, is_sync_point, any_header,
  annexb_nal_headers, length_prefixed_nal_headers,
}
use camera_service.Keyframe.AnnexB.{IsNalHeader, annexb_sound, annexb_complete}
use camera_service.Keyframe.Prefixed.{Nal, access_unit, scan-access_unit}

-- The H.26x codecs of the gate, their caps names and their random-access rules.
pub data Codec : Type 0 where
  h264 h265 : Codec

abbrev pub media_of : Codec → Option (List ℕ)
media_of h264 = some (codes "video/x-h264")
media_of h265 = some (codes "video/x-h265")

abbrev pub starts_gop : Codec → ℕ → Bool
starts_gop h264 = is_h264_idr
starts_gop h265 = is_h265_irap

gate :
    (c : Codec) (d : List ℕ) (f : Option (List ℕ)) (w : ℕ)
    → is_sync_point (media_of c) d f w ≡ any_header (starts_gop c) (nal_headers d f w)
unfolding is_sync_point text_eq
gate h264 d f w = refl
gate h265 d f w = refl

abbrev pub IsByteStream : Option (List ℕ) → Type 0
IsByteStream f = is_prefixed f ≡ false

-- A byte-stream H.264 or H.265 frame is a sync point exactly when an IDR, or an IRAP NAL, header
-- stands behind a start code somewhere in it.
pub sync_point-annexb :
    (c : Codec) (d : List ℕ) (f : Option (List ℕ)) (w : ℕ)
    → IsByteStream f
    → (is_sync_point (media_of c) d f w ≡ true)
      ↔ ((hdr : ℕ) × IsNalHeader hdr d × (starts_gop c hdr ≡ true))
unfolding nal_headers
sync_point-annexb c d f w e = rw (gate c d f w) (
    rw e (
      λ h. annexb_sound (starts_gop c) (length d) d h,
      λ (hdr, is, p). annexb_complete (starts_gop c) (length d) d hdr (omega arith) is p,
    ))

abbrev pub IsLengthPrefixed : Option (List ℕ) → Type 0
IsLengthPrefixed f = is_prefixed f ≡ true

-- A length-prefixed access unit is a sync point exactly when one of its NALs is an IDR, or IRAP,
-- provided that each NAL's size fits the size field.
pub sync_point-prefixed :
    (c : Codec) (ns : List Nal) (f : Option (List ℕ)) (w : ℕ)
    → IsLengthPrefixed f
    → All (λ n. suc (length n.body) < 256 ^ w) ns
    → is_sync_point (media_of c) (access_unit w ns) f w
      ≡ any_header (starts_gop c) (map (λ n. n.hdr) ns)
unfolding nal_headers
sync_point-prefixed c ns f w e a =
    rw (gate c (access_unit w ns) f w)
      (rw e (rw (scan-access_unit w (length (access_unit w ns)) ns a (omega arith))))

-- Data with no NAL at all is never a sync point of either codec, in any format.
pub sync_point-empty :
    (c : Codec) (f : Option (List ℕ)) (w : ℕ) → is_sync_point (media_of c) [] f w ≡ false
unfolding nal_headers any_header length_prefixed_nal_headers annexb_nal_headers
sync_point-empty c f w = rw (gate c [] f w) (ground arith)
