-- ===== src/Uvc/Camera.antt =====
-- What a camera sends as UVC payloads, as core-driver/cam_driver/uvcpcap.py reads them.
use camera_service.Common.{ℕ, ◌+◌, ◌-◌, Bool, List, [], ◌∷◌, ◌++◌, length, if◌then◌else◌}
use camera_service.Usbmon.{Packet, payload}

-- A payload: a header of two bytes, padded, and the bytes.
unfoldable pub packet : List ℕ → ℕ → List ℕ → List ℕ
packet pad info d = (2 + length pad) ∷ info ∷ pad ++ d

abbrev pub flags : ℕ → Bool → ℕ
flags fid eof = if eof then fid + 2 else fid

-- The payloads of a frame of this FID: the bytes and the time of each, the last with EOF if it is set.
unfoldable pub payloads : List ℕ → ℕ → Bool → List ℕ → ℕ → List (List ℕ × ℕ) → List (Packet × ℕ)
payloads pad fid eof d ts [] = (payload (packet pad (flags fid eof) d), ts) ∷ []
payloads pad fid eof d ts ((e, t) ∷ more) =
    (payload (packet pad fid d), ts) ∷ payloads pad fid eof e t more

unfoldable pub content : List ℕ → List (List ℕ × ℕ) → List ℕ
content d [] = d
content d ((e, t) ∷ more) = d ++ content e more

-- A frame as it is sent.
pub record Sent : Type 0 where
  pub first : List ℕ
  pub ts_ns : ℕ
  pub more : List (List ℕ × ℕ)
  pub eof : Bool

-- The stream of frames, from one of this FID on; the FID toggles.
unfoldable pub stream : List ℕ → ℕ → List Sent → List (Packet × ℕ)
stream pad fid [] = []
stream pad fid (s ∷ ss) = payloads pad fid s.eof s.first s.ts_ns s.more ++ stream pad (1 - fid) ss
