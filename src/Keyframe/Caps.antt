-- ===== src/Keyframe/Caps.antt =====
-- `parse_caps_kind` of core-driver/cam_driver/keyframe.py.
use camera_service.Common.{
  ℕ, ◌+◌, ◌-◌, ◌*◌, ◌%◌, Bool, ◌&&◌, ◌||◌, Option, none, some, List, [], ◌∷◌, ◌++◌, length,
  get_elem?, leb, ◌==◌, if◌then◌else◌, ◌≤◌, arith,
}
use camera_service.Common.Text.{codes, text_eq}

pub record CapsKind : Type 0 where
  pub media : Option (List ℕ)
  pub stream_format : Option (List ℕ)
  pub nal_length_size : ℕ

-- The longest front of the text in a class, and the rest.
span : (ℕ → Bool) → List ℕ → List ℕ × List ℕ
span p [] = ([], [])
span p (c ∷ s) = let (front, rest) = span p s in if p c then (c ∷ front, rest) else ([], c ∷ s)

is_space : ℕ → Bool
is_space c = c == 32 || (leb 9 c && leb c 13) || (leb 28 c && leb c 31)

is_alnum : ℕ → Bool
is_alnum c = (leb b'0' c && leb c b'9') || (leb b'A' c && leb c b'Z') || (leb b'a' c && leb c b'z')

-- [A-Za-z0-9-]
is_word : ℕ → Bool
unfolding is_alnum
is_word c = is_alnum c || c == b'-'

-- [A-Za-z0-9.+-]
is_subtype : ℕ → Bool
unfolding is_word
is_subtype c = is_word c || c == b'.' || c == b'+'

is_hex : ℕ → Bool
is_hex c = (leb b'0' c && leb c b'9') || (leb b'A' c && leb c b'F') || (leb b'a' c && leb c b'f')

-- One or more characters of a class.
some_of : (ℕ → Bool) → List ℕ → Option (List ℕ)
unfolding span
some_of p s = elim ((span p s).0) [ [] ↦ none | c ∷ cs ↦ some (c ∷ cs) ]

strip_prefix : List ℕ → List ℕ → Option (List ℕ)
strip_prefix [] s = some s
strip_prefix (k ∷ ks) [] = none
strip_prefix (k ∷ ks) (c ∷ s) = let rest = strip_prefix ks s in if k == c then rest else none

-- _MEDIA_RE.match
media_type : List ℕ → Option (List ℕ)
unfolding span is_space is_word is_subtype some_of
media_type s =
    let (kind, rest) = span is_word (span is_space s).1 in
    elim kind [
      | [] ↦ none
      | k ∷ ks ↦ elim rest [
        | [] ↦ none
        | c ∷ s' ↦
            if c == b'/'
            then elim (some_of is_subtype s') [
              | none ↦ none
              | some sub ↦ some ((k ∷ ks) ++ (b'/' ∷ sub))
            ]
            else none
      ]
    ]

-- The optional type tag, then one or more characters of the class; without the tag where that
-- fails.
tagged : List ℕ → (ℕ → Bool) → List ℕ → Option (List ℕ)
unfolding some_of strip_prefix
tagged tag p s = elim (strip_prefix tag s) [
  | none ↦ some_of p s
  | some r ↦ elim (some_of p r) [ none ↦ some_of p s | some v ↦ some v ]
]

-- `search` of key, tag and class, at the first position where they match.
search_field : List ℕ → List ℕ → (ℕ → Bool) → List ℕ → Option (List ℕ)
unfolding tagged strip_prefix
search_field key tag p [] = none
search_field key tag p (c ∷ s) =
    let later = search_field key tag p s in
    elim (strip_prefix key (c ∷ s)) [
      | none ↦ later
      | some r ↦ elim (tagged tag p r) [ none ↦ later | some v ↦ some v ]
    ]

hex_value : ℕ → ℕ
hex_value c = if leb c b'9' then c - b'0' else if leb c b'F' then c - 55 else c - 87

abbrev digit_at : ℕ → List ℕ → ℕ
digit_at i s = elim (get_elem? s i) [ none ↦ b'0' | some c ↦ c ]

-- `(int(blob[i:i + 2], 16) & 0x3) + 1`
size_at : ℕ → List ℕ → ℕ
unfolding hex_value
size_at i blob = (16 * hex_value (digit_at i blob) + hex_value (digit_at (i + 1) blob)) % 4 + 1

nal_size : Option (List ℕ) → Option (List ℕ) → ℕ
unfolding size_at
nal_size none blob = 4
nal_size (some media) none = 4
nal_size (some media) (some blob) =
    if text_eq media (codes "video/x-h264") && leb 10 (length blob)
    then size_at 8 blob
    else if text_eq media (codes "video/x-h265") && leb 44 (length blob)
    then size_at 42 blob
    else 4

unfoldable pub parse_caps_kind : Option (List ℕ) → CapsKind
unfolding media_type search_field nal_size is_word is_hex
parse_caps_kind none = record { media = none; stream_format = none; nal_length_size = 4 }
parse_caps_kind (some []) = record { media = none; stream_format = none; nal_length_size = 4 }
parse_caps_kind (some (c ∷ s)) =
    let media = media_type (c ∷ s) in
    record {
      media = media;
      stream_format = search_field (codes "stream-format=") (codes "(string)") is_word (c ∷ s);
      nal_length_size =
          nal_size media (search_field (codes "codec_data=") (codes "(buffer)") is_hex (c ∷ s));
    }

size_at_range : (i : ℕ) (blob : List ℕ) → (1 ≤ size_at i blob) × (size_at i blob ≤ 4)
unfolding size_at
size_at_range i blob = omega arith

nal_size_range :
    (media blob : Option (List ℕ)) → (1 ≤ nal_size media blob) × (nal_size media blob ≤ 4)
unfolding nal_size
nal_size_range none blob = omega arith
nal_size_range (some m) none = omega arith
nal_size_range (some m) (some b) = ground (arith, size_at_range 8 b, size_at_range 42 b)

-- Whatever the caps string, the NAL length size is from 1 to 4 bytes.
pub parse_caps_kind_range :
    (caps : Option (List ℕ))
    → (1 ≤ (parse_caps_kind caps).nal_length_size) × ((parse_caps_kind caps).nal_length_size ≤ 4)
unfolding parse_caps_kind
parse_caps_kind_range none = omega arith
parse_caps_kind_range (some []) = omega arith
parse_caps_kind_range (some (c ∷ s)) =
    nal_size_range (media_type (c ∷ s))
      (search_field (codes "codec_data=") (codes "(buffer)") is_hex (c ∷ s))
