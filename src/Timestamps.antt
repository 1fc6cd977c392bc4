-- ===== src/Timestamps.antt =====
-- core-driver/cam_driver/timestamps.py: the timestamp of a frame, and the fallback ladder that
-- picks its source. An Aravis buffer and its chunk parser are outside the repository: `Buffer`
-- holds what the code reads through them, and a chunk read that raises GLib.Error is `none`.
-- Clock readings, ticks and frame ids are unsigned, so they are natural numbers here.
pub mod Ladder
mod Tests
use camera_service.Common.{
  ℕ, ◌*◌, ◌/◌, Bool, true, false, not, ◌&&◌, ◌||◌, Option, none, some, List, [], ◌∷◌, ltb, ◌==◌,
  if◌then◌else◌,
}

pub data TimestampSource : Type 0 where
  ptp_chunk camera sof rtp_ntp system : TimestampSource

pub record FrameStamp : Type 0 where
  pub frame_id : ℕ
  pub timestamp_ns : ℕ
  pub source : TimestampSource
  pub system_ns : ℕ
  pub camera_ns : ℕ
  pub chunk_ns : Option ℕ

-- TimestampExtractor. Of the chunk parser the code asks only whether there is one.
pub record Extractor : Type 0 where
  pub parser : Bool
  pub chunk_ts : List ℕ
  pub chunk_fid : List ℕ
  pub prefer : TimestampSource
  pub tick_hz : ℕ
  pub active : Option TimestampSource
  pub ptp_locked : Bool

pub record Buffer : Type 0 where
  pub system_timestamp : ℕ
  pub timestamp : ℕ
  pub frame_id : ℕ
  pub has_chunks : Bool
  pub integer_value : List ℕ → Option ℕ

abbrev pub new : Bool → List ℕ → List ℕ → TimestampSource → ℕ → Extractor
new parser chunk_ts chunk_fid prefer tick_hz = record {
  parser = parser;
  chunk_ts = chunk_ts;
  chunk_fid = chunk_fid;
  prefer = prefer;
  tick_hz = tick_hz;
  active = none;
  ptp_locked = false;
}

unfoldable pub set_chunk_parser : Bool → Option ℕ → Extractor → Extractor
set_chunk_parser parser none x = record x { parser = parser }
set_chunk_parser parser (some hz) x = record x { parser = parser; tick_hz = hz }

abbrev or_system : Option TimestampSource → TimestampSource
or_system none = system
or_system (some source) = source

unfoldable pub active_source : Extractor → TimestampSource
active_source x = or_system x.active

-- The dict of ladders; a preference that is no key of it raises KeyError.
ladder : TimestampSource → Option (List TimestampSource)
ladder ptp_chunk = some (ptp_chunk ∷ camera ∷ system ∷ [])
ladder camera = some (camera ∷ system ∷ [])
ladder system = some (system ∷ [])
ladder sof = none
ladder rtp_ntp = none

abbrev is_ptp_chunk : TimestampSource → Bool
is_ptp_chunk ptp_chunk = true
is_ptp_chunk _ = false

-- The loop over the candidates; `chosen` keeps its initial value if every one is skipped.
choose : Bool → List TimestampSource → TimestampSource
choose chunks [] = system
choose chunks (cand ∷ rest) = if is_ptp_chunk cand && not chunks then choose chunks rest else cand

-- `none` is the KeyError, raised after `_ptp_locked` is written.
unfoldable pub resolve_active_source : Bool → Bool → Extractor → Option TimestampSource × Extractor
unfolding ladder choose
resolve_active_source ptp_locked chunks_enabled x =
    let x' = record x { ptp_locked = ptp_locked } in
    elim (ladder x.prefer) [
      | none ↦ (none, x')
      | some l ↦
          let chosen = choose (chunks_enabled && x.parser) l in
          (some chosen, record x' { active = some chosen })
    ]

unfoldable pub ticks_to_ns : ℕ → ℕ → ℕ
ticks_to_ns tick_hz raw =
    if ltb 0 tick_hz && not (tick_hz == 1000000000) then raw * 1000000000 / tick_hz else raw

read_chunk_int : Extractor → List ℕ → Buffer → Option ℕ
read_chunk_int x name buf =
    if not x.parser then none else if not buf.has_chunks then none else buf.integer_value name

chunk_to_ns : ℕ → Option ℕ → Option ℕ
unfolding ticks_to_ns
chunk_to_ns tick_hz none = none
chunk_to_ns tick_hz (some raw) = some (ticks_to_ns tick_hz raw)

abbrev id_or : Option ℕ → ℕ → ℕ
id_or none fallback = fallback
id_or (some frame_id) fallback = frame_id

-- The if-elif-else that picks the reading, by the active source.
pick : TimestampSource → Option ℕ → ℕ → ℕ → ℕ × TimestampSource
pick ptp_chunk (some chunk_ns) camera_ns system_ns = (chunk_ns, ptp_chunk)
pick ptp_chunk none camera_ns system_ns =
    if ltb 0 camera_ns then (camera_ns, camera) else (system_ns, system)
pick camera chunk_ns camera_ns system_ns =
    if ltb 0 camera_ns then (camera_ns, camera) else (system_ns, system)
pick _ chunk_ns camera_ns system_ns = (system_ns, system)

unfoldable pub extract : Extractor → Buffer → FrameStamp
unfolding read_chunk_int chunk_to_ns pick active_source
extract x buf =
    let chunk_ns = chunk_to_ns x.tick_hz (read_chunk_int x x.chunk_ts buf) in
    let chunk_id = read_chunk_int x x.chunk_fid buf in
    let (ts, used) = pick (active_source x) chunk_ns buf.timestamp buf.system_timestamp in
    record {
      frame_id = id_or chunk_id buf.frame_id;
      timestamp_ns = ts;
      source = used;
      system_ns = buf.system_timestamp;
      camera_ns = buf.timestamp;
      chunk_ns = chunk_ns;
    }
