-- ===== src/Timestamps/Ladder.antt =====
-- The fallback ladder: what a stamp says of where its time came from.
use camera_service.Common.{
  ℕ, ◌<◌, ◌≡◌, ◌⊎◌, true, false, Bool, ◌&&◌, Option, none, some, arith, if◌then◌else◌,
}
use camera_service.Timestamps.{
  TimestampSource, ptp_chunk, camera, system, FrameStamp, Extractor, Buffer, resolve_active_source,
  active_source,
}

-- The height of a rung: a stamp may come from the active source or from below it.
abbrev pub rank : TimestampSource → ℕ
rank ptp_chunk = 2
rank camera = 1
rank _ = 0

-- The chunk is not what stands above the camera reading: it is not the active source, or has no reading.
abbrev pub NoChunk : TimestampSource → FrameStamp → Type 0
NoChunk active s = (active ≡ camera) ⊎ (active ≡ ptp_chunk) × (s.chunk_ns ≡ none)

-- What a stamp promises of its own fields, where `active` is the active source: the value is the reading that its
-- source names, and is there; and each rung from the active source down to it had no reading.
abbrev pub IsHonest : TimestampSource → FrameStamp → Type 0
IsHonest active s =
    ((s.source ≡ ptp_chunk) × (s.chunk_ns ≡ some s.timestamp_ns) × (active ≡ ptp_chunk))
    ⊎ ((s.source ≡ camera) × (s.timestamp_ns ≡ s.camera_ns) × (0 < s.camera_ns) × NoChunk active s)
    ⊎ ((s.source ≡ system)
        × (s.timestamp_ns ≡ s.system_ns)
        × ((rank active ≡ 0) ⊎ (s.camera_ns ≡ 0) × NoChunk active s))

-- The frame id is the chunk's, or the buffer's where the chunk gives none.
abbrev pub HasFrameId : Extractor → Buffer → FrameStamp → Type 0
HasFrameId x buf s =
    ((x.parser ≡ true)
      × (buf.has_chunks ≡ true)
      × (buf.integer_value x.chunk_fid ≡ some s.frame_id))
    ⊎ (s.frame_id ≡ buf.frame_id)
      × ((x.parser ≡ false) ⊎ (buf.has_chunks ≡ false) ⊎ (buf.integer_value x.chunk_fid ≡ none))

abbrev usable : Bool → Bool → TimestampSource → Option TimestampSource
usable chunks parser ptp_chunk = if chunks && parser then some ptp_chunk else some camera
usable chunks parser camera = some camera
usable chunks parser system = some system
usable chunks parser _ = none

-- The resolved source is the preferred one, except that the chunk source without chunk data or
-- without a parser becomes the camera clock; the sources of other frontends are refused, and leave
-- the active source as it was. The PTP lock is recorded in every case.
resolve_active_source_lem :
    (x : Extractor) (locked chunks : Bool)
    → let r = resolve_active_source locked chunks x in
      (r.0 ≡ usable chunks x.parser x.prefer)
      × (r.1.ptp_locked ≡ locked)
      × ((r.0 ≡ none) × (r.1.active ≡ x.active)
          ⊎ ((r.1.active ≡ r.0) × (r.0 ≡ some (active_source r.1))))
unfolding resolve_active_source active_source
resolve_active_source_lem x locked chunks = ground arith
