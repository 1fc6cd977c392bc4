-- ===== src/Timeline/Memo.antt =====
-- The memo of `_pts_for`: what a lookup finds after an insertion and the eviction that follows it.
use camera_service.Common.{
  ◌≤◌, ◌<◌, ◌≡◌, refl, true, false, none, some, List, [], ◌∷◌, ◌++◌, length, arith,
}
use camera_service.Timestamps.{FrameStamp}
use camera_service.Timeline.{MemoEntry, pts_memo_frames, has_key, memo_get, evict}

-- Eviction only forgets: what was not found stays not found.
pub memo_get-evict-none :
    (s : FrameStamp) (m : List MemoEntry) → memo_get s m ≡ none → memo_get s (evict m) ≡ none
unfolding memo_get evict
memo_get-evict-none s [] h = refl
memo_get-evict-none s (e ∷ m) h = ground (arith, memo_get-evict-none s m)

pub memo_get-append-none :
    (s : FrameStamp) (m : List MemoEntry) (e : MemoEntry)
    → memo_get s m ≡ none
    → has_key s e ≡ false
    → memo_get s (m ++ e ∷ []) ≡ none
unfolding memo_get
memo_get-append-none s [] e h k = rw k
memo_get-append-none s (d ∷ m) e h k = ground (arith, memo_get-append-none s m e)

-- The length after an eviction is within the bound.
pub length-evict : (m : List MemoEntry) → length (evict m) ≤ pts_memo_frames
unfolding evict
length-evict [] = omega arith
length-evict (e ∷ m) = ground (arith, length-evict m)

memo_get-append_hit :
    (s : FrameStamp) (m : List MemoEntry) (e : MemoEntry) (newer : List MemoEntry)
    → memo_get s m ≡ none
    → has_key s e ≡ true
    → memo_get s (m ++ e ∷ newer) ≡ some e.pts
unfolding memo_get
memo_get-append_hit s [] e newer h k = rw k
memo_get-append_hit s (d ∷ m) e newer h k = ground (arith, memo_get-append_hit s m e newer)

-- An entry with at most 255 newer ones survives the eviction, and is what a lookup finds if no
-- older entry has its key.
pub memo_get-evict_recent :
    (s : FrameStamp) (m : List MemoEntry) (e : MemoEntry) (newer : List MemoEntry)
    → memo_get s m ≡ none
    → has_key s e ≡ true
    → length newer < pts_memo_frames
    → memo_get s (evict (m ++ e ∷ newer)) ≡ some e.pts
unfolding memo_get evict
memo_get-evict_recent s [] e newer h k l = ground arith
memo_get-evict_recent s (d ∷ m) e newer h k l =
    ground (arith, memo_get-append_hit s m e newer, memo_get-evict_recent s m e newer)
