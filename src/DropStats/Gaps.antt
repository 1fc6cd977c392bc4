-- ===== src/DropStats/Gaps.antt =====
-- What the gap counters say of a stream of ascending frame ids.
use camera_service.Common.{ℕ, ◌+◌, ◌<◌, ◌≡◌, some, List, [], ◌∷◌, map, arith}
use camera_service.DropStats.{DropStats, new, observe, call, calls}

-- Each id is above the one before it.
abbrev pub Ascending : ℕ → List ℕ → Type 0
Ascending last [] = Unit
Ascending last (i ∷ is) = (last < i) × Ascending i is

abbrev pub last_of : ℕ → List ℕ → ℕ
last_of last [] = last
last_of last (i ∷ is) = last_of i is

observe_from :
    (s : DropStats) (last : ℕ) (ids : List ℕ)
    → s.last_fid ≡ some last
    → Ascending last ids
    → let t = calls s (map observe ids) in
      t.frames + t.frames_missing + last ≡ s.frames + s.frames_missing + last_of last ids
unfolding calls
observe_from s last [] e h = omega arith
observe_from s last (i ∷ is) e h =
    let step : (call s (observe i)).frames + (call s (observe i)).frames_missing + last
        ≡ s.frames + s.frames_missing + i =
      unfold call in ground arith in
    let seen : (call s (observe i)).last_fid ≡ some i = unfold call in ground arith in
    omega (arith, observe_from (call s (observe i)) i is seen h.1)

-- From a fresh object, ids that ascend from `first` to their last are all accounted for: frames
-- received plus frames missing is the length of the range of ids.
observed_range :
    (first : ℕ) (ids : List ℕ)
    → Ascending first ids
    → let t = calls new (map observe (first ∷ ids)) in
      t.frames + t.frames_missing + first ≡ last_of first ids + 1
unfolding calls call
observed_range first ids h =
    omega (arith, observe_from (call new (observe first)) first ids (ground arith) h)
