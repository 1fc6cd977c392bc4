-- ===== src/Session/Close.antt =====
-- Closing a session: `begin_close`, `finish_close`, `_on_bus` and `describe` of
-- core-driver/cam_driver/session.py. `begin_close` waits for the feed lock between its two halves.
use camera_service.Common.{
  ℕ, Bool, true, false, not, ◌&&◌, ◌||◌, Option, none, some, List, [], ◌∷◌, ◌++◌, length, ltb, ◌==◌,
  if◌then◌else◌,
}
use camera_service.Common.Int.{ℤ}
use camera_service.Common.Text.{text_eq}
use camera_service.DropStats.{Summary, Change, delta}
use camera_service.Sidecar
use camera_service.Session.{Session, end_of_stream, is_none, record_error, close_signal}

-- The second half of `begin_close`, under the feed lock.
unfoldable pub close_join : Bool → Session → Session
close_join eos_sent s = record s {
  closed = true;
  appsrc_calls =
      if s.pipeline && ltb 0 s.frames && not eos_sent
      then s.appsrc_calls ++ end_of_stream ∷ []
      else s.appsrc_calls;
}

unfoldable pub begin_close : Bool → Session → Session
begin_close block s =
    if s.closed then s else let (eos_sent, s') = close_signal block s in close_join eos_sent s'

-- What the bus gives the bounded wait for EOS or ERROR.
pub data Popped : Type 0 where
  nothing eos : Popped
  bus_error : List ℕ → Popped

unfoldable pub teardown : Session → Session
teardown s = record s { pipeline = false }

-- The wait, where there is an EOS to wait for.
unfoldable pub pop_eos : Popped → Session → Session
pop_eos nothing s = record s { truncated = true }
pop_eos (bus_error e) s = record s { error = some e; truncated = true }
pop_eos eos s = s

unfoldable pub drain : Bool → Popped → Session → Session
drain wait popped s =
    if not s.pipeline
    then s
    else if not (is_none s.error)
    then record s { truncated = true }
    else if s.frames == 0
    then s
    else if not s.eos_seen && wait
    then pop_eos popped s
    else if not s.eos_seen
    then record s { truncated = true }
    else s

-- Python's `<` on two texts.
unfoldable pub text_lt : List ℕ → List ℕ → Bool
text_lt [] [] = false
text_lt [] (y ∷ ys) = true
text_lt (x ∷ xs) [] = false
text_lt (x ∷ xs) (y ∷ ys) = let rest = text_lt xs ys in ltb x y || (x == y && rest)

-- One more member of a set that is kept as its sorted list.
unfoldable pub insert_text : List ℕ → List (List ℕ) → List (List ℕ)
insert_text a [] = a ∷ []
insert_text a (b ∷ bs) =
    let rest = insert_text a bs in
    if text_lt a b then a ∷ b ∷ bs else if text_eq a b then b ∷ bs else b ∷ rest

-- `sorted(set(xs))`
unfoldable pub sorted_set : List (List ℕ) → List (List ℕ)
sorted_set [] = []
sorted_set (x ∷ xs) = insert_text x (sorted_set xs)

-- `sorted(set(self.segments) | set(glob.glob(...)))`
unfoldable pub reconcile : List (List ℕ) → Session → Session
reconcile on_disk s = record s { segments = sorted_set (s.segments ++ on_disk) }

-- The dicts of `finish_close`: the attestation and the drop counters.
pub record Attest : Type 0 where
  pub frames_recorded : ℕ
  pub skipped_awaiting_keyframe : ℕ
  pub segments : ℕ
  pub truncated : Bool
  pub error : Option (List ℕ)
  pub first_pts_ns : Option ℤ
  pub session_index : ℕ
  pub drops : Change

unfoldable pub attest : Summary → Session → Attest
attest drops_now s = record {
  frames_recorded = s.frames;
  skipped_awaiting_keyframe = s.skipped_awaiting_keyframe;
  segments = length s.segments;
  truncated = s.truncated;
  error = s.error;
  first_pts_ns = s.first_pts;
  session_index = s.index;
  drops = delta drops_now s.drops_at_start;
}

-- The messages of the session's bus. The hook that reports a fragment changes nothing and is left
-- out.
pub data BusMessage : Type 0 where
  error_message : List ℕ → BusMessage
  eos_message fragment_other : BusMessage
  fragment_opened fragment_closed : Option (List ℕ) → BusMessage

abbrev non_empty : Option (List ℕ) → Option (List ℕ)
non_empty none = none
non_empty (some []) = none
non_empty (some (c ∷ cs)) = some (c ∷ cs)

unfoldable pub on_bus : BusMessage → Session → Session
on_bus (error_message e) s = record_error e s
on_bus eos_message s = record s { eos_seen = true }
on_bus fragment_other s = s
on_bus (fragment_opened loc) s = record s { open_fragment = non_empty loc }
on_bus (fragment_closed loc) s = record s {
  open_fragment = none;
  segments = elim (non_empty loc) [ none ↦ s.segments | some l ↦ s.segments ++ l ∷ [] ];
}

-- The dict of `describe`; the last two fields are those of the final one.
pub record Description : Type 0 where
  pub index : ℕ
  pub frames : ℕ
  pub segments : ℕ
  pub open_fragment : Option (List ℕ)
  pub skipped_awaiting_keyframe : ℕ
  pub error : Option (List ℕ)
  pub truncated : Bool
  pub files : List (List ℕ)

unfoldable pub describe : Session → Description
describe s = record {
  index = s.index;
  frames = s.frames;
  segments = length s.segments;
  open_fragment = s.open_fragment;
  skipped_awaiting_keyframe = s.skipped_awaiting_keyframe;
  error = s.error;
  truncated = s.truncated;
  files = s.segments;
}

-- `self.sidecar.stop()`: `works` are the steps of the writer thread before the join is over.
unfoldable pub stop_sidecar : List Bool → Session → Session
stop_sidecar works s = record s { sidecar = Sidecar.stop works s.sidecar }

-- `wait` is `timeout_s > 0`. What is written to the sidecar's JSON is returned beside the
-- description.
unfoldable pub finish_close :
    Bool → Popped → List (List ℕ) → List Bool → Summary → Session → Description × Attest × Session
finish_close wait popped on_disk works drops_now s =
    let s' = reconcile on_disk (teardown (drain wait popped s)) in
    let s'' = stop_sidecar works s' in (describe s'', attest drops_now s', s'')
