-- ===== src/Sidecar.antt =====
-- SidecarWriter of core-driver/cam_driver/sidecar.py: the bounded queue between the feed thread and
-- the CSV writer thread. The file is the list of rows written to it, and the outcome of each file
-- operation is an argument. `add`, one round of the writer and one drained item are each one step;
-- the CSV header line, flushing and logging are left out.
pub mod Accounting
mod Tests
use camera_service.Common.{
  ℕ, ◌+◌, Bool, true, false, not, ◌&&◌, ◌||◌, Option, none, some, List, [], ◌∷◌, ◌++◌, length, ltb,
  if◌then◌else◌,
}
use camera_service.Common.Int.{ℤ}
use camera_service.Timestamps.{FrameStamp, TimestampSource}

pub record Row : Type 0 where
  pub frame_id : ℕ
  pub pts_ns : ℤ
  pub timestamp_ns : ℕ
  pub source : TimestampSource
  pub chunk_ns : Option ℕ
  pub camera_ns : ℕ
  pub system_ns : ℕ

-- What the queue holds: rows, and the `None` that ends the writer.
pub data Item : Type 0 where
  row : Row → Item
  sentinel : Item

-- The writer thread: not started, in its loop, in `_drain` after an OSError, or over.
pub data Writer : Type 0 where
  unborn running draining over : Writer

pub record Sidecar : Type 0 where
  pub queue : List Item
  pub started : Bool
  pub dropped : ℕ
  pub failed : Bool
  pub writer : Writer
  pub csv : List Row

abbrev pub new : Sidecar
new = record { queue = []; started = false; dropped = 0; failed = false; writer = unborn; csv = [] }

abbrev pub queue_size : ℕ
queue_size = 20000

unfoldable pub start : Sidecar → Sidecar
start s = record s { writer = running; started = true }

unfoldable pub row_of : FrameStamp → ℤ → Row
row_of stamp pts = record {
  frame_id = stamp.frame_id;
  pts_ns = pts;
  timestamp_ns = stamp.timestamp_ns;
  source = stamp.source;
  chunk_ns = stamp.chunk_ns;
  camera_ns = stamp.camera_ns;
  system_ns = stamp.system_ns;
}

unfoldable pub add : FrameStamp → ℤ → Sidecar → Sidecar
add stamp pts s =
    if not s.started || s.failed
    then s
    else if ltb (length s.queue) queue_size
    then record s { queue = s.queue ++ row (row_of stamp pts) ∷ [] }
    else record s { dropped = s.dropped + 1 }

-- One round of the writer's loop on what `get` returned; `io_ok` says whether the file took it.
write_item : Bool → Item → List Item → Sidecar → Sidecar
write_item true (row r) rest s = record s { queue = rest; csv = s.csv ++ r ∷ [] }
write_item true sentinel rest s = record s { queue = rest; writer = over }
write_item false item rest s = record s { queue = rest; failed = true; writer = draining }

take_item : Writer → List Item → Bool → Sidecar → Sidecar
unfolding write_item
take_item running [] true s = s
take_item running [] false s = record s { failed = true; writer = draining }
take_item running (item ∷ rest) io_ok s = write_item io_ok item rest s
take_item draining [] io_ok s = record s { writer = over }
take_item draining (item ∷ rest) io_ok s = record s { queue = rest }
take_item unborn queue io_ok s = s
take_item over queue io_ok s = s

-- One step of the writer thread. On an empty queue it waits, or `open` has failed.
unfoldable pub writer_step : Bool → Sidecar → Sidecar
unfolding take_item
writer_step io_ok s = take_item s.writer s.queue io_ok s

-- The first half of `stop`: the sentinel goes in unless the queue stays full for a second.
unfoldable pub stop_writer : Sidecar → Sidecar
stop_writer s =
    if not s.started
    then s
    else if ltb (length s.queue) queue_size
    then record s { queue = s.queue ++ sentinel ∷ [] }
    else s

-- The second half: the bounded join is over, whether or not the thread is.
unfoldable pub stop_joined : Sidecar → Sidecar
stop_joined s = record s { started = false }

-- The thread's steps, by the outcomes of their file operations.
works : List Bool → Sidecar → Sidecar
unfolding writer_step
works [] s = s
works (io_ok ∷ more) s = works more (writer_step io_ok s)

-- `stop`, with the steps that the thread makes until the join is over.
unfoldable pub stop : List Bool → Sidecar → Sidecar
unfolding stop_writer stop_joined works
stop steps s = if not s.started then s else stop_joined (works steps (stop_writer s))

-- What happens to a started writer until the join: a frame, a step of the thread, or the sentinel.
pub data Event : Type 0 where
  added : FrameStamp → ℤ → Event
  worked : Bool → Event
  stopping : Event

unfoldable pub event : Sidecar → Event → Sidecar
unfolding add writer_step stop_writer
event s (added stamp pts) = add stamp pts s
event s (worked io_ok) = writer_step io_ok s
event s stopping = stop_writer s

unfoldable pub events : Sidecar → List Event → Sidecar
events s [] = s
events s (e ∷ es) = events (event s e) es
