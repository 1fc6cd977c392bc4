-- ===== src/Sidecar/Accounting.antt =====
-- Every row that was handed to a writer which has not failed is in the file, in the queue, or
-- counted as dropped.
use mathlib.Core.List.{append_assoc, append-nil}
use camera_service.Common.{
  ◌+◌, ◌≡◌, refl, sym, ◌∙◌, ◌⊎◌, inl, inr, ap, Bool, true, false, List, [], ◌∷◌, ◌++◌, length,
  length-append, arith,
}
use camera_service.Sidecar.{
  Row, Item, row, sentinel, Writer, unborn, running, draining, over, Sidecar, new, start, row_of,
  take_item, Event, added, worked, stopping, event, events,
}

-- The rows among the items of the queue.
abbrev pub rows : List Item → List Row
rows [] = []
rows (row r ∷ q) = r ∷ rows q
rows (sentinel ∷ q) = rows q

abbrev added_by : Event → List Row
added_by (added stamp pts) = row_of stamp pts ∷ []
added_by (worked io_ok) = []
added_by stopping = []

-- The rows that the events hand over.
abbrev pub added_rows : List Event → List Row
added_rows [] = []
added_rows (e ∷ es) = added_by e ++ added_rows es

-- The rows in the file and in the queue.
abbrev pub kept : Sidecar → List Row
kept s = s.csv ++ rows s.queue

rows-append : (p q : List Item) → rows (p ++ q) ≡ rows p ++ rows q
rows-append [] q = refl
rows-append (row r ∷ p) q = ap (λ (l : List Row). r ∷ l) (rows-append p q)
rows-append (sentinel ∷ p) q = rows-append p q

-- Draining begins with the failure.
abbrev DrainsFailed : Sidecar → Type 0
DrainsFailed s = s.writer ≡ draining → s.failed ≡ true

-- What one event does to a writer that has not failed by its end.
record Moves (e : Event) (s t : Sidecar) : Type 0 where
  worked_before : s.failed ≡ false
  kept_or_dropped :
      ((kept t ≡ kept s ++ added_by e) × (t.dropped ≡ s.dropped))
      ⊎ ((kept t ≡ kept s) × (t.dropped ≡ s.dropped + 1) × (length (added_by e) ≡ 1))

add-kept : (s : Sidecar) (r : Row) → s.csv ++ rows (s.queue ++ row r ∷ []) ≡ kept s ++ r ∷ []
add-kept s r =
    ap (λ (l : List Row). s.csv ++ l) (rows-append s.queue (row r ∷ []))
    ∙ sym (append_assoc s.csv (rows s.queue) (r ∷ []))

stop-kept : (s : Sidecar) → s.csv ++ rows (s.queue ++ sentinel ∷ []) ≡ kept s ++ []
stop-kept s =
    ap (λ (l : List Row). s.csv ++ l) (rows-append s.queue (sentinel ∷ []))
    ∙ sym (append_assoc s.csv (rows s.queue) [])

take-kept :
    (w : Writer) (q : List Item) (io_ok : Bool) (s : Sidecar)
    → (w ≡ draining → s.failed ≡ true)
    → q ≡ s.queue
    → let t = take_item w q io_ok s in
      t.failed ≡ false → (s.failed ≡ false) × (kept t ≡ kept s) × (t.dropped ≡ s.dropped)
unfolding take_item
take-kept running [] true s d e h = (h, refl, refl)
take-kept running [] false s d e h = cc
take-kept running (row r ∷ q) true s d e h =
    (h, append_assoc s.csv (r ∷ []) (rows q) ∙ ap (λ (l : List Item). s.csv ++ rows l) e, refl)
take-kept running (sentinel ∷ q) true s d e h = (h, ap (λ (l : List Item). s.csv ++ rows l) e, refl)
take-kept running (item ∷ q) false s d e h = cc
take-kept draining [] io_ok s d e h = cc (d refl)
take-kept draining (item ∷ q) io_ok s d e h = cc (d refl)
take-kept unborn q io_ok s d e h = (h, refl, refl)
take-kept over q io_ok s d e h = (h, refl, refl)

take-DrainsFailed :
    (w : Writer) (q : List Item) (io_ok : Bool) (s : Sidecar)
    → w ≡ s.writer
    → DrainsFailed s
    → DrainsFailed (take_item w q io_ok s)
unfolding take_item
take-DrainsFailed running [] true s e d h = d h
take-DrainsFailed running [] false s e d h = refl
take-DrainsFailed running (row r ∷ q) true s e d h = d h
take-DrainsFailed running (sentinel ∷ q) true s e d h = cc
take-DrainsFailed running (item ∷ q) false s e d h = refl
take-DrainsFailed draining [] io_ok s e d h = cc
take-DrainsFailed draining (item ∷ q) io_ok s e d h = d h
take-DrainsFailed unborn q io_ok s e d h = d h
take-DrainsFailed over q io_ok s e d h = d h

event-Moves :
    (s : Sidecar) (e : Event)
    → s.started ≡ true
    → DrainsFailed s
    → (event s e).failed ≡ false
    → Moves e s (event s e)
unfolding event
event-Moves s (added stamp pts) b d h = ground (arith, add-kept s (row_of stamp pts))
event-Moves s (worked io_ok) b d h =
    let (f, k, n) = take-kept s.writer s.queue io_ok s d refl h in
    record { worked_before = f; kept_or_dropped = inl (k ∙ sym (append-nil (kept s)), n) }
event-Moves s stopping b d h = ground (arith, stop-kept s, append-nil (kept s))

take-started :
    (w : Writer) (q : List Item) (io_ok : Bool) (s : Sidecar)
    → (take_item w q io_ok s).started ≡ s.started
unfolding take_item
take-started running [] true s = refl
take-started running [] false s = refl
take-started running (row r ∷ q) true s = refl
take-started running (sentinel ∷ q) true s = refl
take-started running (item ∷ q) false s = refl
take-started draining [] io_ok s = refl
take-started draining (item ∷ q) io_ok s = refl
take-started unborn q io_ok s = refl
take-started over q io_ok s = refl

event-started :
    (s : Sidecar) (e : Event)
    → s.started ≡ true
    → DrainsFailed s
    → ((event s e).started ≡ true) × DrainsFailed (event s e)
unfolding event
event-started s (added stamp pts) b d = (ground arith, λ x. ground arith)
event-started s (worked io_ok) b d =
    (take-started s.writer s.queue io_ok s ∙ b, take-DrainsFailed s.writer s.queue io_ok s refl d)
event-started s stopping b d = (ground arith, λ x. ground arith)

record Accounts (seen : List Row) (s : Sidecar) : Type 0 where
  all_kept : s.failed ≡ false → s.dropped ≡ 0 → kept s ≡ seen
  counted : s.failed ≡ false → length (kept s) + s.dropped ≡ length seen

Moves-Accounts :
    (seen : List Row) (e : Event) (s t : Sidecar)
    → Moves e s t
    → Accounts seen s
    → ((t.dropped ≡ 0 → kept t ≡ seen ++ added_by e)
        × (length (kept t) + t.dropped ≡ length (seen ++ added_by e)))
Moves-Accounts seen e s t m h = elim m.kept_or_dropped [
  | inl (k, n) ↦ (
    λ z. k ∙ ap (λ (l : List Row). l ++ added_by e) (h.all_kept m.worked_before (sym n ∙ z)),
    omega (
      arith,
      ap length k,
      h.counted m.worked_before,
      length-append (kept s) (added_by e),
      length-append seen (added_by e),
    ),
  )
  | inr (k, n, one) ↦ (
    λ z. absurd (omega arith),
    omega (arith, ap length k, h.counted m.worked_before, length-append seen (added_by e)),
  )
]

events-Accounts :
    (seen : List Row) (s : Sidecar) (es : List Event)
    → s.started ≡ true
    → DrainsFailed s
    → Accounts seen s
    → Accounts (seen ++ added_rows es) (events s es)
unfolding events
events-Accounts seen s [] b d h = rw (append-nil seen) h
events-Accounts seen s (e ∷ es) b d h =
    let (b', d') = event-started s e b d in
    let step : Accounts (seen ++ added_by e) (event s e) = record {
      all_kept = λ f. (Moves-Accounts seen e s (event s e) (event-Moves s e b d f) h).0;
      counted = λ f. (Moves-Accounts seen e s (event s e) (event-Moves s e b d f) h).1;
    } in
    rw (← append_assoc seen (added_by e) (added_rows es))
      (events-Accounts (seen ++ added_by e) (event s e) es b' d' step)

-- Whatever the frames, the file operations and the interleaving of the writer thread: as long as
-- the writer has not failed, the rows in the file and in the queue, with those counted as dropped,
-- are as many as were added; and if none was dropped they are the added rows, in order.
pub events_accounted :
    (es : List Event)
    → (events (start new) es).failed ≡ false
    → let s = events (start new) es in
      (length (kept s) + s.dropped ≡ length (added_rows es))
      × (s.dropped ≡ 0 → kept s ≡ added_rows es)
unfolding start
events_accounted es f =
    let begun : Accounts [] (start new) = record { all_kept = λ a b. refl; counted = λ a. refl } in
    let h = events-Accounts [] (start new) es refl (λ e. cc) begun in (h.counted f, h.all_kept f)
