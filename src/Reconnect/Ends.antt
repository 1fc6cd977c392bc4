-- ===== src/Reconnect/Ends.antt =====
-- The worker of core-driver/cam_driver/pipeline.py ends after a stop.
use camera_service.Common.{ℕ, ◌+◌, ◌≤◌, ◌≡◌, refl, ap, ◌∙◌, ◌⊎◌, inl, inr, true, false, arith}
use camera_service.Reconnect.{
  Config, Worker, absent, begun, at_loop, reopening, reopened, checked, waiting, leaving, Main,
  serving, joining, joined, late, closed, closed_late, State, running, Outcome, returns, raises,
  changed, give_up, reopen, check, start, work, watchdog, request_stop, shutdown, close, watched,
  worked, stop_requested, shut_down, worker_joined, timed_out, source_closed, Run, start_of,
  and_then,
}
use camera_service.Reconnect.Invariant.{alive, running-Consistent, run-Consistent}

-- The steps that a worker has left once a stop has come.
abbrev left : Worker → ℕ
left absent = 0
left leaving = 1
left at_loop = 2
left reopened = 2
left begun = 3
left waiting = 2
left checked = 3
left reopening = 3

unfoldable pub worker_steps : {c : Config} {s t : State} → Run c s t → ℕ
worker_steps (start_of s) = 0
worker_steps (and_then r (worked o s)) = worker_steps r + 1
worker_steps (and_then r (watched s h)) = worker_steps r
worker_steps (and_then r (stop_requested s h)) = worker_steps r
worker_steps (and_then r (shut_down s h)) = worker_steps r
worker_steps (and_then r (worker_joined s h w)) = worker_steps r
worker_steps (and_then r (timed_out s h)) = worker_steps r
worker_steps (and_then r (source_closed s)) = worker_steps r

-- A state after `n` steps of the worker since the stop.
record Ending (n : ℕ) (a : ℕ) (t : State) : Type 0 where
  stopped : t.stopping ≡ true
  bounded : (t.worker ≡ absent) ⊎ (n + left t.worker ≤ 3)
  no_attempt : t.attempt ≡ a

work-Ending :
    (w : Worker) (c : Config) (o : Outcome) (s : State) (n a : ℕ)
    → s.worker ≡ w
    → Ending n a s
    → Ending (n + 1) a (work w c o s)
unfolding work reopen check start give_up
work-Ending absent c o s n a e k = ground (arith, e, k.stopped, k.no_attempt)
work-Ending begun c o s n a e k = ground (arith, e, k.stopped, k.no_attempt, k.bounded)
work-Ending at_loop c o s n a e k = ground (arith, e, k.stopped, k.no_attempt, k.bounded)
work-Ending reopening c returns s n a e k = ground (arith, e, k.stopped, k.no_attempt, k.bounded)
work-Ending reopening c (raises held) s n a e k =
    ground (arith, e, k.stopped, k.no_attempt, k.bounded)
work-Ending reopening c (changed held) s n a e k =
    ground (arith, e, k.stopped, k.no_attempt, k.bounded)
work-Ending reopened c returns s n a e k = ground (arith, e, k.stopped, k.no_attempt, k.bounded)
work-Ending reopened c (raises held) s n a e k =
    ground (arith, e, k.stopped, k.no_attempt, k.bounded)
work-Ending reopened c (changed held) s n a e k =
    ground (arith, e, k.stopped, k.no_attempt, k.bounded)
work-Ending checked c returns s n a e k = ground (arith, e, k.stopped, k.no_attempt, k.bounded)
work-Ending checked c (raises held) s n a e k =
    ground (arith, e, k.stopped, k.no_attempt, k.bounded)
work-Ending checked c (changed held) s n a e k =
    ground (arith, e, k.stopped, k.no_attempt, k.bounded)
work-Ending waiting c o s n a e k = ground (arith, e, k.stopped, k.no_attempt, k.bounded)
work-Ending leaving c o s n a e k = ground (arith, e, k.stopped, k.no_attempt, k.bounded)

close-Ending : (m : Main) (s : State) (n a : ℕ) → Ending n a s → Ending n a (close m s)
unfolding close
close-Ending serving s n a k = k
close-Ending joining s n a k = k
close-Ending joined s n a k = ground (arith, k.stopped, k.no_attempt, k.bounded)
close-Ending late s n a k = ground (arith, k.stopped, k.no_attempt, k.bounded)
close-Ending closed s n a k = k
close-Ending closed_late s n a k = k

run-Ending :
    {c : Config} {s t : State} (r : Run c s t)
    → s.stopping ≡ true
    → Ending (worker_steps r) s.attempt t
unfolding worker_steps watchdog request_stop shutdown
run-Ending (start_of s) h = ground (arith, h)
run-Ending {c} (and_then r (worked o s)) h =
    work-Ending s.worker c o s (worker_steps r) _ refl (run-Ending r h)
run-Ending (and_then r (watched s m)) h =
    let k = run-Ending r h in ground (arith, k.stopped, k.no_attempt, k.bounded)
run-Ending (and_then r (stop_requested s m)) h =
    let k = run-Ending r h in ground (arith, k.stopped, k.no_attempt, k.bounded)
run-Ending (and_then r (shut_down s m)) h =
    let k = run-Ending r h in ground (arith, k.stopped, k.no_attempt, k.bounded)
run-Ending (and_then r (worker_joined s m w)) h =
    let k = run-Ending r h in ground (arith, k.stopped, k.no_attempt, k.bounded)
run-Ending (and_then r (timed_out s m)) h =
    let k = run-Ending r h in ground (arith, k.stopped, k.no_attempt, k.bounded)
run-Ending (and_then r (source_closed s)) h =
    close-Ending s.main s (worker_steps r) _ (run-Ending r h)

none_left : (w : Worker) → left w ≡ 0 → w ≡ absent
none_left absent h = refl
none_left begun h = absurd (omega (arith, h))
none_left at_loop h = absurd (omega (arith, h))
none_left reopening h = absurd (omega (arith, h))
none_left reopened h = absurd (omega (arith, h))
none_left checked h = absurd (omega (arith, h))
none_left waiting h = absurd (omega (arith, h))
none_left leaving h = absurd (omega (arith, h))

-- A stop ends the reconnect: from a reachable state in which the stop has come, whatever the other
-- thread does in between and whatever the source answers, no new attempt is made, and after three
-- more steps of the worker it has ended and its flag is released.
pub worker_ends :
    {c : Config} {s t : State} (before : Run c running s) (r : Run c s t)
    → s.stopping ≡ true
    → 3 ≤ worker_steps r
    → (t.worker ≡ absent) × (t.reconnecting ≡ false) × (t.attempt ≡ s.attempt)
worker_ends {c} {s} {t} before r h n =
    let k = run-Ending r h in
    let gone : t.worker ≡ absent = elim k.bounded [
      | inl e ↦ e
      | inr b ↦ none_left t.worker (omega (arith, n, b))
    ] in
    let flag = (run-Consistent r (run-Consistent before (running-Consistent c))).flag in
    (gone, flag ∙ ap alive gone, k.no_attempt)
