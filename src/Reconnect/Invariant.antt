-- ===== src/Reconnect/Invariant.antt =====
-- What holds of every state of the reconnect of core-driver/cam_driver/pipeline.py.
use camera_service.Common.{
  ℕ, zero, suc, ◌+◌, ◌-◌, ◌*◌, ◌^◌, ◌≤◌, ◌≡◌, refl, sym, ◌∙◌, ap, Bool, true, false, ◌||◌, min,
  arith, Bool-cases, inl, inr,
}
use camera_service.Reconnect.{
  Config, Worker, absent, begun, at_loop, reopening, reopened, checked, waiting, leaving, Main,
  serving, joining, joined, late, closed, closed_late, State, running, Outcome, returns, raises,
  changed, give_up, reopen, check, start, work, watchdog, request_stop, shutdown, close, Step,
  watched, worked, stop_requested, shut_down, worker_joined, timed_out, source_closed, Run,
  start_of, and_then,
}

abbrev pub alive : Worker → Bool
alive absent = false
alive _ = true

-- In an attempt, and between the stop of the old acquisition and the start of the new one.
abbrev pub trying : Worker → Bool
trying reopening = true
trying reopened = true
trying checked = true
trying waiting = true
trying _ = false

abbrev pub between : Worker → Bool
between at_loop = true
between w = trying w

-- The backoff after `n` failed attempts.
unfoldable pub backoff_after : Config → ℕ → ℕ
backoff_after c zero = c.backoff
backoff_after c (suc n) = min (backoff_after c n * 2) c.backoff_max

pub record Consistent (c : Config) (s : State) : Type 0 where
  pub flag : s.reconnecting ≡ alive s.worker
  pub counted : trying s.worker ≡ true → 1 ≤ s.attempt
  pub first : s.worker ≡ begun → (s.attempt ≡ 0) × (s.backoff ≡ c.backoff)
  pub head : s.worker ≡ at_loop → s.backoff ≡ backoff_after c s.attempt
  pub paced : trying s.worker ≡ true → s.backoff ≡ backoff_after c (s.attempt - 1)
  pub quiet : between s.worker ≡ true → s.streaming ≡ false
  pub ready : s.worker ≡ checked → s.cleared ≡ true
  pub fresh : s.streaming ≡ true → s.cleared ≡ true

backoff_next :
    (c : Config) (n : ℕ)
    → 1 ≤ n
    → min (backoff_after c (n - 1) * 2) c.backoff_max ≡ backoff_after c n
unfolding backoff_after
backoff_next c zero h = absurd (omega arith)
backoff_next c (suc n) h = ap (λ k. min (backoff_after c k * 2) c.backoff_max) (omega arith)

backoff_same : (c : Config) (n : ℕ) → backoff_after c (n + 1 - 1) ≡ backoff_after c n
backoff_same c n = ap (backoff_after c) (omega arith)

backoff_zero : (c : Config) → backoff_after c 0 ≡ c.backoff
unfolding backoff_after
backoff_zero c = refl

reopen-Consistent :
    (c : Config) (o : Outcome) (s : State)
    → s.worker ≡ reopening
    → Consistent c s
    → Consistent c (reopen o s)
unfolding reopen give_up
reopen-Consistent c returns s w k = ground (arith, w, k.flag, k.counted, k.paced, k.quiet)
reopen-Consistent c (raises held) s w k = ground (arith, w, k.flag, k.counted, k.paced, k.quiet)
reopen-Consistent c (changed held) s w k = ground (arith, w, k.flag, k.counted, k.paced, k.quiet)

check-Consistent :
    (c : Config) (o : Outcome) (s : State)
    → s.worker ≡ reopened
    → Consistent c s
    → Consistent c (check o s)
unfolding check
check-Consistent c returns s w k = ground (arith, w, k.flag, k.counted, k.paced, k.quiet)
check-Consistent c (raises held) s w k = ground (arith, w, k.flag, k.counted, k.paced, k.quiet)
check-Consistent c (changed held) s w k = ground (arith, w, k.flag, k.counted, k.paced, k.quiet)

start-Consistent :
    (c : Config) (o : Outcome) (s : State)
    → s.worker ≡ checked
    → Consistent c s
    → Consistent c (start o s)
unfolding start give_up
start-Consistent c returns s w k = ground (arith, w, k.flag, k.counted, k.paced, k.ready)
start-Consistent c (raises held) s w k = ground (arith, w, k.flag, k.counted, k.paced, k.quiet)
start-Consistent c (changed held) s w k = ground (arith, w, k.flag, k.counted, k.paced, k.quiet)

work-Consistent :
    (c : Config) (w : Worker) (o : Outcome) (s : State)
    → s.worker ≡ w
    → Consistent c s
    → Consistent c (work w c o s)
unfolding work
work-Consistent c absent o s e k = k
work-Consistent c begun o s e k = ground (arith, e, k.flag, k.first, k.fresh, backoff_zero c)
work-Consistent c at_loop o s e k =
    ground (arith, e, k.flag, k.head, k.quiet, k.fresh, backoff_same c s.attempt)
work-Consistent c reopening o s e k = reopen-Consistent c o s e k
work-Consistent c reopened o s e k = check-Consistent c o s e k
work-Consistent c checked o s e k = start-Consistent c o s e k
work-Consistent c waiting o s e k =
    ground (arith, e, k.flag, k.counted, k.paced, k.quiet, k.fresh, backoff_next c s.attempt)
work-Consistent c leaving o s e k = ground (arith, e, k.fresh)

close-Consistent : (c : Config) (m : Main) (s : State) → Consistent c s → Consistent c (close m s)
unfolding close
close-Consistent c serving s k = k
close-Consistent c joining s k = k
close-Consistent c joined s k = ground (arith, k.flag, k.counted, k.first, k.head, k.paced, k.ready)
close-Consistent c late s k = ground (arith, k.flag, k.counted, k.first, k.head, k.paced, k.ready)
close-Consistent c closed s k = k
close-Consistent c closed_late s k = k

watchdog-Consistent : (c : Config) (s : State) → Consistent c s → Consistent c (watchdog c s)
unfolding watchdog
watchdog-Consistent c s k = elim (Bool-cases (s.stopping || s.reconnecting)) [
  | inl e ↦ rw e k
  | inr e ↦ ground (arith, e, k.fresh)
]

step-Consistent : {c : Config} {s t : State} → Step c s t → Consistent c s → Consistent c t
unfolding request_stop shutdown
step-Consistent {c} (watched s h) k = watchdog-Consistent c s k
step-Consistent {c} (worked o s) k = work-Consistent c s.worker o s refl k
step-Consistent {c} (stop_requested s h) k =
    ground (arith, k.flag, k.counted, k.first, k.head, k.paced, k.quiet, k.ready, k.fresh)
step-Consistent {c} (shut_down s h) k =
    ground (arith, k.flag, k.counted, k.first, k.head, k.paced, k.quiet, k.ready, k.fresh)
step-Consistent {c} (worker_joined s h w) k =
    ground (arith, k.flag, k.counted, k.first, k.head, k.paced, k.quiet, k.ready, k.fresh)
step-Consistent {c} (timed_out s h) k =
    ground (arith, k.flag, k.counted, k.first, k.head, k.paced, k.quiet, k.ready, k.fresh)
step-Consistent {c} (source_closed s) k = close-Consistent c s.main s k

pub run-Consistent : {c : Config} {s t : State} → Run c s t → Consistent c s → Consistent c t
run-Consistent (start_of s) k = k
run-Consistent (and_then r x) k = step-Consistent x (run-Consistent r k)

pub running-Consistent : (c : Config) → Consistent c running
unfolding running
running-Consistent c = ground arith

power_suc : (n : ℕ) → 2 ^ suc n ≡ 2 ^ n * 2
power_suc n = grind arith

product_suc : (b n : ℕ) → b * 2 ^ n * 2 ≡ b * 2 ^ suc n
product_suc b n = grind arith ∙ ap (λ u. b * u) (sym (power_suc n))

capped : (x y m : ℕ) → y ≡ min x m → min (y * 2) m ≡ min (x * 2) m
capped x y m h = omega (arith, h)

backoff_closed :
    (c : Config) (n : ℕ)
    → c.backoff ≤ c.backoff_max
    → backoff_after c n ≡ min (c.backoff * 2 ^ n) c.backoff_max
unfolding backoff_after
backoff_closed c zero h = omega (arith, h)
backoff_closed c (suc n) h =
    capped (c.backoff * 2 ^ n) (backoff_after c n) c.backoff_max (backoff_closed c n h)
    ∙ ap (λ x. min x c.backoff_max) (product_suc c.backoff n)

-- However watchdog, worker, stop and shutdown interleave: the flag that keeps the watchdog shut is
-- set exactly while the worker is alive; after its n-th failed attempt the worker waits for the
-- configured backoff times 2 ^ (n - 1), up to the maximum; and whenever the source delivers frames,
-- the publish window and the memo of an older timeline have been dropped.
pub reconnect_consistent :
    (c : Config) (s : State)
    → c.backoff ≤ c.backoff_max
    → Run c running s
    → (s.reconnecting ≡ alive s.worker)
      × (s.worker ≡ waiting → s.backoff ≡ min (c.backoff * 2 ^ (s.attempt - 1)) c.backoff_max)
      × (s.streaming ≡ true → s.cleared ≡ true)
reconnect_consistent c s h r =
    let k = run-Consistent r (running-Consistent c) in
    (k.flag, (λ w. k.paced (ap trying w) ∙ backoff_closed c (s.attempt - 1) h), k.fresh)
