-- ===== src/Supervisor/Restarts.antt =====
-- The restart policy of core-driver/supervisor.py: how often a plugin is started again.
use camera_service.Common.{
  ℕ, zero, suc, ◌+◌, ◌*◌, ◌≤◌, ◌≡◌, refl, ◌∙◌, sym, ap, inl, inr, Bool, true, false, not, ◌&&◌,
  none, some, List, [], ◌∷◌, get_elem?, All, Bool-cases, leb, arith, if◌then◌else◌,
}
use camera_service.Session.{is_none}
use camera_service.Supervisor.{
  Service, spawn, Seen, respawn, restart_max, restart_reset, settle, retry, handle_plugin_exit,
  scan, monitor,
}

-- What one round does to a service that is not critical.
unfoldable pub visit : Seen → Service → Service
visit seen s =
    if not s.proc then s else elim seen.status [ none ↦ s | some rc ↦ handle_plugin_exit seen s ]

unfoldable pub visit_all : ℕ → (ℕ → Seen) → List Service → List Service
visit_all i seen [] = []
visit_all i seen (s ∷ ss) = visit (seen i) s ∷ visit_all (i + 1) seen ss

abbrev pub IsPlugin : Service → Type 0
IsPlugin s = s.critical ≡ false

respawn-critical : (seen : Seen) (s : Service) → (respawn seen s).critical ≡ s.critical
unfolding respawn spawn
respawn-critical seen s = ground arith

visit-IsPlugin : (seen : Seen) (s : Service) → IsPlugin s → IsPlugin (visit seen s)
unfolding visit handle_plugin_exit retry settle
visit-IsPlugin seen s p = ground (
  arith,
  respawn-critical seen (record s { restarts = s.restarts + 1 }),
  respawn-critical seen (record s { restarts = 1 }),
)

pub visit_all-IsPlugin :
    (i : ℕ) (seen : ℕ → Seen) (ss : List Service)
    → All IsPlugin ss
    → All IsPlugin (visit_all i seen ss)
unfolding visit_all
visit_all-IsPlugin i seen [] p = tt
visit_all-IsPlugin i seen (s ∷ ss) (p, ps) =
    (visit-IsPlugin (seen i) s p, visit_all-IsPlugin (i + 1) seen ss ps)

pub scan-visit_all :
    (playback : Bool) (i : ℕ) (seen : ℕ → Seen) (ss : List Service)
    → All IsPlugin ss
    → scan playback i seen ss ≡ record { services = visit_all i seen ss; exit = none }
unfolding scan visit_all visit
scan-visit_all playback i seen [] p = refl
scan-visit_all playback i seen (s ∷ ss) (p, ps) =
    ground (arith, p, scan-visit_all playback (i + 1) seen ss ps)

-- What the rounds of a run do to one service that is not critical.
unfoldable pub watched : List Seen → Service → Service
watched [] s = s
watched (v ∷ vs) s = watched vs (visit v s)

unfoldable pub visit_rounds : ℕ → List (ℕ → Seen) → List Service → List Service
visit_rounds i [] ss = ss
visit_rounds i (seen ∷ more) ss = visit_rounds i more (visit_all i seen ss)

-- What the monitor sees of the service of index `k`.
unfoldable pub looks_at : ℕ → List (ℕ → Seen) → List Seen
looks_at k [] = []
looks_at k (seen ∷ more) = seen k ∷ looks_at k more

get_elem?-visit_all :
    (i k : ℕ) (seen : ℕ → Seen) (ss : List Service) (s : Service)
    → get_elem? ss k ≡ some s
    → get_elem? (visit_all i seen ss) k ≡ some (visit (seen (i + k)) s)
unfolding visit_all
get_elem?-visit_all i k seen [] s h = cc
get_elem?-visit_all i zero seen (t ∷ ts) s h = ground arith
get_elem?-visit_all i (suc k) seen (t ∷ ts) s h =
    ground (arith, get_elem?-visit_all (i + 1) k seen ts s h)

get_elem?-visit_rounds :
    (i k : ℕ) (rounds : List (ℕ → Seen)) (ss : List Service) (s : Service)
    → get_elem? ss k ≡ some s
    → get_elem? (visit_rounds i rounds ss) k ≡ some (watched (looks_at (i + k) rounds) s)
unfolding visit_rounds watched looks_at
get_elem?-visit_rounds i k [] ss s h = h
get_elem?-visit_rounds i k (seen ∷ more) ss s h =
    get_elem?-visit_rounds i k more (visit_all i seen ss) (visit (seen (i + k)) s)
      (get_elem?-visit_all i k seen ss s h)

-- The core runs: it is not seen to have exited.
abbrev pub CoreRuns : (ℕ → Seen) → Type 0
CoreRuns seen = is_none (seen 0).status ≡ true

pub scan-visit_core :
    (playback : Bool) (seen : ℕ → Seen) (core : Service) (ss : List Service)
    → CoreRuns seen
    → All IsPlugin ss
    → scan playback 0 seen (core ∷ ss)
      ≡ record { services = core ∷ visit_all 1 seen ss; exit = none }
unfolding scan
scan-visit_core playback seen core ss c p = ground (arith, c, scan-visit_all playback 1 seen ss p)

pub monitor_goes_on :
    (playback : Bool) (seen : ℕ → Seen) (more : List (ℕ → Seen)) (ss : List Service)
    → (scan playback 0 seen ss).exit ≡ none
    → monitor playback (seen ∷ more) ss ≡ monitor playback more (scan playback 0 seen ss).services
unfolding monitor
monitor_goes_on playback seen more ss h = rw (h, monitor) refl

pub monitor-visit_rounds :
    (playback : Bool) (rounds : List (ℕ → Seen)) (core : Service) (ss : List Service)
    → All CoreRuns rounds
    → All IsPlugin ss
    → (monitor playback rounds (core ∷ ss)).1 ≡ core ∷ visit_rounds 1 rounds ss
unfolding monitor visit_rounds
monitor-visit_rounds playback [] core ss c p = refl
monitor-visit_rounds playback (seen ∷ more) core ss (c, cs) p =
    let next = scan-visit_core playback seen core ss c p in
    ap (λ x. x.1) (monitor_goes_on playback seen more (core ∷ ss) (ap (λ r. r.exit) next))
    ∙ ap (λ r. (monitor playback more r.services).1) next
    ∙ monitor-visit_rounds playback more core (visit_all 1 seen ss) cs
        (visit_all-IsPlugin 1 seen ss p)

-- Whether a look finds that the process of a service has exited, and whether it had stayed up for the
-- time that resets the counter.
abbrev pub exit_seen : Seen → Service → Bool
exit_seen v s = s.proc && not (is_none v.status)

unfoldable pub exits : List Seen → Service → ℕ
exits [] s = 0
exits (v ∷ vs) s = (if exit_seen v s then 1 else 0) + exits vs (visit v s)

unfoldable pub long_runs : List Seen → Service → ℕ
long_runs [] s = 0
long_runs (v ∷ vs) s =
    (if exit_seen v s && leb (s.started_at + restart_reset) v.now then 1 else 0)
    + long_runs vs (visit v s)

respawn-restarts : (seen : Seen) (s : Service) → (respawn seen s).restarts ≡ s.restarts
unfolding respawn spawn
respawn-restarts seen s = ground arith

-- One look at a plugin that is not given up at it.
visit-restarts :
    (v : Seen) (s : Service)
    → s.restarts ≤ restart_max
    → (visit v s).proc ≡ true
    → ((visit v s).restarts ≤ restart_max)
      × ((if exit_seen v s then 1 else 0) + s.restarts
          ≤ (visit v s).restarts
            + (if exit_seen v s && leb (s.started_at + restart_reset) v.now
                then restart_max
                else 0))
unfolding visit handle_plugin_exit retry settle
visit-restarts v s b p = ground (
  arith,
  b,
  p,
  respawn-restarts v (record s { restarts = s.restarts + 1 }),
  respawn-restarts v (record s { restarts = 1 }),
)

visit_given_up : (v : Seen) (s : Service) → s.proc ≡ false → visit v s ≡ s
unfolding visit
visit_given_up v s p = ground (arith, p)

watched_given_up : (vs : List Seen) (s : Service) → s.proc ≡ false → watched vs s ≡ s
unfolding watched
watched_given_up [] s p = refl
watched_given_up (v ∷ vs) s p = ap (watched vs) (visit_given_up v s p) ∙ watched_given_up vs s p

exits_bounded :
    (vs : List Seen) (s : Service)
    → s.restarts ≤ restart_max
    → (watched vs s).proc ≡ true
    → exits vs s + s.restarts ≤ restart_max + restart_max * long_runs vs s
unfolding watched exits long_runs
exits_bounded [] s b p = omega (arith, b)
exits_bounded (v ∷ vs) s b p = elim (Bool-cases (visit v s).proc) [
  | inl e ↦
      let (b', h) = visit-restarts v s b e in ground (arith, h, exits_bounded vs (visit v s) b' p)
  | inr e ↦ absurd (ground (arith, e, p, watched_given_up vs (visit v s) e))
]

-- While the core runs: a plugin that had not been restarted yet and has not been given up at the end
-- of the rounds has exited at most five times, and five times more for each time that it had stayed
-- up for 30 s, whatever the spawns do and however many rounds there were.
pub plugin_exits_bounded :
    (playback : Bool) (rounds : List (ℕ → Seen)) (core : Service) (ss : List Service) (k : ℕ)
    (s t : Service)
    → All CoreRuns rounds
    → All IsPlugin ss
    → get_elem? ss k ≡ some s
    → s.restarts ≡ 0
    → get_elem? (monitor playback rounds (core ∷ ss)).1 (suc k) ≡ some t
    → t.proc ≡ true
    → let looks = looks_at (1 + k) rounds in
      exits looks s ≤ restart_max + restart_max * long_runs looks s
plugin_exits_bounded playback rounds core ss k s t c p g z h alive =
    let looks = looks_at (1 + k) rounds in
    let same : some (watched looks s) ≡ some t =
      sym (get_elem?-visit_rounds 1 k rounds ss s g)
      ∙ ap (λ l. get_elem? l (suc k)) (sym (monitor-visit_rounds playback rounds core ss c p))
      ∙ h in
    let found : watched looks s ≡ t = cc same in
    omega
      (arith, exits_bounded looks s (omega arith) (ap (λ (x : Service). x.proc) found ∙ alive), z)
