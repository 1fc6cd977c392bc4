-- ===== src/Supervisor.antt =====
-- The supervisor of a sensor: core-driver/supervisor.py. Times are milliseconds; what the processes,
-- the clock and the signals do is an argument (Spawned, Seen, Child). Building a plugin's command is
-- an argument too; a plugin without one is left out, as in the code.
pub mod Restarts
pub mod Status
pub mod Stop
mod Tests
use camera_service.Common.{
  ℕ, zero, suc, ◌+◌, ◌-◌, Bool, true, false, not, ◌&&◌, Option, none, some, List, [], ◌∷◌, ◌++◌,
  map, ltb, leb, ◌==◌, if◌then◌else◌,
}
use camera_service.Common.Int.{ℤ, pos, negsuc}

abbrev pub restart_max : ℕ
restart_max = 5

abbrev pub restart_reset : ℕ
restart_reset = 30000

abbrev pub core_stop_grace : ℕ
core_stop_grace = 20000

abbrev pub plugin_stop_grace : ℕ
plugin_stop_grace = 10000

-- `proc` says whether there is a process, also one that has exited and was not given up.
pub record Service : Type 0 where
  pub name : List ℕ
  pub critical : Bool
  pub restart : Bool
  pub proc : Bool
  pub restarts : ℕ
  pub started_at : ℕ

unfoldable pub service : List ℕ → Bool → Bool → Service
service name critical restart = record {
  name = name;
  critical = critical;
  restart = restart;
  proc = false;
  restarts = 0;
  started_at = 0;
}

unfoldable pub spawn : ℕ → Service → Service
spawn now s = record s { proc = true; started_at = now }

-- An entry of `plugins:`, with whether `_resolve` finds a command for it.
pub record Plugin : Type 0 where
  pub name : List ℕ
  pub enabled : Bool
  pub process : Bool
  pub restart : Bool
  pub resolved : Bool

unfoldable pub plugin_services : List Plugin → List Service
plugin_services [] = []
plugin_services (p ∷ ps) =
    if p.enabled && p.process && p.resolved
    then service p.name false p.restart ∷ plugin_services ps
    else plugin_services ps

unfoldable pub build_services : List ℕ → List Plugin → List Service
build_services core plugins = service core true false ∷ plugin_services plugins

-- What happens as a service is to be spawned: it starts, the system refuses, or a signal came first.
pub data Spawned : Type 0 where
  up failed : ℕ → Spawned
  stopped : Spawned

-- A service of the spawn loop, with what the loop gives for the services behind it; `none` when the
-- core cannot be spawned.
unfoldable pub started :
    Spawned → Service → List Service → Option (List Service) → Option (List Service)
started stopped s ss rest = some (s ∷ ss)
started (up now) s ss none = none
started (up now) s ss (some ts) = some (spawn now s ∷ ts)
started (failed now) s ss none = none
started (failed now) s ss (some ts) = if s.critical then none else some (s ∷ ts)

-- The spawn loop of `run`, from the service of index `i` on.
unfoldable pub start_all : ℕ → (ℕ → Spawned) → List Service → Option (List Service)
start_all i seen [] = some []
start_all i seen (s ∷ ss) = started (seen i) s ss (start_all (i + 1) seen ss)

-- What the monitor sees as it looks at a service: the status of a process that has exited, the time,
-- whether a signal came during the backoff, and what the new spawn does.
pub record Seen : Type 0 where
  pub status : Option ℤ
  pub now : ℕ
  pub stopping : Bool
  pub again : Spawned

-- The restart of a plugin once its backoff is over; `stopping` ends it before the spawn.
unfoldable pub respawn : Seen → Service → Service
respawn seen s =
    if seen.stopping
    then s
    else elim seen.again [ up t ↦ spawn t s | failed t ↦ record s { started_at = t } | stopped ↦ s ]

unfoldable pub settle : ℕ → Service → Service
settle now s = if leb (s.started_at + restart_reset) now then record s { restarts = 0 } else s

-- `_handle_plugin_exit`, first for a service whose counter is settled.
unfoldable pub retry : Seen → Service → Service
retry seen s =
    if not s.restart
    then record s { proc = false }
    else if leb restart_max s.restarts
    then record s { proc = false }
    else respawn seen (record s { restarts = s.restarts + 1 })

unfoldable pub handle_plugin_exit : Seen → Service → Service
handle_plugin_exit seen s = retry seen (settle seen.now s)

-- `rc or 1`, save for the end of a playback.
unfoldable pub exit_status : Bool → ℤ → ℤ
exit_status playback (pos zero) = if playback then pos 0 else pos 1
exit_status playback (pos (suc n)) = pos (suc n)
exit_status playback (negsuc n) = negsuc n

-- A round of the monitor: the services, and the sensor's status once the core has exited.
pub record Round : Type 0 where
  pub services : List Service
  pub exit : Option ℤ

abbrev pub behind : Service → Round → Round
behind s r = record { services = s ∷ r.services; exit = r.exit }

unfoldable pub scan : Bool → ℕ → (ℕ → Seen) → List Service → Round
scan playback i seen [] = record { services = []; exit = none }
scan playback i seen (s ∷ ss) =
    let rest = scan playback (i + 1) seen ss in
    if not s.proc then behind s rest else elim (seen i).status [
      | none ↦ behind s rest
      | some rc ↦
          if s.critical
          then record { services = s ∷ ss; exit = some (exit_status playback rc) }
          else behind (handle_plugin_exit (seen i) s) rest
    ]

-- The rounds until a signal stops the sensor, or the core exits: the status and the services.
unfoldable pub monitor : Bool → List (ℕ → Seen) → List Service → ℤ × List Service
monitor playback [] ss = (pos 0, ss)
monitor playback (seen ∷ more) ss =
    let r = scan playback 0 seen ss in
    let rest = monitor playback more r.services in
    elim r.exit [ some rc ↦ (rc, r.services) | none ↦ rest ]

-- The status of the whole run.
unfoldable pub run : Bool → (ℕ → Spawned) → List (ℕ → Seen) → List Service → ℤ
run playback spawns rounds services = elim (start_all 0 spawns services) [
  | none ↦ pos 1
  | some ss ↦ (monitor playback rounds ss).0
]

-- A service at the teardown, and how long after the signal its process exits, if it does; 0 for one
-- that has exited already.
pub record Child : Type 0 where
  pub service : Service
  pub exits : Option ℕ

unfoldable pub stop_grace : Service → ℕ
stop_grace s = if s.critical then core_stop_grace else plugin_stop_grace

-- `sorted`, which is stable, with `_stop_grace` as its key.
unfoldable pub insert : Child → List Child → List Child
insert c [] = c ∷ []
insert c (d ∷ ds) =
    if leb (stop_grace c.service) (stop_grace d.service) then c ∷ d ∷ ds else d ∷ insert c ds

unfoldable pub stop_order : List Child → List Child
stop_order [] = []
stop_order (c ∷ cs) = insert c (stop_order cs)

-- The services that get SIGINT.
unfoldable pub interrupted : List Child → List Service
interrupted [] = []
interrupted (c ∷ cs) =
    let running : Bool = elim c.exits [ none ↦ true | some t ↦ ltb 0 t ] in
    if c.service.proc && running then c.service ∷ interrupted cs else interrupted cs

pub record Stopped : Type 0 where
  pub service : Service
  pub killed : Bool

-- The wait for a process, from `now` on, both since the signal: whether it is killed, and when the
-- wait is over.
unfoldable pub await : ℕ → Child → Bool × ℕ
await now c =
    let deadline = now + (stop_grace c.service - now) in
    elim c.exits [
      | none ↦ (true, deadline)
      | some t ↦ if leb t deadline then (false, if ltb now t then t else now) else (true, deadline)
    ]

unfoldable pub await_all : ℕ → List Child → List Stopped × ℕ
await_all now [] = ([], now)
await_all now (c ∷ cs) =
    let (killed, later) = await now c in
    let (others, over) = await_all later cs in
    let skipped = await_all now cs in
    if c.service.proc
    then (record { service = c.service; killed = killed } ∷ others, over)
    else skipped

-- `_teardown`: who is interrupted, how each service ends, and how long it takes.
unfoldable pub teardown : List Child → List Service × (List Stopped × ℕ)
teardown cs = (interrupted cs, await_all 0 (stop_order cs))
