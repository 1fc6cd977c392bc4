-- ===== src/Supervisor/Status.antt =====
-- The exit status of core-driver/supervisor.py: a dead core is never reported as success.
use camera_service.Common.{
  ℕ, zero, suc, ◌+◌, ◌≡◌, refl, sym, ◌∙◌, ap, Bool, true, false, Option, none, some, List, [], ◌∷◌,
  All, arith, Option-cases, inl, inr,
}
use camera_service.Common.Int.{ℤ, pos, negsuc}
use camera_service.Session.{is_none}
use camera_service.Supervisor.{
  Service, service, spawn, Spawned, up, failed, stopped, started, Seen, Plugin, plugin_services,
  build_services, start_all, exit_status, scan, monitor, run,
}
use camera_service.Supervisor.Restarts.{
  IsPlugin, visit_all, visit_all-IsPlugin, scan-visit_all, scan-visit_core, monitor_goes_on,
}

-- The first status of the core that the monitor sees.
unfoldable pub core_exit : List (ℕ → Seen) → Option ℤ
core_exit [] = none
core_exit (seen ∷ more) =
    let rest = core_exit more in elim (seen 0).status [ some rc ↦ some rc | none ↦ rest ]

-- What a run that spawned its core reports: the core's own status, save that the end of a live core is
-- never 0.
abbrev pub reported : Bool → Option ℤ → ℤ
reported playback none = pos 0
reported true (some rc) = rc
reported false (some (pos zero)) = pos 1
reported false (some (pos (suc n))) = pos (suc n)
reported false (some (negsuc n)) = negsuc n

exit_status-reported :
    (playback : Bool) (rc : ℤ) → exit_status playback rc ≡ reported playback (some rc)
unfolding exit_status
exit_status-reported true (pos zero) = refl
exit_status-reported true (pos (suc n)) = refl
exit_status-reported true (negsuc n) = refl
exit_status-reported false (pos zero) = refl
exit_status-reported false (pos (suc n)) = refl
exit_status-reported false (negsuc n) = refl

plugin_services-IsPlugin : (ps : List Plugin) → All IsPlugin (plugin_services ps)
unfolding plugin_services service
plugin_services-IsPlugin [] = tt
plugin_services-IsPlugin (p ∷ ps) = ground (arith, plugin_services-IsPlugin ps)

-- The plugins of a spawn loop are never what makes it fail.
abbrev PluginsOf : Option (List Service) → Type 0
PluginsOf none = ⊥
PluginsOf (some ts) = All IsPlugin ts

started-PluginsOf :
    (x : Spawned) (s : Service) (ss : List Service) (rest : Option (List Service))
    → All IsPlugin (s ∷ ss)
    → PluginsOf rest
    → PluginsOf (started x s ss rest)
unfolding started spawn
started-PluginsOf stopped s ss rest p q = p
started-PluginsOf (up now) s ss none p q = q
started-PluginsOf (up now) s ss (some ts) p q = (p.0, q)
started-PluginsOf (failed now) s ss none p q = q
started-PluginsOf (failed now) s ss (some ts) p q = ground (arith, p, q)

start_all-PluginsOf :
    (i : ℕ) (seen : ℕ → Spawned) (ss : List Service)
    → All IsPlugin ss
    → PluginsOf (start_all i seen ss)
unfolding start_all
start_all-PluginsOf i seen [] p = tt
start_all-PluginsOf i seen (s ∷ ss) p =
    started-PluginsOf (seen i) s ss (start_all (i + 1) seen ss) p
      (start_all-PluginsOf (i + 1) seen ss p.1)

scan_core_exit :
    (playback : Bool) (seen : ℕ → Seen) (core : Service) (ss : List Service) (rc : ℤ)
    → core.proc ≡ true
    → core.critical ≡ true
    → (seen 0).status ≡ some rc
    → (scan playback 0 seen (core ∷ ss)).exit ≡ some (exit_status playback rc)
unfolding scan
scan_core_exit playback seen core ss rc a c e = ground (arith, a, c, e)

monitor_stops :
    (playback : Bool) (seen : ℕ → Seen) (more : List (ℕ → Seen)) (ss : List Service) (rc : ℤ)
    → (scan playback 0 seen ss).exit ≡ some rc
    → (monitor playback (seen ∷ more) ss).0 ≡ rc
unfolding monitor
monitor_stops playback seen more ss rc h = rw (h, monitor) refl

monitor_nil : (playback : Bool) (ss : List Service) → (monitor playback [] ss).0 ≡ pos 0
unfolding monitor
monitor_nil playback ss = refl

monitor_status :
    (playback : Bool) (rounds : List (ℕ → Seen)) (core : Service) (ss : List Service)
    → core.proc ≡ true
    → core.critical ≡ true
    → All IsPlugin ss
    → (monitor playback rounds (core ∷ ss)).0 ≡ reported playback (core_exit rounds)
unfolding core_exit
monitor_status playback [] core ss a c p = monitor_nil playback (core ∷ ss)
monitor_status playback (seen ∷ more) core ss a c p = elim (Option-cases (seen 0).status) [
  | inl e ↦
      let next = scan-visit_core playback seen core ss (ap is_none e) p in
      ap (λ x. x.0) (monitor_goes_on playback seen more (core ∷ ss) (ap (λ r. r.exit) next))
      ∙ ap (λ r. (monitor playback more r.services).0) next
      ∙ monitor_status playback more core (visit_all 1 seen ss) a c (visit_all-IsPlugin 1 seen ss p)
      ∙ rw (e, core_exit) refl
  | inr (rc, e) ↦
      monitor_stops playback seen more (core ∷ ss) (exit_status playback rc)
        (scan_core_exit playback seen core ss rc a c e)
      ∙ exit_status-reported playback rc
      ∙ rw (e, core_exit) refl
]

-- A core that was not spawned, since a signal came first.
scan_no_core :
    (playback : Bool) (seen : ℕ → Seen) (core : Service) (ss : List Service)
    → core.proc ≡ false
    → All IsPlugin ss
    → scan playback 0 seen (core ∷ ss)
      ≡ record { services = core ∷ visit_all 1 seen ss; exit = none }
unfolding scan
scan_no_core playback seen core ss c p = ground (arith, c, scan-visit_all playback 1 seen ss p)

monitor_no_core :
    (playback : Bool) (rounds : List (ℕ → Seen)) (core : Service) (ss : List Service)
    → core.proc ≡ false
    → All IsPlugin ss
    → (monitor playback rounds (core ∷ ss)).0 ≡ pos 0
unfolding monitor
monitor_no_core playback [] core ss c p = refl
monitor_no_core playback (seen ∷ more) core ss c p =
    let next = scan_no_core playback seen core ss c p in
    ap (λ x. x.0) (monitor_goes_on playback seen more (core ∷ ss) (ap (λ r. r.exit) next))
    ∙ ap (λ r. (monitor playback more r.services).0) next
    ∙ monitor_no_core playback more core (visit_all 1 seen ss) c (visit_all-IsPlugin 1 seen ss p)

-- What a run reports, from how the spawn of its core goes and the first exit of the core that the
-- monitor sees.
abbrev pub run_status : Bool → Spawned → Option ℤ → ℤ
run_status playback (up now) exit = reported playback exit
run_status playback (failed now) exit = pos 1
run_status playback stopped exit = pos 0

run_from :
    (playback : Bool) (x : Spawned) (rounds : List (ℕ → Seen)) (core : Service) (ss : List Service)
    (rest : Option (List Service))
    → core.proc ≡ false
    → core.critical ≡ true
    → All IsPlugin ss
    → PluginsOf rest
    → (elim (started x core ss rest) as (λ y. ℤ) [
      | none ↦ pos 1
      | some ts ↦ (monitor playback rounds ts).0
    ])
      ≡ run_status playback x (core_exit rounds)
unfolding started spawn
run_from playback (up now) rounds core ss none c k p q = absurd q
run_from playback (up now) rounds core ss (some ts) c k p q =
    monitor_status playback rounds (record core { proc = true; started_at = now }) ts refl k q
run_from playback (failed now) rounds core ss none c k p q = refl
run_from playback (failed now) rounds core ss (some ts) c k p q = rw k refl
run_from playback stopped rounds core ss rest c k p q = monitor_no_core playback rounds core ss c p

-- How a run can be a success: a signal before the core was spawned, a core that ran until the signal, or a playback
-- whose core ended with 0.
pub data Success (playback : Bool) (x : Spawned) (exit : Option ℤ) : Type 0 where
  not_begun : x ≡ stopped → Success playback x exit
  ran : exit ≡ none → Success playback x exit
  played : playback ≡ true → exit ≡ some (pos 0) → Success playback x exit

run_status-Success :
    (playback : Bool) (x : Spawned) (exit : Option ℤ)
    → run_status playback x exit ≡ pos 0
    → Success playback x exit
run_status-Success playback stopped exit e = not_begun refl
run_status-Success playback (failed now) exit e = absurd (cc)
run_status-Success playback (up now) none e = ran refl
run_status-Success true (up now) (some rc) e = played refl (ap some e)
run_status-Success false (up now) (some (pos zero)) e = absurd (cc)
run_status-Success false (up now) (some (pos (suc n))) e = absurd (cc)
run_status-Success false (up now) (some (negsuc n)) e = absurd (cc)

run_status_lem :
    (playback : Bool) (spawns : ℕ → Spawned) (rounds : List (ℕ → Seen)) (core : List ℕ)
    (plugins : List Plugin)
    → run playback spawns rounds (build_services core plugins)
      ≡ run_status playback (spawns 0) (core_exit rounds)
unfolding run build_services start_all service
run_status_lem playback spawns rounds core plugins =
    run_from playback (spawns 0) rounds (service core true false) (plugin_services plugins)
      (start_all 1 spawns (plugin_services plugins)) refl refl (plugin_services-IsPlugin plugins)
      (start_all-PluginsOf 1 spawns (plugin_services plugins) (plugin_services-IsPlugin plugins))

-- Whatever plugins are configured, however their spawns go and however they exit: the status of a run
-- depends only on its core. It is 1 if the core cannot be spawned, 0 if a signal came before, and
-- then that of the first exit of the core that is seen, where 0 becomes 1 unless a playback ended;
-- it is 0 if the core runs until a signal. So a dead core is a success only as the end of a playback.
pub run_lem :
    (playback : Bool) (spawns : ℕ → Spawned) (rounds : List (ℕ → Seen)) (core : List ℕ)
    (plugins : List Plugin)
    → let status = run playback spawns rounds (build_services core plugins) in
      (status ≡ run_status playback (spawns 0) (core_exit rounds))
      × (status ≡ pos 0 → Success playback (spawns 0) (core_exit rounds))
run_lem playback spawns rounds core plugins =
    let same = run_status_lem playback spawns rounds core plugins in
    (same, λ e. run_status-Success playback (spawns 0) (core_exit rounds) (sym same ∙ e))
