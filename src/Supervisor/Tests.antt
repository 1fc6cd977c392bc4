-- ===== src/Supervisor/Tests.antt =====
-- A sensor with a core and two plugins: a run, restarts and a teardown.
use camera_service.Common.{
  ℕ, zero, suc, ◌+◌, ◌*◌, ◌≤◌, ◌≡◌, refl, true, false, none, some, List, [], ◌∷◌,
}
use camera_service.Common.Int.{pos}
use camera_service.Common.Text.{codes}
use camera_service.Supervisor.{
  Service, spawn, up, stopped, Seen, settle, retry, respawn, handle_plugin_exit, Plugin,
  build_services, scan, monitor, run, restart_max, Child, stop_grace, teardown, core_stop_grace,
}
use camera_service.Supervisor.Restarts.{exits, long_runs, looks_at, plugin_exits_bounded}
use camera_service.Supervisor.Status.{core_exit, run_lem, Success}
use camera_service.Supervisor.Stop.{ends, teardown_lem}

abbrev plugins : List Plugin
plugins =
    record {
      name = codes "bridge";
      enabled = true;
      process = true;
      restart = true;
      resolved = true;
    }
    ∷ record {
      name = codes "ros";
      enabled = true;
      process = false;
      restart = true;
      resolved = true;
    }
    ∷ []

-- A round in which nothing exits.
abbrev first_round : ℕ → Seen
first_round i = record { status = none; now = 100; stopping = false; again = up 100 }

-- Then the core of a live sensor exits with 0.
abbrev clean_exit : ℕ → Seen
clean_exit i = record { status = some (pos 0); now = 200; stopping = false; again = up 200 }

run_lem_example :
    let status =
      run false
        (λ i. up 0)
        (first_round ∷ clean_exit ∷ [])
        (build_services (codes "core") plugins) in
    (status ≡ pos 1) × (status ≡ pos 0 → Success false (up 0) (some (pos 0)))
unfolding core_exit
run_lem_example = run_lem false (λ i. up 0) (first_round ∷ clean_exit ∷ []) (codes "core") plugins

-- A core and a plugin that run.
abbrev core_service : Service
core_service = record {
  name = codes "core";
  critical = true;
  restart = false;
  proc = true;
  restarts = 0;
  started_at = 0;
}

abbrev bridge : Service
bridge = record {
  name = codes "bridge";
  critical = false;
  restart = true;
  proc = true;
  restarts = 0;
  started_at = 2000;
}

-- The plugin is found dead at 3 s and started again at 5 s.
abbrev crash : ℕ → Seen
crash zero = record { status = none; now = 3000; stopping = false; again = stopped }
crash (suc i) = record { status = some (pos 1); now = 3000; stopping = false; again = up 5000 }

abbrev bridge_again : Service
bridge_again = record {
  name = codes "bridge";
  critical = false;
  restart = true;
  proc = true;
  restarts = 1;
  started_at = 5000;
}

plugin_exits_bounded_example :
    exits (looks_at 1 (crash ∷ [])) bridge
    ≤ restart_max + restart_max * long_runs (looks_at 1 (crash ∷ [])) bridge
unfolding monitor scan handle_plugin_exit settle retry respawn spawn
plugin_exits_bounded_example =
    plugin_exits_bounded true (crash ∷ []) core_service (bridge ∷ []) 0 bridge bridge_again
      (refl, tt) (refl, tt) refl refl refl refl

-- The plugin hangs; the core takes 15 s to finish its recording, and is not killed.
abbrev slow_core : Child
slow_core = record { service = core_service; exits = some 15000 }

abbrev hung_plugin : Child
hung_plugin = record { service = bridge; exits = none }

teardown_lem_example :
    ((teardown (slow_core ∷ hung_plugin ∷ [])).1.0
      ≡ record { service = bridge; killed = true }
        ∷ record { service = core_service; killed = false }
        ∷ [])
    × ((teardown (slow_core ∷ hung_plugin ∷ [])).1.1 ≤ core_stop_grace)
unfolding ends stop_grace
teardown_lem_example = teardown_lem slow_core (hung_plugin ∷ []) refl (refl, tt)
