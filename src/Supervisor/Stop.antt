-- ===== src/Supervisor/Stop.antt =====
-- The teardown of core-driver/supervisor.py: who is killed, in which order, and how long it takes.
use camera_service.Common.{
  ℕ, ◌≤◌, ◌≡◌, refl, ◌∙◌, ap, Bool, true, false, not, none, some, List, [], ◌∷◌, ◌++◌, All, leb,
  arith, if◌then◌else◌,
}
use camera_service.Supervisor.{
  Service, Child, Stopped, stop_grace, core_stop_grace, plugin_stop_grace, insert, stop_order,
  await, await_all, teardown,
}

-- A process is late if it has not exited within its own service's grace after the signal.
abbrev pub is_late : Child → Bool
is_late c = elim c.exits as (λ x. Bool) [
  | none ↦ true
  | some t ↦ not (leb t (stop_grace c.service))
]

unfoldable pub ends : List Child → List Stopped
ends [] = []
ends (c ∷ cs) =
    if c.service.proc then record { service = c.service; killed = is_late c } ∷ ends cs else ends cs

-- Ascending graces, from one that is not above `now`.
Ordered : ℕ → List Child → Type 0
Ordered g [] = Unit
Ordered g (c ∷ cs) = (g ≤ stop_grace c.service) × Ordered (stop_grace c.service) cs

await_in_time :
    (now : ℕ) (c : Child)
    → now ≤ stop_grace c.service
    → ((await now c).0 ≡ is_late c)
      × (now ≤ (await now c).1)
      × ((await now c).1 ≤ stop_grace c.service)
unfolding await
await_in_time now c h = ground (arith, h)

insert_head :
    (g : ℕ) (c : Child) (ds : List Child)
    → g ≤ stop_grace c.service
    → Ordered g ds
    → Ordered g (insert c ds)
unfolding insert Ordered
insert_head g c [] h o = (h, tt)
insert_head g c (d ∷ ds) h (a, o) = ground (arith, h, a, o, insert_head (stop_grace d.service) c ds)

stop_order-Ordered : (cs : List Child) → Ordered 0 (stop_order cs)
unfolding stop_order Ordered
stop_order-Ordered [] = tt
stop_order-Ordered (c ∷ cs) = insert_head 0 c (stop_order cs) (omega arith) (stop_order-Ordered cs)

relax : (g h : ℕ) (cs : List Child) → g ≤ h → Ordered h cs → Ordered g cs
unfolding Ordered
relax g h [] l o = tt
relax g h (c ∷ cs) l (a, o) = (omega (arith, l, a), o)

grace_max : (s : Service) → stop_grace s ≤ core_stop_grace
unfolding stop_grace
grace_max s = ground arith

await_all-ends :
    (now : ℕ) (cs : List Child)
    → now ≤ core_stop_grace
    → Ordered now cs
    → ((await_all now cs).0 ≡ ends cs) × ((await_all now cs).1 ≤ core_stop_grace)
unfolding await_all ends Ordered
await_all-ends now [] h o = (refl, h)
await_all-ends now (c ∷ cs) h (a, o) =
    let g = stop_grace c.service in
    let later = (await now c).1 in
    let (k, l, m) = await_in_time now c a in
    let n = grace_max c.service in
    let taken = await_all-ends later cs (omega (arith, m, n)) (relax later g cs m o) in
    let skipped = await_all-ends now cs h (relax now g cs a o) in ground (arith, k, taken, skipped)

-- Plugins are waited for first, in the order of the services, and the core last.
abbrev pub PluginChild : Child → Type 0
PluginChild c = c.service.critical ≡ false

plugin_grace : (c : Child) → PluginChild c → stop_grace c.service ≡ plugin_stop_grace
unfolding stop_grace
plugin_grace c p = ground (arith, p)

core_grace : (c : Child) → c.service.critical ≡ true → stop_grace c.service ≡ core_stop_grace
unfolding stop_grace
core_grace c p = ground (arith, p)

stop_order_plugins : (cs : List Child) → All PluginChild cs → stop_order cs ≡ cs
unfolding stop_order insert
stop_order_plugins [] p = refl
stop_order_plugins (c ∷ []) p = refl
stop_order_plugins (c ∷ d ∷ cs) (p, ps) =
    ground (arith, stop_order_plugins (d ∷ cs) ps, plugin_grace c p, plugin_grace d ps.0)

insert_core :
    (core : Child) (cs : List Child)
    → core.service.critical ≡ true
    → All PluginChild cs
    → insert core cs ≡ cs ++ core ∷ []
unfolding insert
insert_core core [] k p = refl
insert_core core (c ∷ cs) k (p, ps) =
    ground (arith, core_grace core k, plugin_grace c p, insert_core core cs k ps)

-- The core and its plugins are torn down: the plugins are waited for first, in their order, and the
-- core last; a service is killed exactly when its process has not exited within its own grace after
-- the signal, however slow the others are; and all is over within the grace of the core, 20 s.
pub teardown_lem :
    (core : Child) (plugins : List Child)
    → core.service.critical ≡ true
    → All PluginChild plugins
    → ((teardown (core ∷ plugins)).1.0 ≡ ends (plugins ++ core ∷ []))
      × ((teardown (core ∷ plugins)).1.1 ≤ core_stop_grace)
unfolding teardown stop_order
teardown_lem core plugins k p =
    let order : stop_order (core ∷ plugins) ≡ plugins ++ core ∷ [] =
      ap (insert core) (stop_order_plugins plugins p) ∙ insert_core core plugins k p in
    let (e, t) =
      await_all-ends 0 (stop_order (core ∷ plugins)) (omega arith)
        (stop_order-Ordered (core ∷ plugins)) in
    (e ∙ ap ends order, t)
