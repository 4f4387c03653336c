-- ===== src/Fleet/Reconcile/Fence.antt =====
-- The pass of an app acts on replicas that are placed on this host.
use runtime_service.Base.{ℕ, zero, suc, Bool, true, false, List, [], ◌∷◌, Option, none, some}
use runtime_service.Errors.{Err, Result, ok, err}
use runtime_service.Fleet.Replica.{FleetApp, Replica}
use runtime_service.Fleet.World.{Outside, Settings, Event}
use runtime_service.Fleet.World.Keeps
use runtime_service.Fleet.World.Keeps.{
  Keeps, Logged, bind_ok, keeps_rules, Keeps-pure, Keeps-lift, Keeps-attempt, Keeps-bind,
  Keeps-bind_at, Keeps-bind_lift, Keeps-each,
}
use runtime_service.Fleet.World.Fence.{Permits, Tears, Adds}
use runtime_service.Fleet.VolumeManager.Fence.{affinity_host-Logged, mark_degraded-Logged}
use runtime_service.Fleet.Teardown.Fence.{decommission-Logged, refresh_health-Logged}
use runtime_service.Fleet.Placement.Fence.{fill-Logged}
use runtime_service.Fleet.Reconcile
use runtime_service.Fleet.Reconcile.{Snapshot}

module _ (out : Outside) (cfg : Settings) {E : Event → Type 0} (p : Permits cfg.self_host E) where
  degrade_if_gone-Logged :
      (app : ℕ) (live : Result Bool) → Keeps (Logged E) (Reconcile.degrade_if_gone out cfg app live)
  unfolding Reconcile.degrade_if_gone
  degrade_if_gone-Logged app (ok false) = search (keeps_rules, mark_degraded-Logged out cfg p)
  degrade_if_gone-Logged app (ok true) = Keeps-pure false
  degrade_if_gone-Logged app (err e) = Keeps-pure false

  check_affinity-Logged :
      (app : ℕ) (pinned : Result (Option ℕ))
      → Keeps (Logged E) (Reconcile.check_affinity out cfg app pinned)
  unfolding Reconcile.check_affinity
  check_affinity-Logged app (ok (some host)) =
      search (keeps_rules, Keeps.query-Logged, degrade_if_gone-Logged)
  check_affinity-Logged app (ok none) = Keeps-pure false
  check_affinity-Logged app (err e) = Keeps-pure false

  pub is_stranded-Logged : (app : ℕ) → Keeps (Logged E) (Reconcile.is_stranded out cfg app)
  unfolding Reconcile.is_stranded
  is_stranded-Logged app =
      search (keeps_rules, affinity_host-Logged out cfg p, check_affinity-Logged)

module _ (out : Outside) (cfg : Settings) {E : Event → Type 0} (p : Permits cfg.self_host E)
    (t : Tears cfg.self_host E) where
  drain_one-Logged :
      (failed : Option Err) (id : ℕ) → Keeps (Logged E) (Reconcile.drain_one out cfg failed id)
  unfolding Reconcile.drain_one
  drain_one-Logged failed id = search (keeps_rules, decommission-Logged out cfg p t)

  clean_one-Logged :
      (failed : Option Err) (r : Replica) → Keeps (Logged E) (Reconcile.clean_one out cfg failed r)
  unfolding Reconcile.clean_one
  clean_one-Logged failed r = search (keeps_rules, drain_one-Logged)

  pub clean_dead-Logged :
      (failed : Option Err) (rs : List Replica)
      → Keeps (Logged E) (Reconcile.clean_dead out cfg failed rs)
  unfolding Reconcile.clean_dead
  clean_dead-Logged failed [] = Keeps-pure failed
  clean_dead-Logged failed (r ∷ rs) =
      Keeps-bind (Reconcile.clean_one out cfg failed r) _ (clean_one-Logged failed r)
        λ failed'. clean_dead-Logged failed' rs

  after_refresh-Logged :
      (failed : Option Err) (r : Replica) (answer : Result Bool)
      → Keeps (Logged E) (Reconcile.after_refresh out cfg failed r answer)
  unfolding Reconcile.after_refresh
  after_refresh-Logged failed r (ok true) = Keeps-pure failed
  after_refresh-Logged failed r (ok false) = drain_one-Logged failed r.id
  after_refresh-Logged failed r (err e) = Keeps-pure failed

  refresh_one-Logged :
      (failed : Option Err) (r : Replica)
      → Keeps (Logged E) (Reconcile.refresh_one out cfg failed r)
  unfolding Reconcile.refresh_one
  refresh_one-Logged failed r =
      search (keeps_rules, refresh_health-Logged out cfg p, after_refresh-Logged) depth 8

  pub refresh_residents-Logged :
      (failed : Option Err) (rs : List Replica)
      → Keeps (Logged E) (Reconcile.refresh_residents out cfg failed rs)
  unfolding Reconcile.refresh_residents
  refresh_residents-Logged failed [] = Keeps-pure _
  refresh_residents-Logged failed (r ∷ rs) =
      Keeps-bind (Reconcile.refresh_one out cfg failed r) _ (refresh_one-Logged failed r) λ one.
        Keeps-bind (Reconcile.refresh_residents out cfg one.0 rs) _
          (refresh_residents-Logged one.0 rs) λ rest. Keeps-pure _

  pub drain_surplus-Logged :
      (failed : Option Err) (n : ℕ) (rs : List Replica)
      → Keeps (Logged E) (Reconcile.drain_surplus out cfg failed n rs)
  unfolding Reconcile.drain_surplus
  drain_surplus-Logged failed zero rs = Keeps-pure failed
  drain_surplus-Logged failed (suc n) [] = Keeps-pure failed
  drain_surplus-Logged failed (suc n) (r ∷ rs) =
      Keeps-bind (Reconcile.drain_one out cfg failed r.id) _ (drain_one-Logged failed r.id)
        λ failed'. drain_surplus-Logged failed' n rs

module _ (out : Outside) (cfg : Settings) {E : Event → Type 0} (p : Permits cfg.self_host E)
    (t : Tears cfg.self_host E) (a : Adds E) where
  balance-Logged :
      (app : FleetApp) (snapshot : Snapshot)
      → Keeps (Logged E) (Reconcile.balance out cfg app snapshot)
  unfolding Reconcile.balance Reconcile.drain
  balance-Logged app (failed, rs) =
      search (keeps_rules, fill-Logged out cfg p a, drain_surplus-Logged out cfg p t) depth 8

  reconcile_replicas-Logged :
      (app : FleetApp) (rs : List Replica)
      → Keeps (Logged E) (Reconcile.reconcile_replicas out cfg app rs)
  unfolding Reconcile.reconcile_replicas
  reconcile_replicas-Logged app rs = search (
    keeps_rules,
    clean_dead-Logged out cfg p t,
    refresh_residents-Logged out cfg p t,
    balance-Logged,
  )

  unless_stranded-Logged :
      (app : FleetApp) (rs : List Replica) (stranded : Bool)
      → Keeps (Logged E) (Reconcile.unless_stranded out cfg app rs stranded)
  unfolding Reconcile.unless_stranded
  unless_stranded-Logged app rs true = Keeps-pure tt
  unless_stranded-Logged app rs false = reconcile_replicas-Logged app rs

  reconcile_found-Logged :
      (found : Result FleetApp) → Keeps (Logged E) (Reconcile.reconcile_found out cfg found)
  unfolding Reconcile.reconcile_found
  reconcile_found-Logged (err e) = search keeps_rules
  reconcile_found-Logged (ok app) = search (
    keeps_rules,
    Keeps.list_replicas-Logged,
    is_stranded-Logged out cfg p,
    unless_stranded-Logged,
  )

  pub reconcile_app-Logged : (id : ℕ) → Keeps (Logged E) (Reconcile.reconcile_app out cfg id)
  unfolding Reconcile.reconcile_app
  reconcile_app-Logged id = search (keeps_rules, Keeps.find_app-Logged, reconcile_found-Logged)
