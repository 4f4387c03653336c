-- ===== src/Fleet/Orchestrator/Fence.antt =====
-- The pass of a host, the scaling and the end of an app act on what is placed on this host.
use runtime_service.Base.{ℕ, ℤ, All-trivial}
use runtime_service.Errors.{Result, ok, err}
use runtime_service.Fleet.Replica.{FleetApp, Replica}
use runtime_service.Fleet.World.{
  Outside, World, Settings, Event, each, Claim, list_apps, list_by_host,
}
use runtime_service.Fleet.World.Keeps
use runtime_service.Fleet.World.Keeps.{
  Keeps, Logged, bind_ok, keeps_rules, Keeps-pure, Keeps-lift, Keeps-attempt, Keeps-bind,
  Keeps-bind_at, Keeps-bind_lift, Keeps-each,
}
use runtime_service.Fleet.World.Fence.{
  Fenced, Permits, Tears, Adds, IsFenced-Permits, Only, Only-Permits,
}
use runtime_service.Fleet.VolumeManager.Fence.{delete_app_volumes-Logged, has_volumes-Logged}
use runtime_service.Fleet.Boot.Cleared.{IsCleared}
use runtime_service.Fleet.Boot.Fence.{Boots, boot_replica-Logged}
use runtime_service.Fleet.Reconcile.Fence.{reconcile_app-Logged}
use runtime_service.Fleet.Orchestrator

module _ (out : Outside) (cfg : Settings) {E : Event → Type 0} (p : Permits cfg.self_host E)
    (t : Tears cfg.self_host E) (b : Boots out cfg E) (a : Adds E) where
  actuate_one-Logged : (r : Replica) → Keeps (Logged E) (Orchestrator.actuate_one out cfg r)
  unfolding Orchestrator.actuate_one
  actuate_one-Logged r = search (keeps_rules, boot_replica-Logged out cfg p t b)

  pub actuate_scheduled-Logged : Keeps (Logged E) (Orchestrator.actuate_scheduled_owned out cfg)
  unfolding Orchestrator.actuate_scheduled_owned
  actuate_scheduled-Logged =
      Keeps-bind (list_by_host out cfg.self_host) _ (Keeps.list_by_host-Logged out cfg.self_host)
        λ rows.
          Keeps-each (λ r. Unit) (Orchestrator.actuate_one out cfg) rows
            (λ r h. actuate_one-Logged r) (All-trivial rows)

  reconcile_one-Logged :
      (app : FleetApp) → Keeps (Logged E) (Orchestrator.reconcile_one out cfg app)
  unfolding Orchestrator.reconcile_one
  reconcile_one-Logged app = search (keeps_rules, reconcile_app-Logged out cfg p t a)

  pub reconcile_all-Keeps : Keeps (Logged E) (Orchestrator.reconcile_all out cfg)
  unfolding Orchestrator.reconcile_all
  reconcile_all-Keeps = Keeps-bind (list_apps out) _ (Keeps.list_apps-Logged out) λ apps.
      Keeps-bind (each (Orchestrator.reconcile_one out cfg) apps) _
        (Keeps-each (λ a. Unit) (Orchestrator.reconcile_one out cfg) apps
          (λ a h. reconcile_one-Logged a) (All-trivial apps))
        λ done. actuate_scheduled-Logged

  refuse_scale-Logged :
      (app : ℕ) (n : ℤ) → Keeps (Logged E) (Orchestrator.refuse_scale out cfg app n)
  unfolding Orchestrator.refuse_scale
  refuse_scale-Logged app n = search (keeps_rules, has_volumes-Logged out cfg p) depth 8

  scale_known-Logged :
      (app : FleetApp) (n : ℤ) → Keeps (Logged E) (Orchestrator.scale_known out cfg app n)
  unfolding Orchestrator.scale_known
  scale_known-Logged app n =
      search
        (
          keeps_rules,
          Keeps.ask-Logged,
          refuse_scale-Logged,
          Keeps.update_app-Logged,
          p.save,
          reconcile_app-Logged out cfg p t a,
        )
        depth 8

  scale_found-Logged :
      (n : ℤ) (found : Result FleetApp)
      → Keeps (Logged E) (Orchestrator.scale_found out cfg n found)
  unfolding Orchestrator.scale_found
  scale_found-Logged n (err e) = search keeps_rules
  scale_found-Logged n (ok app) = search (keeps_rules, scale_known-Logged)

  pub scale_app-Keeps : (id : ℕ) (n : ℤ) → Keeps (Logged E) (Orchestrator.scale_app out cfg id n)
  unfolding Orchestrator.scale_app
  scale_app-Keeps id n = search (keeps_rules, Keeps.find_app-Logged, scale_found-Logged)

  judge_claim-Logged :
      (read : Result Claim) → Keeps (Logged E) (Orchestrator.judge_claim out cfg read)
  unfolding Orchestrator.judge_claim
  judge_claim-Logged (ok claim) = Keeps-lift _
  judge_claim-Logged (err e) = search keeps_rules

  refuse_backed-Logged :
      (app : ℕ) → Keeps (Logged E) (Orchestrator.refuse_if_resource_backed out cfg app)
  unfolding Orchestrator.refuse_if_resource_backed
  refuse_backed-Logged app = search (keeps_rules, Keeps.query-Logged, judge_claim-Logged)

  delete_volumes-Logged : (app : ℕ) → Keeps (Logged E) (Orchestrator.delete_volumes out cfg app)
  unfolding Orchestrator.delete_volumes
  delete_volumes-Logged app = search (keeps_rules, delete_app_volumes-Logged out cfg p)

  delete_routes-Logged : (app : ℕ) → Keeps (Logged E) (Orchestrator.delete_routes out cfg app)
  unfolding Orchestrator.delete_routes
  delete_routes-Logged app = search (keeps_rules, Keeps.note-Logged, p.unroute, Keeps.query-Logged)

  finalize-Logged : (app : ℕ) → Keeps (Logged E) (Orchestrator.finalize out cfg app)
  unfolding Orchestrator.finalize
  finalize-Logged app =
      search (
        keeps_rules, delete_volumes-Logged, delete_routes-Logged, Keeps.delete_app-Logged, p.remove,
      )

  end_app-Logged : (app : FleetApp) → Keeps (Logged E) (Orchestrator.end_app out cfg app)
  unfolding Orchestrator.end_app
  end_app-Logged app =
      search
        (
          keeps_rules,
          refuse_backed-Logged,
          Keeps.ask-Logged,
          Keeps.update_app-Logged,
          p.save,
          reconcile_app-Logged out cfg p t a,
          Keeps.list_replicas-Logged,
          finalize-Logged,
        )
        depth 12 fits 3000

  decommission_app_found-Logged :
      (found : Result FleetApp)
      → Keeps (Logged E) (Orchestrator.decommission_app_found out cfg found)
  unfolding Orchestrator.decommission_app_found
  decommission_app_found-Logged (err e) = search keeps_rules
  decommission_app_found-Logged (ok app) = search (keeps_rules, end_app-Logged)

  pub decommission_app-Keeps :
      (id : ℕ) → Keeps (Logged E) (Orchestrator.decommission_app out cfg id)
  unfolding Orchestrator.decommission_app
  decommission_app-Keeps id =
      search (keeps_rules, Keeps.find_app-Logged, decommission_app_found-Logged)

-- Whatever other processes do to the tables and whichever calls fail, what a pass of a host over all
-- apps did stays within what the host may do: it writes, deletes, boots, tears down and probes only
-- replicas that are placed on it, attaches, detaches and deletes only volumes that are pinned to it,
-- and adds only replicas that are scheduled and have no process.
pub reconcile_all-IsFenced :
    (out : Outside) (cfg : Settings) (w : World)
    → Fenced cfg w
    → Fenced cfg (Orchestrator.reconcile_all out cfg w).1
reconcile_all-IsFenced out cfg w h =
    (reconcile_all-Keeps out cfg (IsFenced-Permits cfg.self_host) (λ r proved h. h)
        (λ app r vol input h c. h) (λ r h k. (h, k))).at
      w h

-- The same holds of what DecommissionApp did: it also deletes files of volumes that are pinned to
-- the host, and of no others.
pub decommission_app-IsFenced :
    (out : Outside) (cfg : Settings) (id : ℕ) (w : World)
    → Fenced cfg w
    → Fenced cfg (Orchestrator.decommission_app out cfg id w).1
decommission_app-IsFenced out cfg id w h =
    (decommission_app-Keeps out cfg (IsFenced-Permits cfg.self_host) (λ r proved h. h)
        (λ app r vol input h c. h) (λ r h k. (h, k)) id).at
      w h

-- What is known of every boot that the driver was asked for.
abbrev pub IsClearedBoot : Outside → Settings → Event → Type 0
IsClearedBoot out cfg =
    Only (λ app r vol input. IsCleared out cfg app vol input) (λ r proved. Unit) (λ r. Unit)

IsClearedBoot-Permits :
    (out : Outside) (cfg : Settings) → Permits cfg.self_host (IsClearedBoot out cfg)
IsClearedBoot-Permits out cfg = Only-Permits cfg.self_host _ _ _

-- Whatever other processes do to the tables and whichever calls fail, a pass of a host over all apps asks
-- the driver only for boots of which the secrets, if the app has any refs, are one for each ref in order,
-- under the field name of the ref and with a value that the resolver answered for that ref, the app's owner
-- and the app's token, and which attach no volume that was read as being restored.
pub reconcile_all-IsClearedBoot :
    (out : Outside) (cfg : Settings) (w : World)
    → Logged (IsClearedBoot out cfg) w
    → Logged (IsClearedBoot out cfg) (Orchestrator.reconcile_all out cfg w).1
reconcile_all-IsClearedBoot out cfg w h =
    (reconcile_all-Keeps out cfg (IsClearedBoot-Permits out cfg) (λ r proved k. tt)
        (λ app r vol input k c. c) (λ r k l. tt)).at
      w h
