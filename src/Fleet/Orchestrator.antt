-- ===== src/Fleet/Orchestrator.antt =====
-- internal/usecase/fleet_orchestrator.go: the pass of the host over all apps, the scaling and the end of an
-- app. The syncs of the ingress, the revocation of tokens, the counters and the log lines are left out, and
-- so is the Boolean beside an error.
pub mod Fence
pub mod Claims
use runtime_service.Base.{
  ℕ, zero, suc, ◌-◌, ◌+◌, Bool, true, false, not, ◌&&◌, ◌||◌, ◌==◌, if◌then◌else◌, ℤ, pos, neg_part,
  pos_part, ltb, ltb_ℤ, List, [], ◌∷◌, ◌++◌, length, select, Option, none, some, Text, codes,
  is_some,
}
use runtime_service.Errors.{
  Err, fleet, fence, boot, replica_not_found, volume_restore_in_progress, replica_host_mismatch,
  secret_resolver_unavailable, secret_owner_org_missing, fleet_app_not_found, no_schedulable_host,
  volume_host_mismatch, volume_app_not_scalable, app_backs_durable_resource,
  volume_owned_by_live_resource, resource_not_found, vm_termination_unproven, Result, ok, err,
}
use runtime_service.Fleet.Replica.{
  FleetApp, Replica, ReplicaState, scheduled, booting, resident, dead, bin_pack,
}
use runtime_service.Fleet.Volume.{
  Volume, VolumeStatus, restoring, degraded, points_to, require_owned, affinity_of, attached_to,
  detached, marked_degraded,
}
use runtime_service.Fleet.World.{
  Outside, World, Settings, HostSecret, MaterializeInput, BootInput, BootResult, Event, Claim,
  BackingFile, mountable, unmountable, absent, store_absent, unreadable, file_deleted,
  routes_deleted, booted, torn_down, probed, reclaimed, M, ◌>>=◌, ◌>>◌, lift, pure, attempt, note,
  ask, query, each, find_app, list_apps, update_app, delete_app, list_replicas, list_by_host,
  create_replica, find_replica, update_replica, delete_replica, list_volumes, update_volume,
  delete_volume,
}
use runtime_service.Fleet.VolumeManager.{is_resource_not_found, has_volumes, delete_app_volumes}
use runtime_service.Fleet.Boot.{boot_replica}
use runtime_service.Fleet.Reconcile.{is_app_not_found, owns_replica, reconcile_app}

abbrev pub is_scheduled : ReplicaState → Bool
is_scheduled scheduled = true
is_scheduled _ = false

module _ (out : Outside) (cfg : Settings) where
  -- The boot of what is placed here, one row after the other; an error is only logged.
  unfoldable pub actuate_one : Replica → M (Unit {0})
  actuate_one r =
      if is_scheduled r.state then (do attempt (boot_replica out cfg r.id); pure tt) else pure tt

  unfoldable pub actuate_scheduled_owned : M (Unit {0})
  actuate_scheduled_owned = do rows ← list_by_host out cfg.self_host; each actuate_one rows

  pub reconcile_one : FleetApp → M (Unit {0})
  reconcile_one app = do attempt (reconcile_app out cfg app.id); pure tt

  pub reconcile_all : M (Unit {0})
  reconcile_all = do apps ← list_apps out; each reconcile_one apps; actuate_scheduled_owned

  -- A scale beyond one is refused for an app with volumes.
  unfoldable pub refuse_scale : ℕ → ℤ → M (Unit {0})
  refuse_scale app replicas =
      if ltb_ℤ (pos 1) replicas && cfg.has_volumes
      then (do
        any ← has_volumes out cfg app
        if any then lift (err (fleet volume_app_not_scalable)) else pure tt)
      else pure tt

  unfoldable pub scale_known : FleetApp → ℤ → M (Unit {0})
  scale_known app replicas = do
    refuse_scale app.id replicas
    now ← ask out.now
    update_app out (record app { desired_replicas = replicas; updated_at = now })
    reconcile_app out cfg app.id

  -- Whether the app is known.
  unfoldable pub scale_found : ℤ → Result FleetApp → M Bool
  scale_found replicas (err e) = if is_app_not_found e then pure false else lift (err e)
  scale_found replicas (ok app) = do scale_known app (pos (pos_part replicas)); pure true

  unfoldable pub scale_app : ℕ → ℤ → M Bool
  scale_app id replicas = do found ← attempt (find_app out id); scale_found replicas found

  -- The claim of a durable resource on the app: refused on every doubt.
  pub judge_claim : Result Claim → M (Unit {0})
  judge_claim (ok claim) = lift (err (fleet app_backs_durable_resource))
  judge_claim (err e) = if is_resource_not_found e then pure tt else lift (err e)

  pub refuse_if_resource_backed : ℕ → M (Unit {0})
  refuse_if_resource_backed app =
      if cfg.has_resources
      then (do claim ← attempt (query (λ n. out.live_claim n app)); judge_claim claim)
      else lift (err (fleet app_backs_durable_resource))

  -- What the rows that survived the drain say: one placed here is our own failed teardown.
  abbrev pub cause_of : Result (Unit {0}) → Err
  cause_of (ok _) = fence vm_termination_unproven
  cause_of (err e) = e

  pub surviving_owned : List Replica → Result (Unit {0}) → Result (Unit {0})
  surviving_owned [] drained = drained
  surviving_owned (r ∷ rs) drained =
      let later = surviving_owned rs drained in
      if owns_replica out cfg r then err (cause_of drained) else later

  abbrev pub none_left : List Replica → Result (Unit {0})
  none_left [] = ok tt
  none_left (r ∷ rs) = err (fence replica_host_mismatch)

  pub delete_volumes : ℕ → M (Unit {0})
  delete_volumes app = if cfg.has_volumes then delete_app_volumes out cfg app else pure tt

  pub delete_routes : ℕ → M (Unit {0})
  delete_routes app =
      if cfg.has_routes
      then (do note (routes_deleted app); query (λ n. out.delete_routes n app))
      else pure tt

  pub finalize : ℕ → M (Unit {0})
  finalize app = do delete_volumes app; delete_routes app; delete_app out app

  pub end_app : FleetApp → M (Unit {0})
  end_app app = do
    refuse_if_resource_backed app.id
    now ← ask out.now
    update_app out (record app { desired_replicas = pos 0; updated_at = now })
    drained ← attempt (reconcile_app out cfg app.id)
    remaining ← list_replicas out app.id
    lift (surviving_owned remaining drained)
    lift (none_left remaining)
    finalize app.id

  -- Whether the app is known.
  pub decommission_app_found : Result FleetApp → M Bool
  decommission_app_found (err e) = if is_app_not_found e then pure false else lift (err e)
  decommission_app_found (ok app) = do end_app app; pure true

  pub decommission_app : ℕ → M Bool
  decommission_app id = do found ← attempt (find_app out id); decommission_app_found found
