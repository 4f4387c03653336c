-- ===== src/Fleet/VolumeManager.antt =====
-- internal/usecase/fleet_volume_manager.go: the verbs on an app's volumes that the replicas and the end of
-- an app use. Settings.self_host is the identity given to the manager and to the runtime.
pub mod Fence
use runtime_service.Base.{
  ℕ, zero, suc, ◌-◌, ◌+◌, Bool, true, false, not, ◌&&◌, ◌||◌, ◌==◌, if◌then◌else◌, ℤ, pos, neg_part,
  pos_part, ltb, ltb_ℤ, List, [], ◌∷◌, ◌++◌, length, select, Option, none, some, Text, codes,
  is_some,
}
use runtime_service.Errors.{
  Err, fleet, fence, boot, replica_not_found, volume_restore_in_progress, replica_host_mismatch,
  secret_resolver_unavailable, secret_owner_org_missing, fleet_app_not_found, no_schedulable_host,
  volume_host_mismatch, volume_app_not_scalable, app_backs_durable_resource,
  volume_owned_by_live_resource, resource_not_found, vm_termination_unproven, Result, ok, err,
}
use runtime_service.Fleet.Replica.{
  FleetApp, Replica, ReplicaState, scheduled, booting, resident, dead, bin_pack,
}
use runtime_service.Fleet.Volume.{
  Volume, VolumeStatus, restoring, degraded, points_to, require_owned, affinity_of, attached_to,
  detached, marked_degraded,
}
use runtime_service.Fleet.World.{
  Outside, World, Settings, HostSecret, MaterializeInput, BootInput, BootResult, Event, Claim,
  BackingFile, mountable, unmountable, absent, store_absent, unreadable, file_deleted,
  routes_deleted, booted, torn_down, probed, reclaimed, M, ◌>>=◌, ◌>>◌, lift, pure, attempt, note,
  ask, query, each, find_app, list_apps, update_app, delete_app, list_replicas, list_by_host,
  create_replica, find_replica, update_replica, delete_replica, list_volumes, update_volume,
  delete_volume,
}

abbrev pub is_empty : Text → Bool
is_empty [] = true
is_empty (c ∷ s) = false

abbrev pub first_volume : List Volume → Option Volume
first_volume [] = none
first_volume (v ∷ _) = some v

abbrev pub is_resource_not_found : Err → Bool
is_resource_not_found (boot resource_not_found) = true
is_resource_not_found _ = false

-- `if teardownErr == nil { teardownErr = err }`.
abbrev pub first_error : Option Err → Result (Unit {0}) → Option Err
first_error (some e) _ = some e
first_error none (ok _) = none
first_error none (err e) = some e

abbrev pub result_of : Option Err → Result (Unit {0})
result_of none = ok tt
result_of (some e) = err e

module _ (out : Outside) (cfg : Settings) where
  pub owned_volumes : ℕ → M (List Volume)
  owned_volumes app = do vs ← list_volumes out app; lift (require_owned cfg.self_host vs); pure vs

  pub update_volumes : (Volume → Volume) → List Volume → M (Unit {0})
  update_volumes change vs = each (λ v. update_volume out (change v)) vs

  pub attach_to : ℕ → ℕ → M (Unit {0})
  attach_to app replica = do
    vs ← owned_volumes app
    now ← ask out.now
    update_volumes (attached_to replica now) vs

  pub detach_from : ℕ → M (Unit {0})
  detach_from app = do vs ← owned_volumes app; now ← ask out.now; update_volumes (detached now) vs

  pub mark_degraded : ℕ → M (Unit {0})
  mark_degraded app = do
    vs ← list_volumes out app
    now ← ask out.now
    update_volumes (marked_degraded now) vs

  pub primary_volume : ℕ → M (Option Volume)
  primary_volume app = do vs ← list_volumes out app; pure (first_volume vs)

  unfoldable pub affinity_host : ℕ → M (Option ℕ)
  affinity_host app = do vs ← list_volumes out app; lift (affinity_of vs)

  -- The claim that owns a volume, before any file is touched.
  pub retired : Result Claim → M (Unit {0})
  retired (err e) =
      if is_resource_not_found e
      then lift (err (fleet volume_owned_by_live_resource))
      else lift (err e)
  retired (ok claim) = elim claim.decommissioned_at [
    | none ↦ lift (err (fleet volume_owned_by_live_resource))
    | some _ ↦ pure tt
  ]

  pub prove_retired : Option ℕ → M (Unit {0})
  prove_retired none = pure tt
  prove_retired (some resource) =
      if cfg.has_resources
      then (do claim ← attempt (query (λ n. out.claim_of n resource)); retired claim)
      else lift (err (fleet volume_owned_by_live_resource))

  -- The file of a volume, then its row; the row stays when the file could not be removed.
  pub unlink_file : Volume → M (Unit {0})
  unlink_file v =
      if is_empty v.backing_path
      then pure tt
      else (do note (file_deleted v); query (λ n. out.unlink n v.backing_path))

  pub reclaim_volume : Volume → M (Unit {0})
  reclaim_volume v = do unlink_file v; delete_volume out v

  pub reclaim_volumes : Option Err → List Volume → M (Unit {0})
  reclaim_volumes failed [] = lift (result_of failed)
  reclaim_volumes failed (v ∷ vs) = do
    result ← attempt (reclaim_volume v)
    reclaim_volumes (first_error failed result) vs

  pub delete_app_volumes : ℕ → M (Unit {0})
  delete_app_volumes app = do
    vs ← owned_volumes app
    each (λ v. prove_retired v.resource_id) vs
    reclaim_volumes none vs

  abbrev pub has_any : List Volume → Bool
  has_any [] = false
  has_any (v ∷ vs) = true

  pub has_volumes : ℕ → M Bool
  has_volumes app = do vs ← list_volumes out app; pure (has_any vs)
