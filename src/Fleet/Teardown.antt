-- ===== src/Fleet/Teardown.antt =====
-- internal/usecase/fleet_replica_runtime.go: the teardown and the probe of a replica on the host that owns it.
pub mod Fence
pub mod Proved
use runtime_service.Base.{
  ℕ, zero, suc, ◌-◌, ◌+◌, Bool, true, false, not, ◌&&◌, ◌||◌, ◌==◌, if◌then◌else◌, ℤ, pos, neg_part,
  pos_part, ltb, ltb_ℤ, List, [], ◌∷◌, ◌++◌, length, select, Option, none, some, Text, codes,
  is_some,
}
use runtime_service.Errors.{
  Err, fleet, fence, boot, replica_not_found, volume_restore_in_progress, replica_host_mismatch,
  secret_resolver_unavailable, secret_owner_org_missing, fleet_app_not_found, no_schedulable_host,
  volume_host_mismatch, volume_app_not_scalable, app_backs_durable_resource,
  volume_owned_by_live_resource, resource_not_found, vm_termination_unproven, Result, ok, err,
}
use runtime_service.Fleet.Replica.{
  FleetApp, Replica, ReplicaState, scheduled, booting, resident, dead, bin_pack,
}
use runtime_service.Fleet.Volume.{
  Volume, VolumeStatus, restoring, degraded, points_to, require_owned, affinity_of, attached_to,
  detached, marked_degraded,
}
use runtime_service.Fleet.World.{
  Outside, World, Settings, HostSecret, MaterializeInput, BootInput, BootResult, Event, Claim,
  BackingFile, mountable, unmountable, absent, store_absent, unreadable, file_deleted,
  routes_deleted, booted, torn_down, probed, reclaimed, M, ◌>>=◌, ◌>>◌, lift, pure, attempt, note,
  ask, query, each, find_app, list_apps, update_app, delete_app, list_replicas, list_by_host,
  create_replica, find_replica, update_replica, delete_replica, list_volumes, update_volume,
  delete_volume,
}
use runtime_service.Fleet.VolumeManager.{is_empty, detach_from}

abbrev pub is_resident : ReplicaState → Bool
is_resident resident = true
is_resident _ = false

abbrev pub is_replica_not_found : Err → Bool
is_replica_not_found (fleet replica_not_found) = true
is_replica_not_found _ = false

module _ (out : Outside) (cfg : Settings) where
  unfoldable pub require_owned_replica : Replica → Result (Unit {0})
  require_owned_replica r =
      if points_to cfg.self_host r.host_id then ok tt else err (fence replica_host_mismatch)

  pub reclaim_staging_dir : ℕ → M (Unit {0})
  reclaim_staging_dir id = if not cfg.has_work_dir || id == 0 then pure tt else note (reclaimed id)

  -- The driver's teardown, and what it proved.
  pub record_teardown : Replica → Result (Unit {0}) → M (Unit {0})
  record_teardown r (ok _) = note (torn_down r true)
  record_teardown r (err e) = do note (torn_down r false); lift (err e)

  pub tear_down : Replica → M (Unit {0})
  tear_down r = do result ← attempt (query (λ n. out.tear_down n r)); record_teardown r result

  -- Whether a row has any handle that the driver must tear down.
  pub has_handle : Replica → Bool
  has_handle r =
      is_some r.pid
      || not (is_empty r.socket_path)
      || not (is_empty r.tap_name)
      || ltb_ℤ (pos 0) r.net_index

  pub tear_down_if_started : Replica → M (Unit {0})
  tear_down_if_started r = if has_handle r then tear_down r else pure tt

  pub detach_volumes : ℕ → M (Unit {0})
  detach_volumes app =
      if cfg.has_volumes then (do attempt (detach_from out cfg app); pure tt) else pure tt

  pub decommission_here : Replica → M (Unit {0})
  decommission_here r = do
    tear_down_if_started r
    detach_volumes r.app_id
    reclaim_staging_dir r.id
    delete_replica out r

  pub decommission_owned : Replica → M (Unit {0})
  decommission_owned r = do lift (require_owned_replica r); decommission_here r

  -- A missing replica is no error.
  pub decommission_found : Result Replica → M (Unit {0})
  decommission_found (ok r) = decommission_owned r
  decommission_found (err e) = if is_replica_not_found e then pure tt else lift (err e)

  pub decommission_replica : ℕ → M (Unit {0})
  decommission_replica id = do found ← attempt (find_replica out id); decommission_found found

  -- The probe of a process, and of the guest's port where there is one.
  unfoldable pub process_alive : Option ℤ → M Bool
  process_alive none = pure false
  process_alive (some pid) = ask (λ n. out.proc_alive n pid)

  unfoldable pub guest_alive : Replica → Bool → M Bool
  guest_alive r alive =
      if alive && (not (is_empty r.guest_ip) && ltb_ℤ (pos 0) r.port)
      then ask (λ n. out.dial n r.guest_ip r.port)
      else pure alive

  unfoldable pub probe : Replica → M Bool
  probe r = do note (probed r); alive ← process_alive r.pid; guest_alive r alive

  abbrev answered : Bool → Result (Unit {0}) → Result Bool
  answered healthy (ok _) = ok healthy
  answered healthy (err e) = err e

  -- The state that RefreshHealth leaves in the caller's replica, and its answer.
  unfoldable pub judged : Replica → Bool → M (Replica × Result Bool)
  judged r true = pure (r, ok true)
  judged r false = do
    now ← ask out.now
    let gone = record r { state = dead; message = codes "vm process exited"; updated_at = now }
    written ← attempt (update_replica out gone)
    pure (gone, answered false written)

  unfoldable pub refresh_owned : Replica → Result (Unit {0}) → M (Replica × Result Bool)
  refresh_owned r (err e) = pure (r, err e)
  refresh_owned r (ok _) =
      if is_resident r.state then (do alive ← probe r; judged r alive) else pure (r, ok false)

  unfoldable pub refresh_health : Replica → M (Replica × Result Bool)
  refresh_health r = refresh_owned r (require_owned_replica r)
