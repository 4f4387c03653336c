-- ===== src/Fleet/Placement.antt =====
-- internal/usecase/fleet_orchestrator.go: how ReconcileApp fills a shortfall, from the gate on the backing
-- file to the rows that it adds.
pub mod Fence
pub mod Live
pub mod Data
pub mod Amount
use runtime_service.Base.{
  ℕ, zero, suc, ◌-◌, ◌+◌, Bool, true, false, not, ◌&&◌, ◌||◌, ◌==◌, if◌then◌else◌, ℤ, pos, neg_part,
  pos_part, ltb, ltb_ℤ, List, [], ◌∷◌, ◌++◌, length, select, Option, none, some, Text, codes,
  is_some,
}
use runtime_service.Errors.{
  Err, fleet, fence, boot, replica_not_found, volume_restore_in_progress, replica_host_mismatch,
  secret_resolver_unavailable, secret_owner_org_missing, fleet_app_not_found, no_schedulable_host,
  volume_host_mismatch, volume_app_not_scalable, app_backs_durable_resource,
  volume_owned_by_live_resource, resource_not_found, vm_termination_unproven, Result, ok, err,
}
use runtime_service.Fleet.Replica.{
  FleetApp, Replica, ReplicaState, scheduled, booting, resident, dead, bin_pack,
}
use runtime_service.Fleet.Volume.{
  Volume, VolumeStatus, restoring, degraded, points_to, require_owned, affinity_of, attached_to,
  detached, marked_degraded,
}
use runtime_service.Fleet.World.{
  Outside, World, Settings, HostSecret, MaterializeInput, BootInput, BootResult, Event, Claim,
  BackingFile, mountable, unmountable, absent, store_absent, unreadable, file_deleted,
  routes_deleted, booted, torn_down, probed, reclaimed, M, ◌>>=◌, ◌>>◌, lift, pure, attempt, note,
  ask, query, each, find_app, list_apps, update_app, delete_app, list_replicas, list_by_host,
  create_replica, find_replica, update_replica, delete_replica, list_volumes, update_volume,
  delete_volume,
}
use runtime_service.Fleet.Scheduler.{PlacementRequest, select_host}
use runtime_service.Fleet.VolumeManager.{is_empty, primary_volume, affinity_host}

abbrev pub is_no_host : Err → Bool
is_no_host (fleet no_schedulable_host) = true
is_no_host _ = false

-- Whether the placement may go on.
abbrev pub is_placeable : BackingFile → Bool
is_placeable mountable = true
is_placeable unmountable = false
is_placeable absent = false
is_placeable store_absent = false
is_placeable unreadable = true

-- How a placement ended, short of an error.
pub data Placed : Type 0 where
  all_placed deferred : Placed

abbrev pub request : FleetApp → Option ℕ → PlacementRequest
request app host = record {
  app_id = app.id;
  need_vcpu = app.resources_vcpu;
  need_mem_mb = app.resources_mem_mb;
  need_disk_mb = pos 0;
  constraint = bin_pack;
  affinity_host_id = host;
  affinity_labels = [];
}

unfoldable pub new_replica : FleetApp → ℕ → ℕ → ℤ → Replica
new_replica app host id now = record {
  id = id;
  app_id = app.id;
  host_id = some host;
  image_repository = app.image_repository;
  image_digest = app.image_digest;
  state = scheduled;
  endpoint = [];
  guest_ip = [];
  host_port = pos 0;
  net_index = pos 0;
  rootfs_path = [];
  socket_path = [];
  tap_name = [];
  port = app.port;
  pid = none;
  exit_code = none;
  restart_policy = app.restart_policy;
  message = [];
  created_at = now;
  updated_at = now;
}

-- The scheduler's answer against the pin.
abbrev pub strays : Option ℕ → ℕ → Bool
strays none host = false
strays (some pinned) host = not (host == pinned)

module _ (out : Outside) (cfg : Settings) where
  -- The gate on the backing file.
  pub judge_file : Result (Option Volume) → M Bool
  judge_file (err _) = pure true
  judge_file (ok none) = pure true
  judge_file (ok (some v)) =
      if is_empty v.backing_path
      then pure true
      else (do file ← ask (λ n. out.backing_file n v.backing_path); pure (is_placeable file))

  unfoldable pub placeable_on_backing_file : ℕ → M Bool
  placeable_on_backing_file app =
      if cfg.has_volumes
      then (do vol ← attempt (primary_volume out cfg app); judge_file vol)
      else pure true

  unfoldable pub pinned_host : ℕ → M (Option ℕ)
  pinned_host app = if cfg.has_volumes then affinity_host out cfg app else pure none

  unfoldable pub place_on : FleetApp → Option ℕ → ℕ → M (Unit {0})
  place_on app pinned host =
      if strays pinned host then lift (err (fence volume_host_mismatch)) else (do
        now ← ask out.now
        id ← ask out.new_id
        create_replica out (new_replica app host id now))

  -- One round of the placement, with the rounds left; no host is a deferral and no error.
  unfoldable pub place_next : M Placed → FleetApp → Option ℕ → Result ℕ → M Placed
  place_next rest app pinned (err e) = if is_no_host e then pure deferred else lift (err e)
  place_next rest app pinned (ok host) = do place_on app pinned host; rest

  unfoldable pub place : FleetApp → Option ℕ → ℕ → M Placed
  place app pinned zero = pure all_placed
  place app pinned (suc n) = do
    selected ← attempt (query (λ c. select_host (out.reads c) (request app pinned)))
    place_next (λ w. place app pinned n w) app pinned selected

  unfoldable pub place_gated : FleetApp → ℕ → Bool → M Placed
  place_gated app shortfall false = pure deferred
  place_gated app shortfall true = do pinned ← pinned_host app.id; place app pinned shortfall

  -- A shortfall is placed, unless a teardown of this pass failed.
  unfoldable pub fill : FleetApp → ℕ → Option Err → M (Unit {0})
  fill app shortfall (some e) = lift (err e)
  fill app shortfall none = do
    open_gate ← placeable_on_backing_file app.id
    place_gated app shortfall open_gate
    pure tt
