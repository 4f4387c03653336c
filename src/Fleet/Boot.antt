-- ===== src/Fleet/Boot.antt =====
-- internal/usecase/fleet_replica_runtime.go: the boot of a replica on the host that owns it. The secrets are
-- values that are passed to the driver; that they are not stored is not a matter of this model.
pub mod Fence
pub mod Cleared
use runtime_service.Base.{
  ℕ, zero, suc, ◌-◌, ◌+◌, Bool, true, false, not, ◌&&◌, ◌||◌, ◌==◌, if◌then◌else◌, ℤ, pos, neg_part,
  pos_part, ltb, ltb_ℤ, List, [], ◌∷◌, ◌++◌, length, select, Option, none, some, Text, codes,
  is_some,
}
use runtime_service.Errors.{
  Err, fleet, fence, boot, replica_not_found, volume_restore_in_progress, replica_host_mismatch,
  secret_resolver_unavailable, secret_owner_org_missing, fleet_app_not_found, no_schedulable_host,
  volume_host_mismatch, volume_app_not_scalable, app_backs_durable_resource,
  volume_owned_by_live_resource, resource_not_found, vm_termination_unproven, Result, ok, err,
}
use runtime_service.Fleet.Replica.{
  FleetApp, Replica, ReplicaState, scheduled, booting, resident, dead, bin_pack,
}
use runtime_service.Fleet.Volume.{
  Volume, VolumeStatus, restoring, degraded, points_to, require_owned, affinity_of, attached_to,
  detached, marked_degraded,
}
use runtime_service.Fleet.World.{
  Outside, World, Settings, HostSecret, MaterializeInput, BootInput, BootResult, Event, Claim,
  BackingFile, mountable, unmountable, absent, store_absent, unreadable, file_deleted,
  routes_deleted, booted, torn_down, probed, reclaimed, M, ◌>>=◌, ◌>>◌, lift, pure, attempt, note,
  ask, query, each, find_app, list_apps, update_app, delete_app, list_replicas, list_by_host,
  create_replica, find_replica, update_replica, delete_replica, list_volumes, update_volume,
  delete_volume,
}
use runtime_service.Fleet.VolumeManager.{is_empty, attach_to, primary_volume}
use runtime_service.Fleet.Teardown.{
  is_resident, require_owned_replica, reclaim_staging_dir, tear_down,
}

-- The tail of `<path>#<field>`, or all of the ref when nothing follows the last '#'.
abbrev pub tail_or : Text → Text → Text
tail_or ref [] = ref
tail_or ref (c ∷ s) = c ∷ s

-- What stands after the last '#'.
pub after_hash : Text → Option Text
after_hash [] = none
after_hash (c ∷ s) = elim (after_hash s) [
  | some t ↦ some t
  | none ↦ if c == 35 then some s else none
]

pub field_name : Text → Text
unfolding after_hash
field_name ref = elim (after_hash ref) [ none ↦ ref | some t ↦ tail_or ref t ]

abbrev pub or_empty : Option Text → Text
or_empty none = []
or_empty (some t) = t

abbrev pub is_restoring : VolumeStatus → Bool
is_restoring restoring = true
is_restoring _ = false

-- The replica that a boot leaves resident.
pub made_resident : (ℤ → Text) → FleetApp → Text → BootResult → ℤ → Replica → Replica
made_resident decimal app rootfs res now r = record r {
  pid = some res.pid;
  guest_ip = res.guest_ip;
  host_port = res.host_port;
  net_index = res.net_index;
  tap_name = res.tap_name;
  socket_path = res.socket_path;
  rootfs_path = rootfs;
  port = app.port;
  endpoint = codes "http://" ++ (res.guest_ip ++ (codes ":" ++ decimal app.port));
  state = resident;
  message = [];
  updated_at = now;
}

module _ (out : Outside) (cfg : Settings) where
  -- The secrets of a boot.
  pub resolve_refs : List Text → Text → Text → M (List HostSecret)
  resolve_refs [] org token = pure []
  resolve_refs (ref ∷ refs) org token = do
    val ← query (λ n. out.resolve n ref org token)
    rest ← resolve_refs refs org token
    pure (record { name = field_name ref; val = val } ∷ rest)

  pub resolve_boot_secrets : List Text → Text → Text → M (List HostSecret)
  resolve_boot_secrets refs org token =
      if not cfg.has_resolver
      then lift (err (boot secret_resolver_unavailable))
      else if is_empty org
      then lift (err (boot secret_owner_org_missing))
      else resolve_refs refs org token

  abbrev self_test_secrets : List HostSecret
  self_test_secrets =
      if cfg.secret_self_test
      then record { name = codes "__selftest__"; val = codes "FLEET-VSOCK-SELFTEST-OK" } ∷ []
      else []

  pub secrets_of : List Text → FleetApp → M (List HostSecret)
  secrets_of [] app = pure self_test_secrets
  secrets_of (ref ∷ refs) app =
      resolve_boot_secrets (ref ∷ refs) app.owner_org (or_empty (cfg.token_of app.id))

  pub boot_secrets : FleetApp → M (List HostSecret)
  boot_secrets app = secrets_of app.secret_refs app

  -- The boot has failed with the cause.
  pub mark_dead : {A : Type 0} → Replica → Err → M A
  mark_dead r cause = do
    now ← ask out.now
    attempt (
        update_replica out
          (record r { state = dead; message = out.error_text cause; updated_at = now }))
    reclaim_staging_dir out cfg r.id
    lift (err cause)

  -- `if err != nil { return uc.markDead(ctx, replica, err) }`.
  pub dead_on_error : {A : Type 0} → Replica → Result A → M A
  dead_on_error r (ok a) = pure a
  dead_on_error r (err cause) = mark_dead r cause

  pub or_mark_dead : {A : Type 0} → Replica → M A → M A
  or_mark_dead r m = do result ← attempt m; dead_on_error r result

  -- BootReplica, from its end. The row is written resident, or the machine is torn down again.
  pub unwind : Replica → Err → M (Unit {0})
  unwind r cause = do tear_down out cfg r; reclaim_staging_dir out cfg r.id; lift (err cause)

  -- The single writer's claim on the volumes; a failure is only logged.
  pub claim_volume : FleetApp → Replica → Option Volume → M (Unit {0})
  claim_volume app r none = pure tt
  claim_volume app r (some v) = do attempt (attach_to out cfg app.id r.id); pure tt

  pub after_persist : FleetApp → Replica → Option Volume → Result (Unit {0}) → M (Unit {0})
  after_persist app r vol (ok _) = claim_volume app r vol
  after_persist app r vol (err e) = unwind r e

  pub persist_resident : FleetApp → Replica → Option Volume → M (Unit {0})
  persist_resident app r vol = do
    written ← attempt (update_replica out r)
    after_persist app r vol written

  abbrev backing_path_of : Option Volume → Text
  backing_path_of none = []
  backing_path_of (some v) = v.backing_path

  abbrev mount_path_of : Option Volume → Text
  mount_path_of none = []
  mount_path_of (some v) = v.mount_path

  abbrev pub has_secrets : List HostSecret → Bool
  has_secrets [] = false
  has_secrets (s ∷ ss) = true

  pub materialize_input :
      FleetApp → Replica → List HostSecret → Text → Option Volume → MaterializeInput
  materialize_input app r secrets nonce vol = record {
    repository = app.image_repository;
    digest = app.image_digest;
    work_dir_of = r.id;
    port = app.port;
    expect_secrets = has_secrets secrets;
    bootstrap_nonce = nonce;
    data_mount_path = mount_path_of vol;
    registry_pull_token = or_empty (cfg.registry_token_of app.id);
  }

  pub boot_input : FleetApp → Replica → List HostSecret → Text → Option Volume → Text → BootInput
  boot_input app r secrets nonce vol rootfs = record {
    workload_id = r.id;
    rootfs_path = rootfs;
    vcpu = app.resources_vcpu;
    memory_mb = app.resources_mem_mb;
    port = app.port;
    expect_secrets = has_secrets secrets;
    secrets = secrets;
    bootstrap_nonce = nonce;
    data_disk_path = backing_path_of vol;
    data_mount_path = mount_path_of vol;
  }

  -- The driver is asked to boot.
  pub boot_resident : FleetApp → Replica → Option Volume → BootInput → M BootResult
  boot_resident app r vol input = do note (booted app r vol input); query (λ n. out.boot n input)

  pub launch : FleetApp → Replica → List HostSecret → Text → Option Volume → M (Unit {0})
  launch app r secrets nonce vol = do
    let mat_in = materialize_input app r secrets nonce vol
    rootfs ← or_mark_dead r (query (λ n. out.materialize n mat_in))
    res ← or_mark_dead r (boot_resident app r vol (boot_input app r secrets nonce vol rootfs))
    now ← ask out.now
    persist_resident app (made_resident out.decimal app rootfs res now r) vol

  -- The data volume, refused while a restore owns it.
  pub stand_off : Option Volume → M (Option Volume)
  stand_off none = pure none
  stand_off (some v) =
      if is_restoring v.status then lift (err (fleet volume_restore_in_progress)) else pure (some v)

  pub data_volume : ℕ → M (Option Volume)
  data_volume app =
      if cfg.has_volumes then (do vol ← primary_volume out cfg app; stand_off vol) else pure none

  pub nonce_for : List HostSecret → M Text
  nonce_for [] = pure []
  nonce_for (s ∷ ss) = query out.nonce

  -- A row that is placed here and not yet resident, with its app.
  pub boot_app : FleetApp → Replica → M (Unit {0})
  boot_app app found = do
    now ← ask out.now
    let r = record found { state = booting; message = []; updated_at = now }
    update_replica out r
    secrets ← or_mark_dead r (boot_secrets app)
    nonce ← or_mark_dead r (nonce_for secrets)
    vol ← or_mark_dead r (data_volume app.id)
    launch app r secrets nonce vol

  pub boot_owned : Replica → M (Unit {0})
  boot_owned r =
      if is_resident r.state then pure tt else (do app ← find_app out r.app_id; boot_app app r)

  pub boot_replica : ℕ → M (Unit {0})
  boot_replica id = do r ← find_replica out id; lift (require_owned_replica out cfg r); boot_owned r
