-- ===== src/Fleet/Reconcile.antt =====
-- internal/usecase/fleet_orchestrator.go: the reconcile pass of an app. The sync of the network policy at its
-- end, the counters and the log lines are left out.
pub mod Fence
pub mod Held
pub mod Surplus
use runtime_service.Base.{
  ℕ, zero, suc, ◌-◌, ◌+◌, Bool, true, false, not, ◌&&◌, ◌||◌, ◌==◌, if◌then◌else◌, ℤ, pos, neg_part,
  pos_part, ltb, ltb_ℤ, List, [], ◌∷◌, ◌++◌, length, select, Option, none, some, Text, codes,
  is_some,
}
use runtime_service.Errors.{
  Err, fleet, fence, boot, replica_not_found, volume_restore_in_progress, replica_host_mismatch,
  secret_resolver_unavailable, secret_owner_org_missing, fleet_app_not_found, no_schedulable_host,
  volume_host_mismatch, volume_app_not_scalable, app_backs_durable_resource,
  volume_owned_by_live_resource, resource_not_found, vm_termination_unproven, Result, ok, err,
}
use runtime_service.Fleet.Replica.{
  FleetApp, Replica, ReplicaState, scheduled, booting, resident, dead, bin_pack,
}
use runtime_service.Fleet.Volume.{
  Volume, VolumeStatus, restoring, degraded, points_to, require_owned, affinity_of, attached_to,
  detached, marked_degraded,
}
use runtime_service.Fleet.World.{
  Outside, World, Settings, HostSecret, MaterializeInput, BootInput, BootResult, Event, Claim,
  BackingFile, mountable, unmountable, absent, store_absent, unreadable, file_deleted,
  routes_deleted, booted, torn_down, probed, reclaimed, M, ◌>>=◌, ◌>>◌, lift, pure, attempt, note,
  ask, query, each, find_app, list_apps, update_app, delete_app, list_replicas, list_by_host,
  create_replica, find_replica, update_replica, delete_replica, list_volumes, update_volume,
  delete_volume,
}
use runtime_service.Fleet.Scheduler.{is_host_live}
use runtime_service.Fleet.VolumeManager.{first_error, result_of, mark_degraded, affinity_host}
use runtime_service.Fleet.Teardown.{is_resident, decommission_replica, refresh_health}
use runtime_service.Fleet.Placement.{fill}

abbrev pub is_dead : ReplicaState → Bool
is_dead dead = true
is_dead _ = false

-- The states that the reconcile pass counts as occupying.
abbrev pub is_occupying : ReplicaState → Bool
is_occupying scheduled = true
is_occupying booting = true
is_occupying resident = true
is_occupying _ = false

abbrev pub is_app_not_found : Err → Bool
is_app_not_found (fleet fleet_app_not_found) = true
is_app_not_found _ = false

abbrev pub occupying : List Replica → List Replica
occupying rs = select (λ r. is_occupying r.state) rs

-- The order in which a surplus is drained: pending replicas first, and of one rank the newest first.
abbrev pub drain_rank : ReplicaState → ℕ
drain_rank scheduled = 0
drain_rank booting = 0
drain_rank _ = 1

pub drains_before : Replica → Replica → Bool
drains_before a b =
    if not (drain_rank a.state == drain_rank b.state)
    then ltb (drain_rank a.state) (drain_rank b.state)
    else ltb_ℤ b.created_at a.created_at

-- sort.SliceStable, as an insertion sort.
pub insert_surplus : Replica → List Replica → List Replica
insert_surplus r [] = r ∷ []
insert_surplus r (s ∷ ss) =
    let later = s ∷ insert_surplus r ss in if drains_before s r then later else r ∷ s ∷ ss

pub surplus_order : List Replica → List Replica
surplus_order [] = []
surplus_order (r ∷ rs) = insert_surplus r (surplus_order rs)

-- What one pass learns as it goes: its teardowns, and the replicas that it read, as it left them.
abbrev pub Snapshot : Type 0
Snapshot = Option Err × List Replica

module _ (out : Outside) (cfg : Settings) where
  unfoldable pub owns_replica : Replica → Bool
  owns_replica r = points_to cfg.self_host r.host_id

  -- DecommissionReplica, its error recorded.
  pub drain_one : Option Err → ℕ → M (Option Err)
  drain_one failed id = do
    result ← attempt (decommission_replica out cfg id)
    pure (first_error failed result)

  -- The dead replicas that are placed here.
  unfoldable pub clean_one : Option Err → Replica → M (Option Err)
  clean_one failed r =
      if is_dead r.state && owns_replica r then drain_one failed r.id else pure failed

  unfoldable pub clean_dead : Option Err → List Replica → M (Option Err)
  clean_dead failed [] = pure failed
  clean_dead failed (r ∷ rs) = do failed' ← clean_one failed r; clean_dead failed' rs

  -- What follows a probe: an error is only logged, and an unhealthy replica is drained.
  unfoldable pub after_refresh : Option Err → Replica → Result Bool → M (Option Err)
  after_refresh failed r (ok true) = pure failed
  after_refresh failed r (ok false) = drain_one failed r.id
  after_refresh failed r (err _) = pure failed

  unfoldable pub refresh_one : Option Err → Replica → M (Option Err × Replica)
  refresh_one failed r =
      if is_resident r.state && owns_replica r
      then (do
        answer ← refresh_health out cfg r
        failed' ← after_refresh failed r answer.1
        pure (failed', answer.0))
      else pure (failed, r)

  -- The resident replicas that are placed here; the others stay as they were read.
  unfoldable pub refresh_residents : Option Err → List Replica → M Snapshot
  refresh_residents failed [] = pure (failed, [])
  refresh_residents failed (r ∷ rs) = do
    one ← refresh_one failed r
    rest ← refresh_residents one.0 rs
    pure (rest.0, one.1 ∷ rest.1)

  -- Whether the host of the app's data is known to be gone; the volumes are then marked.
  pub degrade_if_gone : ℕ → Result Bool → M Bool
  degrade_if_gone app (ok false) = do attempt (mark_degraded out cfg app); pure true
  degrade_if_gone app _ = pure false

  pub check_affinity : ℕ → Result (Option ℕ) → M Bool
  check_affinity app (ok (some host)) = do
    live ← attempt (query (λ n. is_host_live (out.reads n) host))
    degrade_if_gone app live
  check_affinity app _ = pure false

  unfoldable pub is_stranded : ℕ → M Bool
  is_stranded app =
      if cfg.has_volumes
      then (do pinned ← attempt (affinity_host out cfg app); check_affinity app pinned)
      else pure false

  -- At most so many of the surplus are drained.
  pub drain_surplus : Option Err → ℕ → List Replica → M (Option Err)
  drain_surplus failed zero rs = pure failed
  drain_surplus failed (suc n) [] = pure failed
  drain_surplus failed (suc n) (r ∷ rs) = do
    failed' ← drain_one failed r.id
    drain_surplus failed' n rs

  pub drain : Option Err → ℕ → List Replica → M (Unit {0})
  drain failed surplus rs = do
    failed' ← drain_surplus failed surplus (surplus_order (select owns_replica rs))
    lift (result_of failed')

  -- The balance of a pass: the replicas that occupy, wherever they are placed, against those desired.
  unfoldable pub balance : FleetApp → Snapshot → M (Unit {0})
  balance app (failed, rs) =
      let n = length (occupying rs) in
      if ltb_ℤ (pos n) app.desired_replicas
      then fill out cfg app (pos_part app.desired_replicas - n) failed
      else if ltb_ℤ app.desired_replicas (pos n)
      then drain failed (n + neg_part app.desired_replicas - pos_part app.desired_replicas)
          (occupying rs)
      else lift (result_of failed)

  unfoldable pub reconcile_replicas : FleetApp → List Replica → M (Unit {0})
  reconcile_replicas app rs = do
    failed ← clean_dead none rs
    snapshot ← refresh_residents failed rs
    balance app snapshot

  unfoldable pub unless_stranded : FleetApp → List Replica → Bool → M (Unit {0})
  unless_stranded app rs true = pure tt
  unless_stranded app rs false = reconcile_replicas app rs

  unfoldable pub reconcile_found : Result FleetApp → M (Unit {0})
  reconcile_found (err e) = if is_app_not_found e then pure tt else lift (err e)
  reconcile_found (ok app) = do
    rs ← list_replicas out app.id
    stranded ← is_stranded app.id
    unless_stranded app rs stranded

  unfoldable pub reconcile_app : ℕ → M (Unit {0})
  reconcile_app id = do found ← attempt (find_app out id); reconcile_found found
