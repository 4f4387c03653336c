-- ===== src/Fleet/Activator.antt =====
-- internal/usecase/fleet_activator.go: the wake of a parked app by a request without an identity. The clock
-- and the context of the request are read as the rounds of polling that they leave and the error that ends
-- them: the timeout, or that of the context.
pub mod Wake
use runtime_service.Base.{
  ℕ, zero, suc, ◌-◌, ◌+◌, Bool, true, false, not, ◌&&◌, ◌||◌, ◌==◌, if◌then◌else◌, ℤ, pos, neg_part,
  pos_part, ltb, ltb_ℤ, leb_ℤ, eq_ℤ, List, [], ◌∷◌, ◌++◌, length, select, Option, none, some, Text,
  codes, is_some,
}
use runtime_service.Errors.{
  Err, fleet, fence, anonymous_wake_refused, route_not_found, boot, replica_not_found,
  volume_restore_in_progress, replica_host_mismatch, secret_resolver_unavailable,
  secret_owner_org_missing, fleet_app_not_found, no_schedulable_host, volume_host_mismatch,
  volume_app_not_scalable, app_backs_durable_resource, volume_owned_by_live_resource,
  resource_not_found, vm_termination_unproven, Result, ok, err,
}
use runtime_service.Fleet.Replica.{
  FleetApp, Replica, ReplicaState, scheduled, booting, resident, dead, bin_pack,
}
use runtime_service.Fleet.Volume.{
  Volume, VolumeStatus, restoring, degraded, points_to, require_owned, affinity_of, attached_to,
  detached, marked_degraded,
}
use runtime_service.Fleet.World.{
  Outside, World, Settings, HostSecret, MaterializeInput, BootInput, BootResult, Event, Claim,
  BackingFile, mountable, unmountable, absent, store_absent, unreadable, file_deleted,
  routes_deleted, booted, torn_down, probed, reclaimed, M, ◌>>=◌, ◌>>◌, lift, pure, attempt, note,
  ask, query, each, find_app, list_apps, update_app, delete_app, list_replicas, list_by_host,
  create_replica, find_replica, update_replica, delete_replica, list_volumes, update_volume,
  delete_volume,
}
use runtime_service.Fleet.Teardown.{is_resident}
use runtime_service.Fleet.VolumeManager.{is_empty}
use runtime_service.Fleet.Reconcile.{is_app_not_found}
use runtime_service.Fleet.Orchestrator.{scale_app, actuate_scheduled_owned}

-- The reserved port of the data engines.
abbrev pub resident_pg_port : ℤ
resident_pg_port = pos 5432

abbrev pub wake_refused : Err
wake_refused = fence anonymous_wake_refused

-- What an anonymous request may wake.
unfoldable pub wakeable_app : FleetApp → Result (Unit {0})
wakeable_app app =
    if not app.scale_to_zero
    then err wake_refused
    else if not (eq_ℤ app.min_replicas (pos 0))
    then err wake_refused
    else if leb_ℤ app.port (pos 0)
    then err wake_refused
    else if eq_ℤ app.port resident_pg_port
    then err wake_refused
    else ok tt

-- A route to an app that is not known is no route.
abbrev pub as_route : Result FleetApp → Result FleetApp
as_route (ok app) = ok app
as_route (err e) = if is_app_not_found e then err (fleet route_not_found) else err e

abbrev pub known : Bool → Result (Unit {0})
known true = ok tt
known false = err (fleet route_not_found)

module _ (out : Outside) (cfg : Settings) where
  -- The endpoint that is written in the row, or the address of the guest.
  unfoldable pub address : Replica → Text
  address r =
      if is_empty r.endpoint
      then codes "http://" ++ (r.guest_ip ++ (codes ":" ++ out.decimal r.port))
      else r.endpoint

  unfoldable pub answers : Replica → M Bool
  answers r = if is_resident r.state then ask (λ n. out.dial n r.guest_ip r.port) else pure false

  unfoldable pub pick : Replica → M (Option Text) → Bool → M (Option Text)
  pick r rest true = pure (some (address r))
  pick r rest false = rest

  -- The first replica that is resident and answers on its port.
  unfoldable pub first_ready : List Replica → M (Option Text)
  first_ready [] = pure none
  first_ready (r ∷ rs) = do healthy ← answers r; pick r (λ w. first_ready rs w) healthy

  unfoldable pub resident_endpoint : ℕ → M (Option Text)
  resident_endpoint app = do rs ← list_replicas out app; first_ready rs

  -- The activity clock of the app; a failure is only logged.
  unfoldable pub stamp_found : Result FleetApp → M (Unit {0})
  stamp_found (err e) = pure tt
  stamp_found (ok app) = do
    now ← ask out.now
    attempt (update_app out (record app { last_active_at = now; updated_at = now }))
    pure tt

  unfoldable pub stamp_active : ℕ → M (Unit {0})
  stamp_active app = do found ← attempt (find_app out app); stamp_found found

  -- One poll, and what follows when no replica is ready.
  unfoldable pub after_poll : ℕ → M Text → Option Text → M Text
  after_poll app again (some endpoint) = do stamp_active app; pure endpoint
  after_poll app again none = again

  unfoldable pub poll : ℕ → ℕ → Err → M Text
  poll app zero ended = do ready ← resident_endpoint app; after_poll app (lift (err ended)) ready
  poll app (suc rounds) ended = do
    ready ← resident_endpoint app
    after_poll app (λ w. poll app rounds ended w) ready

  -- ScaleApp to one, the actuation of what is placed here, then the polls.
  unfoldable pub wake : ℕ → ℕ → Err → M Text
  wake app rounds ended = do
    is_app ← scale_app out cfg app (pos 1)
    lift (known is_app)
    attempt (actuate_scheduled_owned out cfg)
    poll app rounds ended

  unfoldable pub gated : ℕ → ℕ → Err → FleetApp → M Text
  gated id rounds ended app = do lift (wakeable_app app); wake id rounds ended

  unfoldable pub find_routed : ℕ → M FleetApp
  find_routed id = do found ← attempt (find_app out id); lift (as_route found)

  unfoldable pub activate_routed : ℕ → Err → ℕ → M Text
  activate_routed rounds ended id = do app ← find_routed id; gated id rounds ended app

  unfoldable pub activate : Text → ℕ → Err → M Text
  activate host rounds ended =
      if is_empty host
      then lift (err (fleet route_not_found))
      else (do id ← query (λ n. out.route_of n host); activate_routed rounds ended id)
