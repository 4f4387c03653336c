-- ===== src/Fleet/Runs.antt =====
-- The reconcile pass, the wake and the end of an app at concrete values: host 9 with an app of id 1.
mod Values
use mathlib.Core.List.{Perm}
use runtime_service.Base.{
  ℕ, inl, ◌≤◌, length, All, Text, ◌≡◌, refl, ◌⊎◌, ◌↔◌, ◌≢◌, inr, Bool, true, false, ltb, ◌==◌, List,
  [], ◌∷◌, map, Option, none, some, pos, ◌<ℤ◌, ◌+ℤ◌, ◌-ℤ◌, wrap, codes, arith,
}
use runtime_service.Errors.{
  external, boot, resource_not_found, fleet, fence, activation_timeout, anonymous_wake_refused, ok,
  err,
}
use runtime_service.Fleet.Samples.{sample_host}
use runtime_service.Fleet.Replica.{
  FleetApp, Replica, ReplicaState, scheduled, resident, dead, always,
}
use runtime_service.Fleet.Volume.{Volume, attached}
use runtime_service.Fleet.HostLabel.{
  sanitize_slug, dns_label, label_for_app, trim_left, trim_right, write_rune, write_runes, prefix,
}
use runtime_service.Fleet.Idle
use runtime_service.Fleet.Idle.{Feed, Edge}
use runtime_service.Fleet.Idle.Doubt.{sweep_idle_spares}
use runtime_service.Fleet.HostLabel.Legal.{IsLegal, IsLed, label_for_app-IsLabel}
use runtime_service.Fleet.Scheduler
use runtime_service.Fleet.Scheduler.{Repositories}
use runtime_service.Fleet.Scheduler.Choice.{IsStrict}
use runtime_service.Fleet.World
use runtime_service.Fleet.Teardown
use runtime_service.Fleet.World.{
  Tables, Outside, World, Settings, Event, created, torn_down, updated, mountable,
}
use runtime_service.Fleet.World.Keeps.{Logged}
use runtime_service.Fleet.World.Fence.{Fenced}
use runtime_service.Fleet.Teardown.Proved.{IsProved}
use runtime_service.Fleet.Placement
use runtime_service.Fleet.Placement.Amount.{IsWithin}
use runtime_service.Fleet.Reconcile.Surplus.{IsDrainOrder, surplus_order-IsDrainOrder}
use runtime_service.Fleet.Placement.Live.{AddsOnly}
use runtime_service.Fleet.Placement.Data.{IsWellPlaced, fill-IsOnData}
use runtime_service.Fleet.Reconcile
use runtime_service.Fleet.Reconcile.Held.{AddsNone, reconcile_app_held}
use runtime_service.Fleet.Orchestrator
use runtime_service.Fleet.Orchestrator.Fence.{
  IsClearedBoot, reconcile_all-IsFenced, decommission_app-IsFenced, reconcile_all-IsClearedBoot,
}
use runtime_service.Fleet.Orchestrator.Claims.{IsDoubted, decommission_app_refused}
use runtime_service.Fleet.Activator
use runtime_service.Fleet.Activator.Wake.{IsServed, activate-IsServed, activate_refused}
use runtime_service.Fleet.Runs.Values.{
  web_app, row, data_volume, live_reads, around, quiet, stateless, stateful, world_of, mixed,
}

reconcile_all-IsFenced_example : Fenced stateful (Orchestrator.reconcile_all quiet stateful mixed).1
reconcile_all-IsFenced_example = reconcile_all-IsFenced quiet stateful mixed tt

decommission_app-IsFenced_example :
    Fenced stateful (Orchestrator.decommission_app quiet stateful 1 mixed).1
decommission_app-IsFenced_example = decommission_app-IsFenced quiet stateful 1 mixed tt

reconcile_all-IsClearedBoot_example :
    Logged
      (IsClearedBoot quiet stateful)
      (Orchestrator.reconcile_all quiet stateful (world_of (row 4 scheduled (some 9) ∷ []))).1
reconcile_all-IsClearedBoot_example =
    reconcile_all-IsClearedBoot quiet stateful (world_of (row 4 scheduled (some 9) ∷ [])) tt

reconcile_app_held_example :
    Logged AddsNone
      (Reconcile.reconcile_app quiet stateless 1 (world_of (row 2 dead (some 9) ∷ []))).1
    ⊎ Logged IsProved
        (Reconcile.reconcile_app quiet stateless 1 (world_of (row 2 dead (some 9) ∷ []))).1
reconcile_app_held_example =
    reconcile_app_held quiet stateless 1 (world_of (row 2 dead (some 9) ∷ [])) tt tt

ltb-IsStrict : (n : ℕ) → IsStrict (quiet.reads n).id_before
ltb-IsStrict n = record { asymmetric = λ a b h. ground arith; negative = λ a b c h k. ground arith }

fill-IsOnData_example :
    let seen = (Placement.placeable_on_backing_file quiet stateful 1 mixed).1 in
    AddsOnly
      (IsWellPlaced quiet web_app (World.list_volumes quiet 1 seen).0)
      (Placement.fill quiet stateful web_app 1 none mixed).1
fill-IsOnData_example = fill-IsOnData quiet stateful web_app 1 none mixed ltb-IsStrict refl tt

surplus_order-IsDrainOrder_example :
    Perm (Reconcile.surplus_order mixed.tables.replicas) mixed.tables.replicas
    × IsDrainOrder (Reconcile.surplus_order mixed.tables.replicas)
surplus_order-IsDrainOrder_example = surplus_order-IsDrainOrder mixed.tables.replicas

quiet-IsDoubted : IsDoubted quiet 1
quiet-IsDoubted n h = cc

decommission_app_refused_example : (Orchestrator.decommission_app quiet stateful 1 mixed).1.log ≡ []
decommission_app_refused_example =
    decommission_app_refused quiet stateful 1 mixed (inr quiet-IsDoubted)

-- A feed that is cold, and a host in a later minute, when the app of `mixed` is idle.
abbrev cold_feed : Feed
cold_feed = record { warm = λ n. false; last_activity = λ n host. none }

abbrev cold_edge : Edge
cold_edge = record {
  activity_feed = some cold_feed;
  routes = none;
  host_for_app = λ app. codes "web";
}

abbrev minutes_later : Outside
minutes_later = record quiet { now = λ n. pos 90000000000 }

idle_by_then : Idle.is_idle (pos 90000000000) web_app ≡ true
unfolding Idle.is_idle ◌-ℤ◌ wrap
idle_by_then = refl

-- Without a feed nothing holds the scaling back.
abbrev no_edge : Edge
no_edge = record cold_edge { activity_feed = none }

unblocked :
    (Idle.sweep_blocked_by_activity minutes_later stateful no_edge web_app mixed).0 ≡ ok false
unfolding Idle.sweep_blocked_by_activity
unblocked = refl

sweep_idle_spares_example : (Idle.sweep_idle minutes_later stateful cold_edge mixed).1.log ≡ []
sweep_idle_spares_example =
    sweep_idle_spares minutes_later stateful cold_edge cold_feed mixed refl (inl (λ n. refl))

-- Two digits stand for the digits of a hash.
abbrev hash_of : Text → Text
hash_of s = codes "00"

label_for_app-IsLabel_example :
    (length (label_for_app (λ c. c) hash_of web_app) ≤ 63)
    × All IsLegal (label_for_app (λ c. c) hash_of web_app)
    × ((sanitize_slug (λ c. c) (codes "web") ≡ []) ⊎ IsLed (label_for_app (λ c. c) hash_of web_app))
label_for_app-IsLabel_example =
    label_for_app-IsLabel (λ c. c) hash_of web_app (λ s. (refl, (refl, tt)))

-- A component without a letter or digit gives a label that a dash leads.
dashed_front :
    label_for_app (λ c. c) hash_of (record web_app { component_id = codes "/" }) ≡ codes "-prod"
unfolding label_for_app sanitize_slug dns_label trim_left trim_right write_rune write_runes
dashed_front = refl

-- 65 letters are cut, and the digits of the hash follow.
cut_short :
    dns_label hash_of (codes "aaaaaaaaaaaaaaaaaaaaaaaaaaaaaaaaaaaaaaaaaaaaaaaaaaaa-aaaaaaaaaaaa")
    ≡ codes "aaaaaaaaaaaaaaaaaaaaaaaaaaaaaaaaaaaaaaaaaaaaaaaaaaaa-a-00"
unfolding dns_label trim_right prefix
cut_short = refl

abbrev database : FleetApp
database = record web_app { min_replicas = pos 1; scale_to_zero = false }

abbrev parked : World
parked = record {
  tables = record { apps = database ∷ []; replicas = []; volumes = [] };
  calls = 0;
  log = [];
}

refused_here : Activator.wakeable_app database ≡ err (fence anonymous_wake_refused)
unfolding Activator.wakeable_app
refused_here = refl

found_here : (World.find_app quiet 1 (record parked { calls = 1 })).0 ≡ ok database
unfolding World.find_app World.call
found_here = refl

activate_refused_example :
    ((Activator.activate quiet stateful (codes "db") 3 (fleet activation_timeout) parked).0
      ≡ err (fence anonymous_wake_refused))
    × ((Activator.activate quiet stateful (codes "db") 3 (fleet activation_timeout) parked).1.log
        ≡ [])
activate_refused_example =
    activate_refused quiet stateful (codes "db") 3 (fleet activation_timeout) parked 1 database
      (fence anonymous_wake_refused) refl refl found_here refused_here

-- A replica that is resident here and answers.
abbrev serving : World
serving = world_of (row 4 resident (some 9) ∷ [])

served_here :
    (Activator.activate quiet stateless (codes "web") 0 (fleet activation_timeout) serving).0
    ≡ ok (codes "http://10.0.0.2:8080")
unfolding World.each World.insert_by_age World.by_age World.save_app World.save_replica
    World.find_app World.update_app World.list_replicas World.list_by_host World.update_replica
    World.call World.create_replica Teardown.require_owned_replica Teardown.process_alive
    Teardown.guest_alive Teardown.probe Teardown.judged Teardown.refresh_owned
    Teardown.refresh_health Reconcile.owns_replica Reconcile.clean_one Reconcile.clean_dead
    Reconcile.after_refresh Reconcile.refresh_one Reconcile.refresh_residents Reconcile.is_stranded
    Reconcile.balance Reconcile.reconcile_replicas Reconcile.unless_stranded
    Reconcile.reconcile_found Reconcile.reconcile_app Orchestrator.actuate_one
    Orchestrator.actuate_scheduled_owned Orchestrator.refuse_scale Orchestrator.scale_known
    Orchestrator.scale_found Orchestrator.scale_app Activator.answers Activator.pick
    Activator.first_ready Activator.resident_endpoint Activator.stamp_found Activator.stamp_active
    Activator.after_poll Activator.poll Activator.wake Activator.gated Activator.find_routed
    Activator.activate_routed Activator.activate Activator.address Activator.wakeable_app
served_here = refl

activate-IsServed_example :
    IsServed quiet stateless (codes "web") serving (codes "http://10.0.0.2:8080")
activate-IsServed_example =
    activate-IsServed quiet stateless (codes "web") 0 (fleet activation_timeout) serving
      (codes "http://10.0.0.2:8080") served_here

-- The port of a resident replica does not answer, and the write that marks it dead fails (the fourth call
-- of the database): its process was not torn down, and a second replica is added.
abbrev unsaved : Outside
unsaved = around false (λ n. n == 5)

abbrev states_of : List Replica → List ReplicaState
states_of rows = map (λ r. r.state) rows

replaced_unproved :
    states_of (Reconcile.reconcile_app unsaved stateless 1 serving).1.tables.replicas
    ≡ resident ∷ scheduled ∷ []
unfolding World.each World.insert_by_age World.by_age World.save_app World.save_replica
    World.find_app World.update_app World.list_replicas World.list_by_host World.update_replica
    World.call World.create_replica Teardown.require_owned_replica Teardown.process_alive
    Teardown.guest_alive Teardown.probe Teardown.judged Teardown.refresh_owned
    Teardown.refresh_health Reconcile.owns_replica Reconcile.clean_one Reconcile.clean_dead
    Reconcile.after_refresh Reconcile.refresh_one Reconcile.refresh_residents Reconcile.is_stranded
    Reconcile.balance Reconcile.reconcile_replicas Reconcile.unless_stranded
    Reconcile.reconcile_found Reconcile.reconcile_app Placement.placeable_on_backing_file
    Placement.pinned_host Placement.new_replica Placement.place_on Placement.place_next
    Placement.place Placement.place_gated Placement.fill Scheduler.select_host Scheduler.candidates
    Scheduler.candidate_of Scheduler.usage Scheduler.fits Scheduler.is_affine_host
    Scheduler.labels_superset Scheduler.sort_slice Scheduler.insert_sorted wrap ◌+ℤ◌ ◌-ℤ◌
replaced_unproved = refl
