-- ===== src/Net/Plane/Tests.antt =====
-- The reconcile of leases at concrete values: host 9 at ordinal 2, whose slot 1 is leased to replica 6.
use runtime_service.Base.{
  ◌≡◌, refl, true, false, if◌then◌else◌, pos, ◌+ℤ◌, ◌-ℤ◌, wrap, [], ◌∷◌, Memᴰ, none, some, codes,
  text_eq, arith,
}
use runtime_service.Errors.{ok, err, fence, net_plane_unreconciled}
use runtime_service.Fleet.Samples.{sample_host}
use runtime_service.Fleet.Replica.{Replica, ReplicaState, resident, always}
use runtime_service.Net.Lease.{
  dotted, other_text, img, named, NetLease, replica, coordinates, net_index_of, derive_net_lease,
  in_fleet_subnet, matches_addresses,
}
use runtime_service.Net.Table.Fences.{Fenced}
use runtime_service.Net.Table
use runtime_service.Net.Plane
use runtime_service.Net.Plane.{
  Reconciler, State, NetLeaseReconcileReport, no_report, Event, torn_down, cleared, released,
  owner_of,
}
use runtime_service.Net.Plane.Pass
use runtime_service.Net.Plane.Orderly.{IsOrderly, reconcile-IsOrderly}
use runtime_service.Net.Plane.Rest.{Facts, at_rest}
use runtime_service.Net.Plane.Rest.Agrees.{reconcile_agrees}
use runtime_service.Net.Plane.Rest.Running.{IsRunning, IsKeyed}
use runtime_service.Net.Plane.Rest.Separate.{verify_separates}

abbrev uc : Reconciler
uc = record { has_stores = true; self_host = 9; uid_base = pos 100000 }

abbrev lease : NetLease
lease = record (coordinates (pos 2) (pos 1) (pos 100000) (net_index_of (pos 2) (pos 1))) {
  id = 1;
  host_id = 9;
  owner_kind = replica;
  owner_id = 6;
  created_at = 2;
  updated_at = 2;
}

abbrev row : ReplicaState → Replica
row state = record {
  id = 6;
  app_id = 1;
  host_id = some 9;
  image_repository = codes "web";
  image_digest = codes "sha256:1";
  state = state;
  endpoint = [];
  guest_ip = codes "10.201.32.6";
  host_port = pos 0;
  net_index = pos 2049;
  rootfs_path = codes "r";
  socket_path = codes "s";
  tap_name = codes "img1";
  port = pos 8080;
  pid = some (pos 77);
  exit_code = none;
  restart_policy = always;
  message = [];
  created_at = pos 1;
  updated_at = pos 1;
}

-- The two texts of the row, read.
abbrev running : Facts
running = record {
  address = λ t. if text_eq t (codes "10.201.32.6") then dotted 10 201 32 6 else other_text "";
  device = λ t. if text_eq t (codes "img1") then img (pos 1) else named "";
  host = ok (record (sample_host 9 (codes "ber/a/x") 8) { net_ordinal = some (pos 2) });
  leases = lease ∷ [];
  replicas = row resident ∷ [];
  workloads = [];
  alive = λ pid. true;
  now = λ n. pos 5;
  booter = some (λ n handle. ok tt);
  reclaimer = some (λ n l. ok tt);
}

-- The same, with the process of the replica gone.
abbrev gone : Facts
gone = record running { alive = λ pid. false }

abbrev start : State
start = record { calls = 0; report = no_report; log = [] }

accepted : (Pass.verify (at_rest running) uc start).0 ≡ ok tt
unfolding Pass.verify Pass.verify_at Pass.verify_held Pass.verify_one Pass.verify_owner
    Pass.resolve_ordinal Pass.list_held Pass.load_owner Pass.find_owner
    Pass.assert_lease_matches_live_owner Pass.assert_no_leaseless_owner Pass.replica_offenders
    Pass.offenders_among Pass.is_offender Pass.claims Pass.add_if Pass.workload_offenders
    Pass.refuse_offenders Plane.each Plane.owner_of_replica Plane.is_derived Plane.check_derived
    Plane.verify_lease Plane.check_scope Plane.ordinal_of Plane.leased Plane.in_block
    derive_net_lease in_fleet_subnet matches_addresses coordinates net_index_of Table.list_by_host
    wrap ◌+ℤ◌ ◌-ℤ◌
accepted = refl

-- The lease of a process that is gone is released, after the driver and the artifacts.
mended :
    (Pass.reconcile (at_rest gone) uc start).1.log
    ≡ released lease (some (owner_of (row resident)))
      ∷ cleared lease
      ∷ torn_down lease (owner_of (row resident))
      ∷ []
unfolding Pass.reconcile Pass.reconcile_at Pass.reconcile_held Pass.reconcile_one
    Pass.reconcile_lease Pass.judge_owner Pass.judge_process Pass.tear_down_and_reclaim Pass.reclaim
    Pass.release_row Pass.clear_by Pass.stop_by Pass.resolve_ordinal Pass.list_held Pass.load_owner
    Pass.find_owner Pass.assert_lease_matches_live_owner Pass.assert_no_leaseless_owner
    Pass.replica_offenders Pass.offenders_among Pass.is_offender Pass.claims Pass.add_if
    Pass.workload_offenders Pass.refuse_offenders Plane.each Plane.owner_of_replica Plane.is_derived
    Plane.check_derived Plane.verify_lease Plane.check_scope Plane.ordinal_of Plane.leased
    Plane.in_block derive_net_lease in_fleet_subnet matches_addresses coordinates net_index_of
    Table.list_by_host wrap ◌+ℤ◌ ◌-ℤ◌
mended = refl

-- The row is left as it was, and from then on Verify refuses it as a second claim on its index.
refused_after :
    (Pass.verify (at_rest (record gone { leases = [] })) uc start).0
    ≡ err (fence net_plane_unreconciled)
unfolding Pass.verify Pass.verify_at Pass.verify_held Pass.verify_one Pass.verify_owner
    Pass.resolve_ordinal Pass.list_held Pass.load_owner Pass.find_owner
    Pass.assert_lease_matches_live_owner Pass.assert_no_leaseless_owner Pass.replica_offenders
    Pass.offenders_among Pass.is_offender Pass.claims Pass.add_if Pass.workload_offenders
    Pass.refuse_offenders Plane.each Plane.owner_of_replica Plane.check_scope Plane.ordinal_of
    Plane.leased Plane.in_block Table.list_by_host ◌-ℤ◌
refused_after = refl

reconcile-IsOrderly_example :
    IsOrderly (at_rest gone) uc (Pass.reconcile (at_rest gone) uc start).1.log
reconcile-IsOrderly_example = reconcile-IsOrderly (at_rest gone) uc start tt

reconcile_agrees_example : (Pass.reconcile (at_rest running) uc start).0 ≡ ok tt
reconcile_agrees_example = reconcile_agrees running uc start start accepted

running-IsKeyed : IsKeyed running.replicas
running-IsKeyed q r (Memᴰ.head e) (Memᴰ.head e') same = cc
running-IsKeyed q r (Memᴰ.head e) (Memᴰ.tail m) same = elim m [ ]
running-IsKeyed q r (Memᴰ.tail m) other same = elim m [ ]

row-IsRunning : IsRunning running uc (row resident)
row-IsRunning = record {
  listed = Memᴰ.head refl;
  placed = refl;
  state = resident;
  occupies = Memᴰ.tail (Memᴰ.head refl);
  in_it = refl;
  indexed = omega arith;
  pid = pos 77;
  recorded = refl;
  started = omega arith;
  lives = refl;
}

running-Fenced : Fenced running.leases
running-Fenced = (refl, tt)

verify_separates_example : row resident ≡ row resident
verify_separates_example =
    verify_separates running uc start (row resident) (row resident) running-Fenced running-IsKeyed
      accepted row-IsRunning row-IsRunning refl
