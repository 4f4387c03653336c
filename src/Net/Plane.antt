-- ===== src/Net/Plane.antt =====
-- internal/usecase/fleet_net_lease_reconcile.go: the reconcile of a host's leases with the rows and the
-- processes of the host, and the verdict that each boot asks for. The maps of owners and of indexes are those
-- of the leases listed; the texts of the errors and the log lines are left out.
mod Types
pub mod Pass
mod Rules
mod Quiet
pub mod Counts
pub mod Rest
mod Tests
pub mod Orderly
use runtime_service.Base.{
  ℕ, suc, ◌+◌, ◌*◌, Bool, true, false, not, ◌&&◌, ◌||◌, ◌==◌, if◌then◌else◌, ℤ, pos, pos_part, ◌-ℤ◌,
  ltb_ℤ, leb_ℤ, eq_ℤ, saturated, List, [], ◌∷◌, ◌++◌, length, some_of, Option, none, some,
}
use runtime_service.Errors.{
  Err, fence, boot, net_plane_unreconciled, host_net_ordinal_unset, net_coordinate_out_of_range,
  workload_not_found, Result, ok, err,
}
use runtime_service.Fleet.Host.{Host}
use runtime_service.Fleet.Replica.{Replica, ReplicaState, booting, resident, paused, draining, dead}
use runtime_service.Fleet.Volume.{points_to}
use runtime_service.Fleet.Teardown.{is_replica_not_found}
use runtime_service.Net.Lease.{
  NetLease, NetLeaseOwnerKind, replica, workload, unrecognized, address_eq, tap_eq,
  derive_net_lease, matches_addresses, net_max_ordinal, net_max_slot, net_slot_stride,
}
use runtime_service.Net.Table.{owned_by}
pub use Types.*

abbrev pub M : Type 0 → Type 0
M A = State → Result A × State

infixl 5 ◌>>=◌ ◌>>◌
abbrev pub ◌>>=◌ : {A B : Type 0} → M A → (A → M B) → M B
◌>>=◌ m f s = let (r, s') = m s in elim r [ ok a ↦ f a s' | err e ↦ (err e, s') ]

abbrev pub ◌>>◌ : {A B : Type 0} → M A → M B → M B
m >> n = m >>= λ _. n

abbrev pub lift : {A : Type 0} → Result A → M A
lift r s = (r, s)

abbrev pub pure : {A : Type 0} → A → M A
pure a s = (ok a, s)

abbrev pub attempt : {A : Type 0} → M A → M (Result A)
attempt m s = let (r, s') = m s in (ok r, s')

abbrev pub note : Event → M (Unit {0})
note e s = (ok tt, record s { log = e ∷ s.log })

abbrev pub query : {A : Type 0} → (ℕ → Result A) → M A
query f s = (f s.calls, record s { calls = suc s.calls })

abbrev pub ask : {A : Type 0} → (ℕ → A) → M A
ask f = query (λ n. ok (f n))

abbrev pub tally : (NetLeaseReconcileReport → NetLeaseReconcileReport) → M (Unit {0})
tally f s = (ok tt, record s { report = f s.report })

unfoldable pub each : {A : Type 0} → (A → M (Unit {0})) → List A → M (Unit {0})
each f [] = pure tt
each f (x ∷ xs) = do f x; each f xs

abbrev pub unreconciled {ℓ} : {A : Type ℓ} → Result A
unreconciled = err (fence net_plane_unreconciled)

-- An error of a store, in the plane's own sentinel.
abbrev pub or_unreconciled {ℓ} : {A : Type ℓ} → Result A → Result A
or_unreconciled (ok a) = ok a
or_unreconciled (err e) = unreconciled

abbrev pub no_report : NetLeaseReconcileReport
no_report = record {
  host_ordinal = pos 0;
  leases = 0;
  adopted = 0;
  torn_down = 0;
  reclaimed = 0;
  left = 0;
}

-- Ten minutes, in nanoseconds.
abbrev pub lease_adopt_grace : ℤ
lease_adopt_grace = pos 600000000000

abbrev pub pid_of : Option ℤ → ℤ
pid_of none = pos 0
pid_of (some pid) = pid

abbrev pub is_dead : ReplicaState → Bool
is_dead dead = true
is_dead _ = false

abbrev is_over : ImageWorkloadState → Bool
is_over ImageWorkloadState.exited = true
is_over ImageWorkloadState.failed = true
is_over _ = false

abbrev is_workload_not_found : Err → Bool
is_workload_not_found (boot workload_not_found) = true
is_workload_not_found _ = false

pub replica_decommission_input : Replica → ImageDecommissionInput
replica_decommission_input r = record {
  owner_kind = replica;
  owner_id = r.id;
  pid = pid_of r.pid;
  socket_path = r.socket_path;
  tap_name = r.tap_name;
  net_index = r.net_index;
  guest_ip = r.guest_ip;
  host_port = r.host_port;
  port = r.port;
  rootfs_path = r.rootfs_path;
}

pub decommission_input : ImageWorkload → ImageDecommissionInput
decommission_input w = record {
  owner_kind = workload;
  owner_id = w.id;
  pid = pid_of w.pid;
  socket_path = w.socket_path;
  tap_name = w.tap_name;
  net_index = w.net_index;
  guest_ip = w.guest_ip;
  host_port = w.host_port;
  port = w.port;
  rootfs_path = w.rootfs_path;
}

abbrev pub owner_of : Replica → LeaseOwner
owner_of r = record {
  terminal = is_dead r.state;
  pid = pid_of r.pid;
  guest_ip = r.guest_ip;
  tap_name = r.tap_name;
  handle = replica_decommission_input r;
}

unfoldable pub owner_of_replica : Result Replica → Result (Option LeaseOwner)
owner_of_replica (err e) = if is_replica_not_found e then ok none else unreconciled
owner_of_replica (ok r) = ok (some (owner_of r))

unfoldable pub owner_of_workload : Result ImageWorkload → Result (Option LeaseOwner)
owner_of_workload (err e) = if is_workload_not_found e then ok none else unreconciled
owner_of_workload (ok w) = ok (
    some (record {
      terminal = is_over w.state;
      pid = pid_of w.pid;
      guest_ip = w.guest_ip;
      tap_name = w.tap_name;
      handle = decommission_input w;
    }))

-- The five columns of a lease are those of its ordinal and slot.
unfoldable pub is_derived : NetLease → NetLease → Bool
is_derived derived lease =
    eq_ℤ derived.net_index lease.net_index
    && address_eq derived.host_ip lease.host_ip
    && address_eq derived.guest_ip lease.guest_ip
    && tap_eq derived.tap_name lease.tap_name
    && eq_ℤ derived.vm_uid lease.vm_uid

unfoldable pub check_derived : NetLease → Result NetLease → Result (Unit {0})
check_derived lease (err e) = unreconciled
check_derived lease (ok derived) = if is_derived derived lease then ok tt else unreconciled

unfoldable pub verify_lease : Reconciler → NetLease → Result (Unit {0})
verify_lease uc lease =
    check_derived lease (derive_net_lease lease.host_ordinal lease.local_slot uc.uid_base)

unfoldable pub check_scope : Reconciler → Result (Unit {0})
check_scope uc =
    if not uc.has_stores then unreconciled else if uc.self_host == 0 then unreconciled else ok tt

unfoldable pub ordinal_of : Option ℤ → Result ℤ
ordinal_of none = err (fence host_net_ordinal_unset)
ordinal_of (some ord) =
    if ltb_ℤ ord (pos 0) || ltb_ℤ (pos net_max_ordinal) ord
    then err (fence net_coordinate_out_of_range)
    else ok ord

-- Whether a lease is held by the owner.
unfoldable pub leased : NetLeaseOwnerKind → ℕ → List NetLease → Bool
leased kind owner held = some_of (owned_by kind owner) held

abbrev pub occupying : List ReplicaState
occupying = booting ∷ resident ∷ paused ∷ draining ∷ dead ∷ []

-- A positive index less a multiple of 1024 up to 15 * 1024 stays within 64 bits.
unfoldable pub in_block : ℤ → ℤ → Bool
in_block ordinal net_index =
    let slot = net_index -ℤ pos (pos_part ordinal * net_slot_stride) in
    not (ltb_ℤ slot (pos 1) || ltb_ℤ (pos net_max_slot) slot)
