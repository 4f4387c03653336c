-- ===== src/Net/Plane/Types.antt =====
-- What a host's reconcile of its leases reads and does: the rows of internal/domain/image_workload.go, the handle
-- and the report of internal/usecase/fleet_net_lease_reconcile.go, and the answers of what surrounds it.
use runtime_service.Base.{ℕ, Bool, ℤ, List, Option, Text}
use runtime_service.Errors.{Result}
use runtime_service.Fleet.Host.{Host}
use runtime_service.Fleet.Replica.{Replica, ReplicaState}
use runtime_service.Net.Lease.{Address, TapName, NetLease, NetLeaseOwnerKind}

pub data ImageWorkloadState : Type 0 where
  booting running exited failed : ImageWorkloadState
  other_state : Text → ImageWorkloadState

-- The columns of a workload that the reconcile reads.
pub record ImageWorkload : Type 0 where
  pub id : ℕ
  pub state : ImageWorkloadState
  pub guest_ip : Text
  pub host_port : ℤ
  pub port : ℤ
  pub rootfs_path : Text
  pub socket_path : Text
  pub tap_name : Text
  pub net_index : ℤ
  pub pid : Option ℤ

pub record ImageDecommissionInput : Type 0 where
  pub owner_kind : NetLeaseOwnerKind
  pub owner_id : ℕ
  pub pid : ℤ
  pub socket_path : Text
  pub tap_name : Text
  pub net_index : ℤ
  pub guest_ip : Text
  pub host_port : ℤ
  pub port : ℤ
  pub rootfs_path : Text

-- The state of the owner's row is in log lines only, and left out.
pub record LeaseOwner : Type 0 where
  pub terminal : Bool
  pub pid : ℤ
  pub guest_ip : Text
  pub tap_name : Text
  pub handle : ImageDecommissionInput

pub record NetLeaseReconcileReport : Type 0 where
  pub host_ordinal : ℤ
  pub leases : ℕ
  pub adopted : ℕ
  pub torn_down : ℕ
  pub reclaimed : ℕ
  pub left : ℕ

pub record Reconciler : Type 0 where
  pub has_stores : Bool
  pub self_host : ℕ
  pub uid_base : ℤ

-- The answers of the stores, the kernel and the clock, by the number of calls made so far, and how a text
-- of a row reads as an address and as a device name. The driver and the reclaimer may be missing.
pub record Outside : Type 0 where
  pub address : Text → Address
  pub device : Text → TapName
  pub find_host : ℕ → ℕ → Result Host
  pub leases_of : ℕ → ℕ → Result (List NetLease)
  pub release : ℕ → NetLeaseOwnerKind → ℕ → Result (Unit {0})
  pub find_replica : ℕ → ℕ → Result Replica
  pub replicas_in : ℕ → ReplicaState → Result (List Replica)
  pub find_workload : ℕ → ℕ → Result ImageWorkload
  pub active_workloads : ℕ → Result (List ImageWorkload)
  pub proc_alive : ℕ → ℤ → Bool
  pub now : ℕ → ℤ
  pub booter : Option (ℕ → ImageDecommissionInput → Result (Unit {0}))
  pub reclaimer : Option (ℕ → NetLease → Result (Unit {0}))

-- What the process did or tried to do, with the lease, and its owner as it was read.
pub data Event : Type 0 where
  torn_down : NetLease → LeaseOwner → Event
  cleared : NetLease → Event
  released : NetLease → Option LeaseOwner → Event

-- The log is newest first.
pub record State : Type 0 where
  pub calls : ℕ
  pub report : NetLeaseReconcileReport
  pub log : List Event
