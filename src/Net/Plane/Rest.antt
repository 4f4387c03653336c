-- ===== src/Net/Plane/Rest.antt =====
-- A host at rest: the tables and the processes stay as they are, and no call of a store fails.
pub mod Agrees
mod Clean
pub mod Running
pub mod Separate
use runtime_service.Base.{
  ℕ, suc, ◌≡◌, refl, inl, inr, ◌==◌, Bool, true, false, if◌then◌else◌, ℤ, List, [], ◌∷◌, Option,
  none, some, Text, text_eq, first, select,
}
use runtime_service.Errors.{
  Err, fleet, boot, replica_not_found, workload_not_found, Result, Result-cases, ok, err,
}
use runtime_service.Fleet.Host.{Host}
use runtime_service.Fleet.Replica.{
  Replica, ReplicaState, scheduled, booting, resident, paused, draining, dead, other_state,
}
use runtime_service.Net.Lease.{
  Address, TapName, NetLease, NetLeaseOwnerKind, replica, workload, unrecognized,
}
use runtime_service.Net.Table.{list_by_host}
use runtime_service.Net.Plane.{
  Outside, Reconciler, ImageWorkload, ImageWorkloadState, ImageDecommissionInput, State, M, ◌>>=◌,
  ◌>>◌, lift, pure, attempt, query, ask, each, or_unreconciled,
}

-- The driver, the reclaimer and the clock answer as they like.
pub record Facts : Type 0 where
  pub address : Text → Address
  pub device : Text → TapName
  pub host : Result Host
  pub leases : List NetLease
  pub replicas : List Replica
  pub workloads : List ImageWorkload
  pub alive : ℤ → Bool
  pub now : ℕ → ℤ
  pub booter : Option (ℕ → ImageDecommissionInput → Result (Unit {0}))
  pub reclaimer : Option (ℕ → NetLease → Result (Unit {0}))

abbrev pub in_state : ReplicaState → ReplicaState → Bool
in_state scheduled scheduled = true
in_state booting booting = true
in_state resident resident = true
in_state paused paused = true
in_state draining draining = true
in_state dead dead = true
in_state (other_state s) (other_state t) = text_eq s t
in_state _ _ = false

abbrev pub is_active : ImageWorkload → Bool
is_active w = elim w.state [
  | ImageWorkloadState.booting ↦ true
  | ImageWorkloadState.running ↦ true
  | _ ↦ false
]

abbrev or_missing : {A : Type 0} → Err → Option A → Result A
or_missing e none = err e
or_missing e (some a) = ok a

abbrev pub at_rest : Facts → Outside
at_rest f = record {
  address = f.address;
  device = f.device;
  find_host = λ n id. f.host;
  leases_of = λ n id. ok (list_by_host id f.leases);
  release = λ n kind id. ok tt;
  find_replica = λ n id. or_missing (fleet replica_not_found) (first (λ r. r.id == id) f.replicas);
  replicas_in = λ n state. ok (select (λ r. in_state state r.state) f.replicas);
  find_workload =
      λ n id. or_missing (boot workload_not_found) (first (λ w. w.id == id) f.workloads);
  active_workloads = λ n. ok (select is_active f.workloads);
  proc_alive = λ n pid. f.alive pid;
  now = f.now;
  booter = f.booter;
  reclaimer = f.reclaimer;
}

-- The answer does not depend on what was asked before.
abbrev pub IsFixed : {A : Type 0} → M A → Type 0
IsFixed m = (s t : State) → (m s).0 ≡ (m t).0

pub IsFixed-bind :
    {A B : Type 0} (m : M A) (f : A → M B)
    → IsFixed m
    → ((a : A) → IsFixed (f a))
    → IsFixed (m >>= f)
IsFixed-bind m f km kf s t = elim (Result-cases (m t).0) [
  | inl (a, e) ↦ rw (km s t, e, ◌>>=◌) (kf a (m s).1 (m t).1)
  | inr (g, e) ↦ rw (km s t, e, ◌>>=◌) refl
]

pub IsFixed-test :
    {A : Type 0} (test : Bool) (m n : M A) → IsFixed m → IsFixed n → IsFixed (if test then m else n)
IsFixed-test true m n km kn = km
IsFixed-test false m n km kn = kn

-- What succeeds once, succeeds with the same answer.
pub bind_then :
    {A B : Type 0} (m : M A) (f : A → M B) (s : State) (a : A) (r : Result B)
    → (m s).0 ≡ ok a
    → (f a (m s).1).0 ≡ r
    → ((m >>= f) s).0 ≡ r
bind_then m f s a r h k = rw (h, ◌>>=◌) k
