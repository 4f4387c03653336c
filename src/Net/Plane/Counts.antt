-- ===== src/Net/Plane/Counts.antt =====
-- The report of a pass against what the pass found and did, lease by lease.
use runtime_service.Base.{
  ℕ, suc, ◌≡◌, true, false, pos, ◌<ℤ◌, ◌≤ℤ◌, List, [], ◌∷◌, Option, none, some,
}
use runtime_service.Errors.{ok}
use runtime_service.Net.Lease.{NetLease, matches_addresses}
use runtime_service.Net.Plane.{
  Outside, Reconciler, LeaseOwner, NetLeaseReconcileReport, Event, released, State, M,
}
use runtime_service.Net.Plane.Pass
use runtime_service.Net.Plane.Orderly.{since_cleared, since_stopped, IsRead, HasEnded, NeverStarted}

-- The report and the log.
pub record Books : Type 0 where
  pub report : NetLeaseReconcileReport
  pub log : List Event

abbrev pub books : State → Books
books s = record { report = s.report; log = s.log }

-- The process that the row names was found alive, and the row has the lease's addresses.
abbrev pub IsAlive : Outside → NetLease → LeaseOwner → Type 0
IsAlive out lease o =
    (o.terminal ≡ false)
    × (pos 0 <ℤ o.pid)
    × ((n : ℕ) × (out.proc_alive n o.pid ≡ true))
    × (matches_addresses lease (out.address o.guest_ip) (out.device o.tap_name) ≡ true)

-- The row names no process, and the lease was found to be within the grace.
abbrev pub IsStarting : Outside → Reconciler → NetLease → LeaseOwner → Type 0
IsStarting out uc lease o =
    (o.terminal ≡ false)
    × (o.pid ≤ℤ pos 0)
    × ((n : ℕ) × (Pass.is_young out uc lease (out.now n) ≡ true))

-- The log after a lease is reclaimed, and after its owner is stopped before that.
abbrev pub since_reclaimed : Outside → NetLease → Option LeaseOwner → List Event → List Event
since_reclaimed out lease o log = released lease o ∷ since_cleared out.reclaimer lease log

-- One lease, counted under the heading of what was found and done.
pub data Settled (out : Outside) (uc : Reconciler) (lease : NetLease) (b : Books)
    : Books → Type 0 where
  as_adopted :
      (o : LeaseOwner)
      → IsRead out uc lease (some o)
      → IsAlive out lease o
      → Settled out uc lease b
          (record { report = record b.report { adopted = suc b.report.adopted }; log = b.log })
  as_left :
      (o : LeaseOwner)
      → IsRead out uc lease (some o)
      → IsStarting out uc lease o
      → Settled out uc lease b
          (record { report = record b.report { left = suc b.report.left }; log = b.log })
  as_ownerless :
      IsRead out uc lease none
      → Settled out uc lease b (record {
        report = record b.report { reclaimed = suc b.report.reclaimed };
        log = since_reclaimed out lease none b.log;
      })
  as_unstarted :
      (o : LeaseOwner)
      → IsRead out uc lease (some o)
      → NeverStarted out uc lease o
      → Settled out uc lease b (record {
        report = record b.report { reclaimed = suc b.report.reclaimed };
        log = since_reclaimed out lease (some o) b.log;
      })
  as_ended :
      (o : LeaseOwner)
      → IsRead out uc lease (some o)
      → HasEnded out uc o
      → Settled out uc lease b (record {
        report = record b.report {
          torn_down = suc b.report.torn_down;
          reclaimed = suc b.report.reclaimed;
        };
        log = since_reclaimed out lease (some o) (since_stopped out.booter lease o b.log);
      })

-- The leases in turn.
pub data SettledAll (out : Outside) (uc : Reconciler) : List NetLease → Books → Books → Type 0 where
  none_left : (b : Books) → SettledAll out uc [] b b
  next :
      (lease : NetLease) (leases : List NetLease) (b c d : Books)
      → Settled out uc lease b c
      → SettledAll out uc leases c d
      → SettledAll out uc (lease ∷ leases) b d

module _ (out : Outside) (uc : Reconciler) where
  -- An action that settles the lease when it succeeds.
  abbrev Settles : NetLease → M (Unit {0}) → Type 0
  Settles lease m = (s : State) → (m s).0 ≡ ok tt → Settled out uc lease (books s) (books (m s).1)
