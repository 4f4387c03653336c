-- ===== src/Net/Allocator/Quiet.antt =====
-- Acquire and Release of internal/usecase/fleet_net_allocator.go while no other process changes the
-- table and no call fails.
use runtime_service.Base.{ℕ, suc, ◌≡◌, refl, inl, inr, false, ==_iff, List, []}
use runtime_service.Errors.{Result, ok, Result-cases}
use runtime_service.Net.Lease.{NetLease, NetLeaseOwnerKind}
use runtime_service.Net.Table.{apply_all-nil, owned_by}
use runtime_service.Net.Table
use runtime_service.Net.Table.Fences.{Fenced, find_by_owner_complete}
use runtime_service.Net.Allocator.{
  FleetNetAllocator, Outside, World, find_by_owner, call, preconditions, adopt_or_allocate, look_up,
  acquire, ◌>>=◌,
}
use runtime_service.Net.Allocator.Held.{acquire-IsOwn, acquire_stays-Fenced}

-- No other process acts, and no call fails.
abbrev pub IsQuiet : Outside → Type 0
IsQuiet out = (n : ℕ) → (out.changes n ≡ []) × (out.fails n ≡ false)

module _ (out : Outside) (quiet : IsQuiet out) where
  pub call-quiet :
      {A : Type 0} (op : List NetLease → Result A × List NetLease) (w : World)
      → call out op w ≡ ((op w.rows).0, record { rows = (op w.rows).1; calls = suc w.calls })
  unfolding call
  call-quiet op w = rw ((quiet w.calls).0, (quiet w.calls).1, apply_all-nil w.rows)

  pub find-quiet :
      (kind : NetLeaseOwnerKind) (owner : ℕ) (w : World)
      → find_by_owner out kind owner w
        ≡ (Table.find_by_owner kind owner w.rows, record { rows = w.rows; calls = suc w.calls })
  unfolding find_by_owner
  find-quiet kind owner w = call-quiet _ w

  module _ (a : FleetNetAllocator) (kind : NetLeaseOwnerKind) (owner : ℕ) where
    acquire-ok :
        (w : World) (l : NetLease)
        → (acquire out a kind owner w).0 ≡ ok l
        → preconditions a kind owner ≡ ok tt
    unfolding acquire
    acquire-ok w l h = elim (Result-cases (preconditions a kind owner)) [
      | inl (tt, e) ↦ e
      | inr (e, bad) ↦ let refused = (rw (bad, acquire, ◌>>=◌) at h) in cc
    ]

    acquire_held :
        (w : World) (l : NetLease)
        → preconditions a kind owner ≡ ok tt
        → Table.find_by_owner kind owner w.rows ≡ ok l
        → l.host_id ≡ a.self_host
        → ((acquire out a kind owner w).0 ≡ ok l) × ((acquire out a kind owner w).1.rows ≡ w.rows)
    unfolding acquire look_up adopt_or_allocate
    acquire_held w l pre found here =
        let same = (==_iff _ _).1 here in
        rw (pre, find-quiet kind owner w, found, same) (refl, refl)

    -- While nothing else touches the table, whose fences hold, and no call fails: an Acquire for an owner
    -- that has just been given a lease returns that lease again and leaves the table as it is.
    pub acquire_twice :
        (w : World) (l : NetLease)
        → Fenced w.rows
        → (acquire out a kind owner w).0 ≡ ok l
        → let w' = (acquire out a kind owner w).1 in
          ((acquire out a kind owner w').0 ≡ ok l)
          × ((acquire out a kind owner w').1.rows ≡ w'.rows)
    acquire_twice w l f h =
        let fenced = acquire_stays-Fenced out a kind owner w f in
        let (m, own) = acquire-IsOwn out a kind owner w l f h in
        let found = find_by_owner_complete kind owner _ l fenced m own.0 own.1 in
        acquire_held _ l (acquire-ok w l h) found own.2
