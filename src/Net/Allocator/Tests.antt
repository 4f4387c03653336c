-- ===== src/Net/Allocator/Tests.antt =====
-- The allocator and the lease table at concrete values: a host at ordinal 2 whose slot 1 is held.
use runtime_service.Base.{
  ◌⊎◌, ◌≤◌, arith, ℕ, ◌≡◌, refl, inl, inr, true, false, pos, [], ◌∷◌, Memᴰ, wrap, ◌+ℤ◌,
}
use runtime_service.Errors.{ok, err, fence, net_lease_not_found}
use runtime_service.Net.Lease.{
  NetLease, replica, coordinates, net_index_of, in_fleet_subnet, derive_net_lease, kind_is_valid,
}
use runtime_service.Net.Table.{owned_by, clashes, row_is_legal, apply_all}
use runtime_service.Net.Table
use runtime_service.Net.Table.Fences.{Fenced}
use runtime_service.Net.Table.Distinct.{Differ, Distinct}
use runtime_service.Net.Allocator.{
  FleetNetAllocator, Outside, World, lowest_free, stamp, call, find_by_owner, used_slots, insert,
  delete, preconditions, lease_of_slot, after_insert, try_insert, claim, attempts,
  adopt_or_allocate, look_up, acquire, release_held, look_up_and_release, release,
}
use runtime_service.Net.Allocator.Held.{IsOwn, acquire_keeps-Distinct, acquire-IsOwn}
use runtime_service.Net.Allocator.Quiet.{acquire_twice}
use runtime_service.Net.Allocator.Search.{is_taken}
use runtime_service.Net.Allocator.Room.{IsPlaced}
use runtime_service.Net.Allocator.Succeeds.{acquire_succeeds}
use runtime_service.Net.Allocator.Release.{release_forgets, release_spares}

abbrev here : FleetNetAllocator
here = record {
  wired = true;
  self_host = 9;
  ordinal = pos 2;
  uid_base = pos 100000;
  uid_span = pos 1024;
}

abbrev nobody : Outside
nobody = record { changes = λ n. []; fails = λ n. false; new_id = λ n. n; now = λ n. n }

abbrev row : ℕ → ℕ → NetLease
row slot owner =
    record (coordinates (pos 2) (pos slot) (pos 100000) (net_index_of (pos 2) (pos slot))) {
      id = 1;
      host_id = 9;
      owner_kind = replica;
      owner_id = owner;
      created_at = 2;
      updated_at = 2;
    }

abbrev start : World
start = record { rows = row 1 6 ∷ []; calls = 0 }

abbrev given : NetLease
given = record (row 2 7) { id = 2 }

nobody-IsQuiet : (n : ℕ) → (nobody.changes n ≡ []) × (nobody.fails n ≡ false)
nobody-IsQuiet n = (refl, refl)

start-Fenced : Fenced start.rows
start-Fenced = (refl, tt)

acquired : (acquire nobody here replica 7 start).0 ≡ ok given
unfolding acquire look_up adopt_or_allocate attempts claim try_insert after_insert find_by_owner
    used_slots insert call preconditions lease_of_slot stamp lowest_free derive_net_lease
    coordinates net_index_of in_fleet_subnet Table.acquire Table.used_slots Table.find_by_owner
    clashes row_is_legal apply_all kind_is_valid wrap ◌+ℤ◌
acquired = refl

released : (release nobody here replica 6 start).0 ≡ ok tt
unfolding release look_up_and_release release_held find_by_owner delete call Table.find_by_owner
    Table.release apply_all kind_is_valid coordinates
released = refl

start-Distinct : Distinct start.rows
start-Distinct = (tt, tt)

acquire_keeps-Distinct_example :
    let (r, w) = acquire nobody here replica 7 start in
    Distinct w.rows × ((l m : NetLease) → r ≡ ok l → Memᴰ m w.rows → (m ≡ l) ⊎ Differ l m)
acquire_keeps-Distinct_example = acquire_keeps-Distinct nobody here replica 7 start start-Distinct

acquire-IsOwn_example :
    Memᴰ given (acquire nobody here replica 7 start).1.rows × IsOwn nobody here replica 7 given
acquire-IsOwn_example = acquire-IsOwn nobody here replica 7 start given start-Fenced acquired

acquire_twice_example :
    let w = (acquire nobody here replica 7 start).1 in
    ((acquire nobody here replica 7 w).0 ≡ ok given)
    × ((acquire nobody here replica 7 w).1.rows ≡ w.rows)
acquire_twice_example =
    acquire_twice nobody nobody-IsQuiet here replica 7 start given start-Fenced acquired

release_forgets_example :
    Table.find_by_owner replica 6 (release nobody here replica 6 start).1.rows
    ≡ err (fence net_lease_not_found)
release_forgets_example = release_forgets nobody nobody-IsQuiet here replica 6 start released

release_spares_example : Memᴰ (row 1 6) (release nobody here replica 7 start).1.rows
unfolding coordinates
release_spares_example =
    release_spares nobody nobody-IsQuiet here replica 7 start (row 1 6) start-Fenced
      (Memᴰ.head refl) (inr refl)

preconditions_met : preconditions here replica 7 ≡ ok tt
unfolding preconditions kind_is_valid
preconditions_met = refl

missing : Table.find_by_owner replica 7 start.rows ≡ err (fence net_lease_not_found)
unfolding Table.find_by_owner coordinates
missing = refl

placed : IsPlaced here (row 1 6)
unfolding coordinates
placed = inl (refl, (1, omega arith, refl, refl, refl, refl))

free : is_taken (Table.used_slots 9 start.rows) 2 ≡ false
unfolding Table.used_slots coordinates
free = refl

acquire_succeeds_example :
    (s : ℕ) × (l : NetLease) × ((acquire nobody here replica 7 start).0 ≡ ok l)
    × (s ≤ 2)
    × (is_taken (Table.used_slots 9 start.rows) s ≡ false)
    × (l.local_slot ≡ pos s)
    × (l.host_id ≡ 9)
    × (l.owner_kind ≡ replica)
    × (l.owner_id ≡ 7)
acquire_succeeds_example =
    acquire_succeeds nobody nobody-IsQuiet here replica 7 start 2
      (omega arith, omega arith, (omega arith, omega arith), omega arith, omega arith)
      preconditions_met missing (placed, tt) (omega arith) (omega arith) free
