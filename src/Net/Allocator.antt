-- ===== src/Net/Allocator.antt =====
-- internal/usecase/fleet_net_allocator.go: Acquire and Release over the lease table, with the other
-- processes of the fleet and the database's faults between the calls. The counters and log lines
-- that Acquire writes are left out.
mod Search
mod Room
mod Calls
pub mod Held
pub mod Quiet
mod Release
mod Free
mod Succeeds
mod Tests
use runtime_service.Base.{
  ℕ, zero, suc, ◌+◌, Bool, true, false, not, ◌&&◌, ◌||◌, ◌==◌, if◌then◌else◌, ℤ, pos, ◌+ℤ◌, ltb_ℤ,
  leb_ℤ, eq_ℤ, wrap, List, [], ◌∷◌, ◌++◌, some_of,
}
use runtime_service.Errors.{
  Err, fence, external, net_coordinate_out_of_range, net_lease_conflict, net_lease_exhausted,
  net_lease_not_found, net_plane_unreconciled, host_net_ordinal_unset, Result, ok, err, refuse_if,
}
use runtime_service.Errors
use runtime_service.Net.Lease.{NetLease, NetLeaseOwnerKind, kind_is_valid, derive_net_lease}
use runtime_service.Net.Table
use runtime_service.Net.Table.{Change, apply_all}

pub record FleetNetAllocator : Type 0 where
  pub wired : Bool  -- whether a lease store is given
  pub self_host : ℕ
  pub ordinal : ℤ
  pub uid_base : ℤ
  pub uid_span : ℤ

-- What happens outside the process, by the number of database calls made so far: the changes that
-- others make before the call, whether the call fails with an error of the database, the id and the
-- time that the process draws.
pub record Outside : Type 0 where
  pub changes : ℕ → List Change
  pub fails : ℕ → Bool
  pub new_id : ℕ → ℕ
  pub now : ℕ → ℕ

pub record World : Type 0 where
  pub rows : List NetLease
  pub calls : ℕ

abbrev pub M : Type 0 → Type 0
M A = World → Result A × World

infixl 5 ◌>>=◌
abbrev pub ◌>>=◌ : {A B : Type 0} → M A → (A → M B) → M B
◌>>=◌ m f w = let (r, w') = m w in elim r [ ok a ↦ f a w' | err e ↦ (err e, w') ]

abbrev pub lift : {A : Type 0} → Result A → M A
lift r w = (r, w)

-- `x, err := m`: the error is a value that the code looks at.
abbrev pub attempt : {A : Type 0} → M A → M (Result A)
attempt m w = let (r, w') = m w in (ok r, w')

module _ (out : Outside) where
  -- A call of the database. The others come first; a call that fails changes nothing.
  pub call : {A : Type 0} → (List NetLease → Result A × List NetLease) → M A
  call op w =
      let rows = apply_all (out.changes w.calls) w.rows in
      let (r, rows') = op rows in
      if out.fails w.calls
      then (err (external w.calls), record { rows = rows; calls = suc w.calls })
      else (r, record { rows = rows'; calls = suc w.calls })

  pub find_by_owner : NetLeaseOwnerKind → ℕ → M NetLease
  find_by_owner kind owner = call (λ rows. (Table.find_by_owner kind owner rows, rows))

  pub used_slots : ℕ → M (List ℤ)
  used_slots host = call (λ rows. (ok (Table.used_slots host rows), rows))

  pub insert : NetLease → M (Unit {0})
  insert l = call (Table.acquire l)

  pub delete : NetLeaseOwnerKind → ℕ → M (Unit {0})
  delete kind owner = call (λ rows. (ok tt, Table.release kind owner rows))

-- `for candidate := 1; candidate <= NetMaxSlot; candidate++`, with the rounds left; 0 if none is free.
pub lowest_free : ℕ → ℕ → List ℤ → ℕ
lowest_free zero candidate taken = 0
lowest_free (suc rounds) candidate taken =
    let rest = lowest_free rounds (suc candidate) taken in
    if some_of (eq_ℤ (pos candidate)) taken then rest else candidate

abbrev pub is_not_found : Err → Bool
is_not_found (fence net_lease_not_found) = true
is_not_found _ = false

abbrev pub is_conflict : Err → Bool
is_conflict (fence net_lease_conflict) = true
is_conflict _ = false

-- The refusals at the head of acquire.
pub preconditions : FleetNetAllocator → NetLeaseOwnerKind → ℕ → Result (Unit {0})
unfolding kind_is_valid
preconditions a kind owner =
    if not a.wired
    then err (fence net_plane_unreconciled)
    else if not (kind_is_valid kind)
    then err (fence net_coordinate_out_of_range)
    else if owner == 0
    then err (fence net_coordinate_out_of_range)
    else if a.self_host == 0
    then err (fence host_net_ordinal_unset)
    else if ltb_ℤ a.ordinal (pos 0)
    then err (fence host_net_ordinal_unset)
    else ok tt

-- The lease of one slot, checked against the uid span.
pub lease_of_slot : FleetNetAllocator → ℕ → Result NetLease
lease_of_slot a slot = elim (derive_net_lease a.ordinal (pos slot) a.uid_base) [
  | err e ↦ err e
  | ok l ↦
      if leb_ℤ (wrap (a.uid_base +ℤ a.uid_span)) l.vm_uid
      then err (fence net_coordinate_out_of_range)
      else ok l
]

pub stamp : FleetNetAllocator → NetLeaseOwnerKind → ℕ → ℕ → ℕ → NetLease → NetLease
stamp a kind owner id now l = record l {
  id = id;
  host_id = a.self_host;
  owner_kind = kind;
  owner_id = owner;
  created_at = now;
  updated_at = now;
}

module _ (out : Outside) (a : FleetNetAllocator) (kind : NetLeaseOwnerKind) (owner : ℕ) where
  -- After a conflict: the lease that a concurrent boot of this owner holds here, or a retry.
  pub reuse_held : M NetLease → Result NetLease → M NetLease
  reuse_held retry (ok h) = if h.host_id == a.self_host then lift (ok h) else retry
  reuse_held retry (err _) = retry

  pub after_insert : NetLease → M NetLease → Result (Unit {0}) → M NetLease
  after_insert l retry (ok _) = lift (ok l)
  after_insert l retry (err e) =
      if is_conflict e
      then (do held ← attempt (find_by_owner out kind owner); reuse_held retry held)
      else lift (err e)

  -- The id and the times are drawn just before the insert.
  pub try_insert : M NetLease → NetLease → M NetLease
  try_insert retry l w =
      let row = stamp a kind owner (out.new_id w.calls) (out.now w.calls) l in
      (do r ← attempt (insert out row); after_insert row retry r) w

  -- One round of the retry loop.
  pub claim : M NetLease → ℕ → M NetLease
  claim retry slot =
      if slot == 0
      then lift (err (fence net_lease_exhausted))
      else (do l ← lift (lease_of_slot a slot); try_insert retry l)

  -- The retry loop, with the attempts left and the slots that were refused.
  pub attempts : ℕ → List ℤ → M NetLease
  attempts zero tried = lift (err (fence net_lease_conflict))
  attempts (suc n) tried = do
    used ← used_slots out a.self_host
    let slot = lowest_free 1023 1 (used ++ tried)
    claim (λ w. attempts n (pos slot ∷ tried) w) slot

  pub adopt_or_allocate : Result NetLease → M NetLease
  adopt_or_allocate (ok l) =
      if l.host_id == a.self_host then lift (ok l) else lift (err (fence net_lease_conflict))
  adopt_or_allocate (err e) = if is_not_found e then attempts 32 [] else lift (err e)

  pub look_up : M NetLease
  look_up = do existing ← attempt (find_by_owner out kind owner); adopt_or_allocate existing

  pub acquire : M NetLease
  acquire = do u ← lift (preconditions a kind owner); look_up

  pub release_held : Result NetLease → M (Unit {0})
  release_held (ok l) =
      if l.host_id == a.self_host
      then delete out kind owner
      else lift (err (fence net_lease_conflict))
  release_held (err e) = if is_not_found e then lift (ok tt) else lift (err e)

  pub look_up_and_release : M (Unit {0})
  look_up_and_release = do held ← attempt (find_by_owner out kind owner); release_held held

  pub release : M (Unit {0})
  unfolding kind_is_valid
  release =
      if not a.wired
      then lift (err (fence net_plane_unreconciled))
      else if not (kind_is_valid kind) || owner == 0
      then lift (err (fence net_coordinate_out_of_range))
      else look_up_and_release
