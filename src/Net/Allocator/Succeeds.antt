-- ===== src/Net/Allocator/Succeeds.antt =====
-- Acquire of internal/usecase/fleet_net_allocator.go on a host that has a free slot.
use runtime_service.Base.{
  ℕ, suc, ◌≤◌, ◌≡◌, refl, sym, ap, ◌∙◌, true, false, ◌==◌, ℤ, pos, List, [], ◌∷◌, ◌++◌, All,
  some_of, arith,
}
use runtime_service.Errors.{ok, err, fence, net_lease_not_found}
use runtime_service.Net.Lease.{NetLease, NetLeaseOwnerKind, coordinates, net_index_of}
use runtime_service.Net.Table.{owned_by, clashes, row_is_legal}
use runtime_service.Net.Table
use runtime_service.Net.Allocator.{
  FleetNetAllocator, Outside, World, M, lowest_free, stamp, used_slots, insert, preconditions,
  lease_of_slot, after_insert, try_insert, claim, attempts, adopt_or_allocate, look_up, acquire,
  ◌>>=◌,
}
use runtime_service.Net.Allocator.Search.{is_taken}
use runtime_service.Net.Allocator.Quiet.{IsQuiet, call-quiet, find-quiet}
use runtime_service.Net.Allocator.Room.{IsPlaced, lease_at, rows_apart}
use runtime_service.Net.Allocator.Free.{
  IsConfigured, taken_append, lease_of_slot-ok, legal, free_slot, absent_rows, valid_kind,
}

bind-eq :
    {A B : Type 0} (m : M A) (f : A → M B) (w : World) (x : A) (v : World)
    → m w ≡ (ok x, v)
    → (m >>= f) w ≡ f x v
bind-eq {A} {B} m f w x v e =
    let value : (m w).0 ≡ ok x = ap (λ r. r.0) e in
    let after : (m w).1 ≡ v = ap (λ r. r.1) e in rw (value, ◌>>=◌, after) refl

module _ (out : Outside) (quiet : IsQuiet out) (a : FleetNetAllocator) (kind : NetLeaseOwnerKind)
    (owner : ℕ) where
  -- The lease of a slot, inserted at the calls counted so far.
  abbrev pub lease_now : World → ℕ → NetLease
  lease_now w s = lease_at a kind owner (out.new_id w.calls) (out.now w.calls) s

  inserted :
      (w : World) (l : NetLease)
      → some_of (clashes l) w.rows ≡ false
      → row_is_legal l ≡ true
      → (insert out l w).0 ≡ ok tt
  unfolding insert Table.acquire
  inserted w l apart good =
      ap (λ r. r.0) (call-quiet out quiet (Table.acquire l) w) ∙ rw (apart, good) refl

  tried :
      (retry : M NetLease) (w : World) (s : ℕ)
      → some_of (clashes (lease_now w s)) w.rows ≡ false
      → row_is_legal (lease_now w s) ≡ true
      → (try_insert out a kind owner retry
          (coordinates a.ordinal (pos s) a.uid_base (net_index_of a.ordinal (pos s)))
          w).0
        ≡ ok (lease_now w s)
  unfolding try_insert after_insert
  tried retry w s apart good = rw (inserted w (lease_now w s) apart good) refl

  claimed :
      (retry : M NetLease) (w : World) (s : ℕ)
      → 1 ≤ s
      → lease_of_slot a s
        ≡ ok (coordinates a.ordinal (pos s) a.uid_base (net_index_of a.ordinal (pos s)))
      → some_of (clashes (lease_now w s)) w.rows ≡ false
      → row_is_legal (lease_now w s) ≡ true
      → (claim out a kind owner retry s w).0 ≡ ok (lease_now w s)
  unfolding claim
  claimed retry w s least derived apart good =
      let some_slot : (s == 0) ≡ false = ground arith in
      rw (some_slot, derived) (tried retry w s apart good)

  slots-quiet :
      (w : World)
      → used_slots out a.self_host w
        ≡ (ok (Table.used_slots a.self_host w.rows), record { rows = w.rows; calls = suc w.calls })
  unfolding used_slots
  slots-quiet w = call-quiet out quiet (λ rows. (ok (Table.used_slots a.self_host rows), rows)) w

  attempted :
      (w : World) (n s : ℕ)
      → lowest_free 1023 1 (Table.used_slots a.self_host w.rows ++ []) ≡ s
      → 1 ≤ s
      → lease_of_slot a s
        ≡ ok (coordinates a.ordinal (pos s) a.uid_base (net_index_of a.ordinal (pos s)))
      → let w' : World = record { rows = w.rows; calls = suc w.calls } in
        some_of (clashes (lease_now w' s)) w.rows ≡ false
        → row_is_legal (lease_now w' s) ≡ true
        → (attempts out a kind owner (suc n) [] w).0 ≡ ok (lease_now w' s)
  unfolding attempts
  attempted w n s lowest least derived apart good =
      let v : World = record { rows = w.rows; calls = suc w.calls } in
      let used : List ℤ = Table.used_slots a.self_host w.rows in
      let slot : List ℤ → ℕ = λ us. lowest_free 1023 1 (us ++ []) in
      let retry : List ℤ → M NetLease =
        λ us. λ u. attempts out a kind owner n (pos (slot us) ∷ []) u in
      ap (λ r. r.0)
        (bind-eq (used_slots out a.self_host) (λ us. claim out a kind owner (retry us) (slot us)) w
          used v (slots-quiet w))
      ∙ rw lowest
          (claimed (λ u. attempts out a kind owner n (pos s ∷ []) u) v s least derived apart good)

  acquire_runs :
      (w : World)
      → preconditions a kind owner ≡ ok tt
      → Table.find_by_owner kind owner w.rows ≡ err (fence net_lease_not_found)
      → (acquire out a kind owner w).0
        ≡ (attempts out a kind owner 32 [] (record { rows = w.rows; calls = suc w.calls })).0
  unfolding acquire look_up adopt_or_allocate
  acquire_runs w pre missing = rw (pre, find-quiet out quiet kind owner w, missing) refl

  slot_of :
      (id now s : ℕ)
      → let l = lease_at a kind owner id now s in
        (l.local_slot ≡ pos s)
        × (l.host_id ≡ a.self_host)
        × (l.owner_kind ≡ kind)
        × (l.owner_id ≡ owner)
  unfolding stamp coordinates
  slot_of id now s = (refl, refl, refl, refl)

  -- While nothing else touches the table and no call fails: if the preconditions of Acquire hold, the
  -- ordinal is in range and every slot has a uid in the span, the rows of this host have the coordinates
  -- of their slots and those of other hosts lie in other blocks, the owner holds no lease, and some slot
  -- from 1 to 1023 is on no row of this host, then Acquire gives the owner a lease on this host, in a
  -- slot that was free and is no higher than that one.
  pub acquire_succeeds :
      (w : World) (t : ℕ)
      → IsConfigured a
      → preconditions a kind owner ≡ ok tt
      → Table.find_by_owner kind owner w.rows ≡ err (fence net_lease_not_found)
      → All (IsPlaced a) w.rows
      → 1 ≤ t
      → t ≤ 1023
      → is_taken (Table.used_slots a.self_host w.rows) t ≡ false
      → (s : ℕ) × (l : NetLease) × ((acquire out a kind owner w).0 ≡ ok l)
        × (s ≤ t)
        × (is_taken (Table.used_slots a.self_host w.rows) s ≡ false)
        × (l.local_slot ≡ pos s)
        × (l.host_id ≡ a.self_host)
        × (l.owner_kind ≡ kind)
        × (l.owner_id ≡ owner)
  acquire_succeeds w t config pre missing placed least most free =
      let used : List ℤ = Table.used_slots a.self_host w.rows in
      let v : World = record { rows = w.rows; calls = suc w.calls } in
      let v' : World = record { rows = w.rows; calls = suc (suc w.calls) } in
      let (s, lowest, s_least, s_low, s_free) =
        free_slot (used ++ []) t least most (taken_append used t ∙ free) in
      let unheld : is_taken used s ≡ false = sym (taken_append used s) ∙ s_free in
      let s_most : s ≤ 1023 = omega arith in
      let apart =
        rows_apart a kind owner (out.new_id v'.calls) (out.now v'.calls) s w.rows config.2 s_most
          placed unheld (absent_rows kind owner w.rows missing) in
      let good =
        legal a kind owner (out.new_id v'.calls) (out.now v'.calls) s config
          (valid_kind a kind owner pre) s_least s_most in
      let parts = slot_of (out.new_id v'.calls) (out.now v'.calls) s in
      let done =
        attempted v 31 s lowest s_least (lease_of_slot-ok a s config s_least s_most) apart good in
      (
        s,
        lease_now v' s,
        acquire_runs w pre missing ∙ done,
        s_low,
        unheld,
        parts.0,
        parts.1,
        parts.2,
        parts.3,
      )
