-- ===== src/Net/Allocator/Room.antt =====
-- The rows that a new lease of internal/usecase/fleet_net_allocator.go has to fit between.
use runtime_service.Base.{
  ℕ, ◌+◌, ◌*◌, ◌≤◌, ◌<◌, ◌≡◌, ◌≢◌, refl, ◌⊎◌, inl, inr, true, false, ◌&&◌, ◌==◌, pos, pos_part,
  ◌+ℤ◌, ◌≤ℤ◌, eq_ℤ, wrap, List, [], ◌∷◌, All, Memᴰ, some_of, Bool-cases, arith,
}
use runtime_service.Net.Lease.{NetLease, NetLeaseOwnerKind, kind_eq, img, coordinates, net_index_of}
use runtime_service.Net.Table.{owned_by, clashes}
use runtime_service.Net.Table
use runtime_service.Net.Table.Fences.{kind_eq→eq, kind_eq_refl}
use runtime_service.Net.Allocator.{FleetNetAllocator, stamp}
use runtime_service.Net.Allocator.Search.{is_taken}

module _ (a : FleetNetAllocator) where
  -- A row of the allocator's host, with the coordinates of its slot.
  abbrev pub IsOurs : NetLease → Type 0
  IsOurs r =
      (r.host_id ≡ a.self_host)
      × ((s : ℕ) × (s ≤ 1023)
          × (r.local_slot ≡ pos s)
          × (r.net_index ≡ net_index_of a.ordinal (pos s))
          × (r.vm_uid ≡ wrap (a.uid_base +ℤ pos s))
          × (r.tap_name ≡ img (pos s)))

  -- A row of another host, with a net index of another block of 1024.
  abbrev pub IsForeign : NetLease → Type 0
  IsForeign r =
      (r.host_id ≢ a.self_host)
      × ((pos_part r.net_index < pos_part a.ordinal * 1024)
          ⊎ ((pos_part a.ordinal + 1) * 1024 ≤ pos_part r.net_index))

  abbrev pub IsPlaced : NetLease → Type 0
  IsPlaced r = IsOurs r ⊎ IsForeign r

  -- The uids of all slots are positive numbers of 32 bits.
  abbrev pub HasUids : Type 0
  HasUids = (pos 1 ≤ℤ a.uid_base) × (a.uid_base ≤ℤ pos 2147482624)

  pub uid_value :
      (s : ℕ) → HasUids → s ≤ 1023 → wrap (a.uid_base +ℤ pos s) ≡ pos (pos_part a.uid_base + s)
  unfolding wrap ◌+ℤ◌
  uid_value s h k = ground arith

  kind_eq_flip : (j k : NetLeaseOwnerKind) → kind_eq j k ≡ false → kind_eq k j ≡ false
  kind_eq_flip j k h = elim (Bool-cases (kind_eq k j)) [
    | inr other ↦ other
    | inl same ↦
        let e : k ≡ j = kind_eq→eq k j same in
        let both : kind_eq j k ≡ true = rw e (kind_eq_refl j) in cc
  ]

  not_owner :
      (kind : NetLeaseOwnerKind) (owner : ℕ) (r : NetLease)
      → owned_by kind owner r ≡ false
      → (kind_eq kind r.owner_kind && owner == r.owner_id) ≡ false
  not_owner kind owner r h = elim (Bool-cases (kind_eq r.owner_kind kind)) [
    | inr other ↦ rw (kind_eq_flip r.owner_kind kind other) refl
    | inl same ↦ ground arith
  ]

  -- The lease of a slot as it is inserted.
  abbrev pub lease_at : NetLeaseOwnerKind → ℕ → ℕ → ℕ → ℕ → NetLease
  lease_at kind owner id now s =
      stamp a kind owner id now
        (coordinates a.ordinal (pos s) a.uid_base (net_index_of a.ordinal (pos s)))

  ours_apart :
      (kind : NetLeaseOwnerKind) (owner id now s : ℕ) (r : NetLease)
      → HasUids
      → s ≤ 1023
      → IsOurs r
      → eq_ℤ (pos s) r.local_slot ≡ false
      → owned_by kind owner r ≡ false
      → clashes (lease_at kind owner id now s) r ≡ false
  unfolding clashes coordinates stamp net_index_of
  ours_apart kind owner id now s r uids most (here, (t, t_most, slot, index, uid, tap)) free other =
      let owner_apart = not_owner kind owner r other in
      let value_s = uid_value s uids most in
      let value_t = uid_value t uids t_most in
      let apart : (s == t) ≡ false = let f = (rw slot at free) in ground arith in
      rw (slot, index, uid, tap, value_s, value_t) (ground arith)

  foreign_apart :
      (kind : NetLeaseOwnerKind) (owner id now s : ℕ) (r : NetLease)
      → s ≤ 1023
      → IsForeign r
      → owned_by kind owner r ≡ false
      → clashes (lease_at kind owner id now s) r ≡ false
  unfolding clashes coordinates stamp net_index_of
  foreign_apart kind owner id now s r most (there, block) other =
      let owner_apart = not_owner kind owner r other in ground arith

  pub rows_apart :
      (kind : NetLeaseOwnerKind) (owner id now s : ℕ) (rows : List NetLease)
      → HasUids
      → s ≤ 1023
      → All IsPlaced rows
      → is_taken (Table.used_slots a.self_host rows) s ≡ false
      → ((r : NetLease) → Memᴰ r rows → owned_by kind owner r ≡ false)
      → some_of (clashes (lease_at kind owner id now s)) rows ≡ false
  unfolding Table.used_slots
  rows_apart kind owner id now s [] uids most all free other = refl
  rows_apart kind owner id now s (r ∷ rows) uids most (inr foreign, all) free other =
      let skipped : (r.host_id == a.self_host) ≡ false = ground arith in
      rw (foreign_apart kind owner id now s r most foreign (other r (Memᴰ.head refl))) (
        rows_apart kind owner id now s rows uids most all (rw skipped at free)
          (λ q m. other q (Memᴰ.tail m)))
  rows_apart kind owner id now s (r ∷ rows) uids most (inl ours, all) free other =
      let counted : (r.host_id == a.self_host) ≡ true = ground arith in
      let free' = (rw counted at free) in
      let first_free : eq_ℤ (pos s) r.local_slot ≡ false = ground arith in
      rw (ours_apart kind owner id now s r uids most ours first_free (other r (Memᴰ.head refl))) (
        rows_apart kind owner id now s rows uids most all (ground arith)
          (λ q m. other q (Memᴰ.tail m)))
