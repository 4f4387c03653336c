-- ===== src/Net/Allocator/Free.antt =====
-- A free slot of a host of internal/usecase/fleet_net_allocator.go, and the lease that it has.
use runtime_service.Base.{
  ℕ, ◌≤◌, ◌≡◌, refl, inl, inr, Bool, true, false, ℤ, pos, ◌+ℤ◌, ◌≤ℤ◌, leb_ℤ, wrap, List, [], ◌∷◌,
  ◌++◌, Memᴰ, first_absent, first, Option-cases, dec_lt, arith,
}
use runtime_service.Errors.{ok, err, fence, net_lease_not_found}
use runtime_service.Net.Lease.{
  NetLease, NetLeaseOwnerKind, kind_is_valid, coordinates, net_index_of,
}
use runtime_service.Net.Lease.Coordinates.{derive_exact}
use runtime_service.Net.Table.{owned_by, clashes, row_is_legal}
use runtime_service.Net.Table
use runtime_service.Net.Allocator.{
  FleetNetAllocator, lowest_free, stamp, preconditions, lease_of_slot,
}
use runtime_service.Net.Allocator.Search.{is_taken, lowest_free-IsLowest}
use runtime_service.Net.Allocator.Room.{HasUids, uid_value, lease_at}

-- The configuration has room for a uid of every slot.
abbrev pub IsConfigured : FleetNetAllocator → Type 0
IsConfigured a =
    (pos 0 ≤ℤ a.ordinal)
    × (a.ordinal ≤ℤ pos 15)
    × HasUids a
    × (pos 1024 ≤ℤ a.uid_span)
    × (a.uid_span ≤ℤ pos 2147483647)

clash : {b : Bool} → b ≡ true → b ≡ false → ⊥
clash h k = cc

pub taken_append : (taken : List ℤ) (s : ℕ) → is_taken (taken ++ []) s ≡ is_taken taken s
taken_append [] s = refl
taken_append (x ∷ taken) s = ground (arith, taken_append taken s)

span_room :
    (a : FleetNetAllocator) (s : ℕ)
    → HasUids a
    → pos 1024 ≤ℤ a.uid_span
    → a.uid_span ≤ℤ pos 2147483647
    → s ≤ 1023
    → leb_ℤ
        (wrap (a.uid_base +ℤ a.uid_span))
        (coordinates a.ordinal (pos s) a.uid_base (net_index_of a.ordinal (pos s))).vm_uid
      ≡ false
unfolding coordinates wrap ◌+ℤ◌
span_room a s uids span span_most most = ground arith

pub lease_of_slot-ok :
    (a : FleetNetAllocator) (s : ℕ)
    → IsConfigured a
    → 1 ≤ s
    → s ≤ 1023
    → lease_of_slot a s
      ≡ ok (coordinates a.ordinal (pos s) a.uid_base (net_index_of a.ordinal (pos s)))
unfolding lease_of_slot
lease_of_slot-ok a s (low, high, uids, span, span_most) least most =
    elim (derive_exact a.ordinal (pos s) a.uid_base) [
      | inr (refused, out) ↦ absurd (out (low, high, omega arith, omega arith, uids.0))
      | inl (range, derived) ↦
          rw (derived, lease_of_slot, span_room a s uids span span_most most) refl
    ]

pub legal :
    (a : FleetNetAllocator) (kind : NetLeaseOwnerKind) (owner id now s : ℕ)
    → IsConfigured a
    → kind_is_valid kind ≡ true
    → 1 ≤ s
    → s ≤ 1023
    → row_is_legal (lease_at a kind owner id now s) ≡ true
unfolding row_is_legal coordinates stamp net_index_of
legal a kind owner id now s (low, high, uids, span, span_most) valid least most =
    rw (valid, uid_value a s uids most) (ground arith)

pub free_slot :
    (taken : List ℤ) (t : ℕ)
    → 1 ≤ t
    → t ≤ 1023
    → is_taken taken t ≡ false
    → (s : ℕ) × (lowest_free 1023 1 taken ≡ s) × (1 ≤ s) × (s ≤ t) × (is_taken taken s ≡ false)
free_slot taken t least most free = elim (lowest_free-IsLowest 1023 1 taken) [
  | inl (none_left, all) ↦ let full = all t least (omega arith) in absurd (clash full free)
  | inr (low, high, s_free, all) ↦ (
    lowest_free 1023 1 taken,
    refl,
    low,
    elim (dec_lt t (lowest_free 1023 1 taken)) [
      | yes below ↦ absurd (clash (all t least below) free)
      | no above ↦ omega arith
    ],
    s_free,
  )
]

pub absent_rows :
    (kind : NetLeaseOwnerKind) (owner : ℕ) (rows : List NetLease)
    → Table.find_by_owner kind owner rows ≡ err (fence net_lease_not_found)
    → (r : NetLease) → Memᴰ r rows
    → owned_by kind owner r ≡ false
unfolding Table.find_by_owner
absent_rows kind owner rows missing = elim (Option-cases (first (owned_by kind owner) rows)) [
  | inl e ↦ first_absent (owned_by kind owner) rows e
  | inr (m, e) ↦ let found : ok m ≡ err (fence net_lease_not_found) = rw e at missing in absurd (cc)
]

pub valid_kind :
    (a : FleetNetAllocator) (kind : NetLeaseOwnerKind) (owner : ℕ)
    → preconditions a kind owner ≡ ok tt
    → kind_is_valid kind ≡ true
unfolding preconditions kind_is_valid
valid_kind a kind owner pre = ground arith
