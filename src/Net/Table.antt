-- ===== src/Net/Table.antt =====
-- The lease table: internal/repository/postgres/fleet_net_lease_repo.go over the constraints of
-- migrations/0020_fleet_net_leases.up.sql. The rows are a list, newest first.
pub mod Fences
pub mod Distinct
use runtime_service.Base.{
  ℕ, Bool, true, false, not, ◌&&◌, ◌||◌, ◌==◌, if◌then◌else◌, ℤ, pos, leb_ℤ, ltb_ℤ, eq_ℤ, List, [],
  ◌∷◌, map, ◌≡◌, refl, Option, none, some, first, select, some_of,
}
use runtime_service.Errors.{
  Err, fence, external, net_lease_conflict, net_lease_not_found, Result, ok, err,
}
use runtime_service.Net.Lease.{NetLease, NetLeaseOwnerKind, kind_is_valid, kind_eq, tap_eq}

-- The rows that an owner holds.
abbrev pub owned_by : NetLeaseOwnerKind → ℕ → NetLease → Bool
owned_by kind owner l = kind_eq l.owner_kind kind && l.owner_id == owner

-- Whether one of the five unique indexes tells the two rows apart from one another no longer.
unfoldable pub clashes : NetLease → NetLease → Bool
clashes l m =
    eq_ℤ l.net_index m.net_index
    || (l.host_id == m.host_id
        && (eq_ℤ l.local_slot m.local_slot
            || (eq_ℤ l.vm_uid m.vm_uid || tap_eq l.tap_name m.tap_name)))
    || owned_by m.owner_kind m.owner_id l

-- The CHECK constraints, and the range of the INT column of the uid.
unfoldable pub row_is_legal : NetLease → Bool
unfolding kind_is_valid
row_is_legal l =
    kind_is_valid l.owner_kind
    && ltb_ℤ (pos 0) l.local_slot
    && (ltb_ℤ (pos 0) l.net_index && leb_ℤ l.net_index (pos 16383))
    && (ltb_ℤ (pos 0) l.vm_uid && leb_ℤ l.vm_uid (pos 2147483647))

-- A rejected row by another constraint than a unique one.
abbrev pub check_violation : Err
check_violation = external 0

unfoldable pub acquire : NetLease → List NetLease → Result (Unit {0}) × List NetLease
acquire l rows =
    if some_of (clashes l) rows
    then (err (fence net_lease_conflict), rows)
    else if row_is_legal l
    then (ok tt, l ∷ rows)
    else (err check_violation, rows)

unfoldable pub used_slots : ℕ → List NetLease → List ℤ
used_slots host rows = map (λ l. l.local_slot) (select (λ l. l.host_id == host) rows)

abbrev pub or_not_found : Option NetLease → Result NetLease
or_not_found none = err (fence net_lease_not_found)
or_not_found (some l) = ok l

unfoldable pub find_by_owner : NetLeaseOwnerKind → ℕ → List NetLease → Result NetLease
find_by_owner kind owner rows = or_not_found (first (owned_by kind owner) rows)

unfoldable pub list_by_host : ℕ → List NetLease → List NetLease
list_by_host host rows = select (λ l. l.host_id == host) rows

unfoldable pub release : NetLeaseOwnerKind → ℕ → List NetLease → List NetLease
release kind owner rows = select (λ l. not (owned_by kind owner l)) rows

-- What other processes of the fleet do to the table between two calls of one process.
pub data Change : Type 0 where
  inserts : NetLease → Change
  deletes : NetLeaseOwnerKind → ℕ → Change

pub apply : Change → List NetLease → List NetLease
unfolding acquire release
apply (inserts l) rows = (acquire l rows).1
apply (deletes kind owner) rows = release kind owner rows

unfoldable pub apply_all : List Change → List NetLease → List NetLease
unfolding apply
apply_all [] rows = rows
apply_all (c ∷ cs) rows = apply_all cs (apply c rows)

pub apply_all-nil : (rows : List NetLease) → apply_all [] rows ≡ rows
unfolding apply_all
apply_all-nil rows = refl
