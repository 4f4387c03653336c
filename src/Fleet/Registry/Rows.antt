-- ===== src/Fleet/Registry/Rows.antt =====
-- The rows that registering a host and its heartbeats write.
use runtime_service.Base.{
  ℕ, ◌≡◌, refl, inl, inr, true, false, ℤ, ◌≤ℤ◌, Option, All, Bool-cases, arith,
}
use runtime_service.Errors.{Result, ok, err, is_ok}
use runtime_service.Fleet.Host.{healthy, HostStatus, active, status_is_valid, Host}
use runtime_service.Fleet.FailureDomain.{FailureDomain, parse_failure_domain}
use runtime_service.Fleet.Registry.{
  Stores, Write, created, updated, kept_status, refreshed, admitted, after_write, store_host,
  store_parsed, with_id, register_host, is_not_found, is_empty, ensure_net_ordinal,
}

-- A row with placement facts, whose allocatable resources are within its capacity.
abbrev pub IsWellFormed : Host → Type 0
IsWellFormed h =
    (is_ok (parse_failure_domain h.failure_domain) ≡ true)
    × (h.allocatable_vcpu ≤ℤ h.capacity_vcpu)
    × (h.allocatable_mem_mb ≤ℤ h.capacity_mem_mb)
    × (h.allocatable_disk_mb ≤ℤ h.capacity_disk_mb)
    × (h.health ≡ healthy)
    × (status_is_valid h.status ≡ true)

-- What a registration may write about a host, given the row found before it.
abbrev pub IsRegistered : Result Host → Write → Type 0
IsRegistered found (created h) = IsWellFormed h × (h.status ≡ active) × (is_ok found ≡ false)
IsRegistered found (updated h) =
    IsWellFormed h
    × ((old : Host) × (found ≡ ok old)
        × (h.id ≡ old.id)
        × (status_is_valid old.status ≡ true → h.status ≡ old.status))

kept_status_lem :
    (s : HostStatus)
    → (status_is_valid (kept_status s) ≡ true) × (status_is_valid s ≡ true → kept_status s ≡ s)
unfolding kept_status status_is_valid
kept_status_lem s = ground arith

refreshed-IsWellFormed :
    (now : ℤ) (old host : Host)
    → is_ok (parse_failure_domain host.failure_domain) ≡ true
    → IsWellFormed (refreshed now old host)
unfolding refreshed
refreshed-IsWellFormed now old host h =
    (h, ground arith, ground arith, ground arith, refl, (kept_status_lem old.status).0)

admitted-IsWellFormed :
    (now : ℤ) (host : Host)
    → is_ok (parse_failure_domain host.failure_domain) ≡ true
    → IsWellFormed (admitted now host)
unfolding admitted status_is_valid
admitted-IsWellFormed now host h = (h, ground arith, ground arith, ground arith, refl, refl)

after_write-All :
    (P : Write → Type 0) (row : Host) (w : Write) (r : Result (Unit {0})) (o : Result (Option ℤ))
    → P w
    → All P (after_write row w r o).1
after_write-All P row w (err e) o p = tt
after_write-All P row w (ok _) o p = (p, tt)

store_host-IsRegistered :
    (stores : Stores) (now : ℤ) (host : Host) (found : Result Host)
    → is_ok (parse_failure_domain host.failure_domain) ≡ true
    → All (IsRegistered found) (store_host stores now host found).1
unfolding refreshed admitted
store_host-IsRegistered stores now host (ok old) h =
    after_write-All (IsRegistered (ok old)) (refreshed now old host)
      (updated (refreshed now old host)) (stores.update (refreshed now old host))
      (ensure_net_ordinal stores old.id)
      (refreshed-IsWellFormed now old host h, (old, refl, refl, (kept_status_lem old.status).1))
store_host-IsRegistered stores now host (err e) h = elim (Bool-cases (is_not_found e)) [
  | inl absent ↦ rw absent (
      after_write-All (IsRegistered (err e)) (admitted now host) (created (admitted now host))
        (stores.create (admitted now host)) (ensure_net_ordinal stores host.id)
        (admitted-IsWellFormed now host h, refl, refl))
  | inr other ↦ rw other tt
]

store_parsed-IsRegistered :
    (stores : Stores) (now : ℤ) (host : Host) (parsed : Result FailureDomain)
    → parse_failure_domain host.failure_domain ≡ parsed
    → All (IsRegistered (stores.find_by_id host.id)) (store_parsed stores now host parsed).1
store_parsed-IsRegistered stores now host (err e) h = tt
store_parsed-IsRegistered stores now host (ok d) h =
    store_host-IsRegistered stores now host (stores.find_by_id host.id) (rw h refl)

-- Whatever the repositories answer, and whether or not registering a host succeeds, a row is written
-- only with a failure domain that parses, allocatable resources within the capacity, a healthy host and
-- a known status; a new row is active and is written only when no row was found, and a row that was
-- found keeps its id and, if it was a known one, its status: a host that is draining, cordoned or
-- decommissioned stays so.
pub register_host-IsRegistered :
    (stores : Stores) (now : ℤ) (fresh : ℕ) (host : Host)
    → All
        (IsRegistered (stores.find_by_id (with_id fresh host).id))
        (register_host stores now fresh host).1
unfolding register_host
register_host-IsRegistered stores now fresh host = elim (Bool-cases (is_empty host.region)) [
  | inl unset ↦ rw unset tt
  | inr set ↦ rw set (
      store_parsed-IsRegistered stores now (with_id fresh host)
        (parse_failure_domain host.failure_domain) refl)
]
