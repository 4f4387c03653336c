-- ===== src/Fleet/Registry.antt =====
-- internal/usecase/fleet_host_registry.go. The repositories answer with values, the clock and
-- uuid.New are values too, and the host rows that a call writes are listed in order. A nil map of
-- labels is the empty list, which is what the code replaces it by.
mod Rows
mod Live
mod Tests
use runtime_service.Base.{
  ℕ, Bool, true, false, not, ◌||◌, ◌==◌, if◌then◌else◌, ℤ, ◌-ℤ◌, ltb_ℤ, wrap, List, [], ◌∷◌, Option,
  none, some, Text, select,
}
use runtime_service.Errors.{
  Err, fleet, fleet_host_not_found, host_region_required, invalid_host_health, Result, ok, err,
}
use runtime_service.Fleet.Host.{
  HostHealth, healthy, health_is_valid, other_health, HostStatus, active, status_is_valid, Host,
}
use runtime_service.Fleet.FailureDomain.{FailureDomain, parse_failure_domain}

-- What the host repository and the lease store answer; none is a nil lease store.
pub record Stores : Type 0 where
  pub find_by_id : ℕ → Result Host
  pub update : Host → Result (Unit {0})
  pub create : Host → Result (Unit {0})
  pub list_by_status : HostStatus → Result (List Host)
  pub ensure_host_ordinal : Option (ℕ → Result ℤ)

pub data Write : Type 0 where
  created : Host → Write
  updated : Host → Write

abbrev pub Outcome : Type 0
Outcome = Result Host × List Write

abbrev pub is_empty : Text → Bool
is_empty [] = true
is_empty (_ ∷ _) = false

abbrev is_active : HostStatus → Bool
is_active active = true
is_active _ = false

abbrev pub is_healthy : HostHealth → Bool
is_healthy healthy = true
is_healthy _ = false

abbrev clamp : ℤ → ℤ → ℤ
clamp x limit = if ltb_ℤ limit x then limit else x

unfoldable pub kept_status : HostStatus → HostStatus
kept_status s = if is_active s || not (status_is_valid s) then active else s

-- The row of a known host after it registers again.
unfoldable pub refreshed : ℤ → Host → Host → Host
refreshed now old host = record old {
  region = host.region;
  failure_domain = host.failure_domain;
  labels = host.labels;
  capacity_vcpu = host.capacity_vcpu;
  capacity_mem_mb = host.capacity_mem_mb;
  capacity_disk_mb = host.capacity_disk_mb;
  allocatable_vcpu = clamp old.allocatable_vcpu host.capacity_vcpu;
  allocatable_mem_mb = clamp old.allocatable_mem_mb host.capacity_mem_mb;
  allocatable_disk_mb = clamp old.allocatable_disk_mb host.capacity_disk_mb;
  endpoint = host.endpoint;
  health = healthy;
  status = kept_status old.status;
  last_heartbeat = some now;
  updated_at = now;
}

-- The row of a new host.
unfoldable pub admitted : ℤ → Host → Host
admitted now host = record host {
  allocatable_vcpu = host.capacity_vcpu;
  allocatable_mem_mb = host.capacity_mem_mb;
  allocatable_disk_mb = host.capacity_disk_mb;
  health = healthy;
  status = active;
  last_heartbeat = some now;
  created_at = now;
  updated_at = now;
}

abbrev some_ordinal : Result ℤ → Result (Option ℤ)
some_ordinal (ok o) = ok (some o)
some_ordinal (err e) = err e

abbrev ordinal_from : Option (ℕ → Result ℤ) → ℕ → Result (Option ℤ)
ordinal_from none id = ok none
ordinal_from (some ensure) id = some_ordinal (ensure id)

unfoldable pub ensure_net_ordinal : Stores → ℕ → Result (Option ℤ)
ensure_net_ordinal stores id = ordinal_from stores.ensure_host_ordinal id

abbrev pub with_ordinal : Host → Result (Option ℤ) → Result Host
with_ordinal row (ok o) = ok (record row { net_ordinal = o })
with_ordinal row (err e) = err e

-- The end of both branches: a write that fails ends the call, and the ordinal comes after the write.
abbrev pub after_write : Host → Write → Result (Unit {0}) → Result (Option ℤ) → Outcome
after_write row w (err e) ordinal = (err e, [])
after_write row w (ok _) ordinal = (with_ordinal row ordinal, w ∷ [])

abbrev pub is_not_found : Err → Bool
is_not_found (fleet fleet_host_not_found) = true
is_not_found _ = false

abbrev pub store_host : Stores → ℤ → Host → Result Host → Outcome
store_host stores now host (ok old) =
    let row = refreshed now old host in
    after_write row (updated row) (stores.update row) (ensure_net_ordinal stores old.id)
store_host stores now host (err e) =
    let row = admitted now host in
    let admitting =
      after_write row (created row) (stores.create row) (ensure_net_ordinal stores host.id) in
    if is_not_found e then admitting else (err e, [])

abbrev pub with_id : ℕ → Host → Host
with_id fresh host = record host { id = if host.id == 0 then fresh else host.id }

abbrev pub store_parsed : Stores → ℤ → Host → Result FailureDomain → Outcome
store_parsed stores now host (err e) = (err e, [])
store_parsed stores now host (ok _) = store_host stores now host (stores.find_by_id host.id)

pub register_host : Stores → ℤ → ℕ → Host → Outcome
register_host stores now fresh host =
    if is_empty host.region
    then (err (fleet host_region_required), [])
    else store_parsed stores now (with_id fresh host) (parse_failure_domain host.failure_domain)

-- Heartbeat: the health of a report that states none is kept, and one that is no health is refused.
abbrev reported_health : HostHealth → HostHealth → Result HostHealth
reported_health (other_health []) old = ok old
reported_health h old = if health_is_valid h then ok h else err (fleet invalid_host_health)

abbrev pub after_update : Host → Result (Unit {0}) → Outcome
after_update row (ok _) = (ok row, updated row ∷ [])
after_update row (err e) = (err e, [])

abbrev pub beat : Stores → ℤ → ℤ → ℤ → ℤ → Host → Result HostHealth → Outcome
beat stores now vcpu mem disk host (err e) = (err e, [])
beat stores now vcpu mem disk host (ok h) =
    let row : Host = record host {
      health = h;
      allocatable_vcpu = vcpu;
      allocatable_mem_mb = mem;
      allocatable_disk_mb = disk;
      last_heartbeat = some now;
      updated_at = now;
    } in
    after_update row (stores.update row)

abbrev beat_found : Stores → ℤ → ℤ → ℤ → ℤ → HostHealth → Result Host → Outcome
beat_found stores now vcpu mem disk report (err e) = (err e, [])
beat_found stores now vcpu mem disk report (ok host) =
    beat stores now vcpu mem disk host (reported_health report host.health)

pub heartbeat : Stores → ℤ → ℕ → ℤ → ℤ → ℤ → HostHealth → Outcome
heartbeat stores now id vcpu mem disk report =
    beat_found stores now vcpu mem disk report (stores.find_by_id id)

-- ListLive, whose instants fit their type: now - staleness is exact.
abbrev pub is_fresh : ℤ → Option ℤ → Bool
is_fresh cutoff none = false
is_fresh cutoff (some t) = not (ltb_ℤ t cutoff)

unfoldable pub is_live : ℤ → Host → Bool
is_live cutoff h = if not (is_healthy h.health) then false else is_fresh cutoff h.last_heartbeat

abbrev live_of : ℤ → Result (List Host) → Result (List Host)
live_of cutoff (err e) = err e
live_of cutoff (ok hosts) = ok (select (is_live cutoff) hosts)

pub list_live : Stores → ℤ → ℤ → Result (List Host)
list_live stores now staleness = live_of (now -ℤ staleness) (stores.list_by_status active)
