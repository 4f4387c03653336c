-- ===== src/Fleet/Host.antt =====
-- internal/domain/fleet_host.go. An enumeration over strings has a constructor for any other string.
-- Ids are 128-bit numbers (0 is uuid.Nil), instants and durations are integers of nanoseconds.
use runtime_service.Base.{ℕ, Bool, true, false, ℤ, List, Option, Text}

pub data HostHealth : Type 0 where
  unknown healthy degraded unhealthy : HostHealth
  other_health : Text → HostHealth

unfoldable pub health_is_valid : HostHealth → Bool
health_is_valid unknown = true
health_is_valid healthy = true
health_is_valid degraded = true
health_is_valid unhealthy = true
health_is_valid (other_health _) = false

pub data HostStatus : Type 0 where
  active draining cordoned decommissioned : HostStatus
  other_status : Text → HostStatus

unfoldable pub status_is_valid : HostStatus → Bool
status_is_valid active = true
status_is_valid draining = true
status_is_valid cordoned = true
status_is_valid decommissioned = true
status_is_valid (other_status _) = false

pub record Host : Type 0 where
  pub id : ℕ
  pub region : Text
  pub failure_domain : Text
  pub labels : List (Text × Text)
  pub capacity_vcpu : ℤ
  pub capacity_mem_mb : ℤ
  pub capacity_disk_mb : ℤ
  pub allocatable_vcpu : ℤ
  pub allocatable_mem_mb : ℤ
  pub allocatable_disk_mb : ℤ
  pub health : HostHealth
  pub status : HostStatus
  pub endpoint : Text
  pub net_ordinal : Option ℤ
  pub last_heartbeat : Option ℤ
  pub created_at : ℤ
  pub updated_at : ℤ
