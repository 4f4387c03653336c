-- ===== src/Fleet/Capacity.antt =====
-- internal/domain/fleet_host_capacity.go.
mod Bounds
mod Tests
use runtime_service.Base.{Bool, ◌&&◌, ◌||◌, if◌then◌else◌, ℤ, pos, ◌-ℤ◌, leb_ℤ, ltb_ℤ, wrap}
use runtime_service.Errors.{
  Err, fleet, host_capacity_unmeasured, host_capacity_over_advertised, host_disk_reserve_invalid,
  Result, ok, err, refuse_if, ◌>>◌,
}

pub record HostCapacityMeasurement : Type 0 where
  pub vcpu : ℤ
  pub mem_total_mb : ℤ
  pub disk_total_mb : ℤ
  pub disk_available_mb : ℤ

pub record HostCapacityOverride : Type 0 where
  pub vcpu : ℤ
  pub mem_mb : ℤ
  pub disk_mb : ℤ
  pub disk_reserve_mb : ℤ

pub record HostCapacity : Type 0 where
  pub vcpu : ℤ
  pub mem_mb : ℤ
  pub disk_mb : ℤ

-- A positive override replaces the measured number.
abbrev pub narrowed : ℤ → ℤ → ℤ
narrowed configured measured = if ltb_ℤ (pos 0) configured then configured else measured

pub resolve_host_capacity : HostCapacityMeasurement → HostCapacityOverride → Result HostCapacity
resolve_host_capacity m o = do
  refuse_if
      (leb_ℤ m.vcpu (pos 0)
        || leb_ℤ m.mem_total_mb (pos 0)
        || leb_ℤ m.disk_total_mb (pos 0)
        || leb_ℤ m.disk_available_mb (pos 0))
      (fleet host_capacity_unmeasured)
  refuse_if (ltb_ℤ m.vcpu o.vcpu) (fleet host_capacity_over_advertised)
  refuse_if (ltb_ℤ m.mem_total_mb o.mem_mb) (fleet host_capacity_over_advertised)
  refuse_if (ltb_ℤ m.disk_available_mb o.disk_mb) (fleet host_capacity_over_advertised)
  let disk = narrowed o.disk_mb m.disk_available_mb
  refuse_if (ltb_ℤ o.disk_reserve_mb (pos 0) || leb_ℤ disk o.disk_reserve_mb)
      (fleet host_disk_reserve_invalid)
  ok (record {
    vcpu = narrowed o.vcpu m.vcpu;
    mem_mb = narrowed o.mem_mb m.mem_total_mb;
    disk_mb = wrap (disk -ℤ o.disk_reserve_mb);
  })
