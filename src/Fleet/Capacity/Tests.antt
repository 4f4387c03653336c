-- ===== src/Fleet/Capacity/Tests.antt =====
-- A machine of 8 CPUs of which 6 are advertised.
use runtime_service.Base.{◌≡◌, refl, ◌↔◌, true, pos, ◌≤ℤ◌, ◌+ℤ◌, ◌-ℤ◌, wrap, arith}
use runtime_service.Errors.{ok, is_ok}
use runtime_service.Fleet.Capacity.{
  HostCapacityMeasurement, HostCapacityOverride, HostCapacity, resolve_host_capacity,
}
use runtime_service.Fleet.Capacity.Bounds.{IsAdmissible, resolve_exact, resolve_bounds}

abbrev measured : HostCapacityMeasurement
measured = record {
  vcpu = pos 8;
  mem_total_mb = pos 7941;
  disk_total_mb = pos 20000;
  disk_available_mb = pos 17542;
}

abbrev configured : HostCapacityOverride
configured = record { vcpu = pos 6; mem_mb = pos 0; disk_mb = pos 0; disk_reserve_mb = pos 2000 }

abbrev resolved : HostCapacity
resolved = record { vcpu = pos 6; mem_mb = pos 7941; disk_mb = pos 15542 }

resolves : resolve_host_capacity measured configured ≡ ok resolved
unfolding resolve_host_capacity wrap ◌-ℤ◌
resolves = refl

resolve_exact_example :
    (is_ok (resolve_host_capacity measured configured) ≡ true) ↔ IsAdmissible measured configured
resolve_exact_example = resolve_exact measured configured

resolve_bounds_example :
    (pos 1 ≤ℤ resolved.vcpu)
    × (resolved.vcpu ≤ℤ measured.vcpu)
    × (pos 1 ≤ℤ resolved.mem_mb)
    × (resolved.mem_mb ≤ℤ measured.mem_total_mb)
    × (pos 1 ≤ℤ resolved.disk_mb)
    × (resolved.disk_mb +ℤ configured.disk_reserve_mb ≤ℤ measured.disk_available_mb)
resolve_bounds_example =
    resolve_bounds measured configured resolved (omega arith, omega arith) resolves
