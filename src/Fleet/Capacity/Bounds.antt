-- ===== src/Fleet/Capacity/Bounds.antt =====
-- What ResolveHostCapacity of internal/domain/fleet_host_capacity.go lets a host advertise.
use runtime_service.Base.{
  ◌≡◌, refl, ◌↔◌, true, ℤ, pos, ◌+ℤ◌, ◌-ℤ◌, ◌≤ℤ◌, ◌<ℤ◌, +ℤ_parts, -ℤ_parts, InInt64, wrap, wrap-eq,
  arith,
}
use runtime_service.Errors.{ok, is_ok}
use runtime_service.Fleet.Capacity.{
  HostCapacityMeasurement, HostCapacityOverride, HostCapacity, narrowed, resolve_host_capacity,
}

-- What a measurement and an override must satisfy.
abbrev pub IsAdmissible : HostCapacityMeasurement → HostCapacityOverride → Type 0
IsAdmissible m o =
    (pos 1 ≤ℤ m.vcpu)
    × (pos 1 ≤ℤ m.mem_total_mb)
    × (pos 1 ≤ℤ m.disk_total_mb)
    × (pos 1 ≤ℤ m.disk_available_mb)
    × (o.vcpu ≤ℤ m.vcpu)
    × (o.mem_mb ≤ℤ m.mem_total_mb)
    × (o.disk_mb ≤ℤ m.disk_available_mb)
    × (pos 0 ≤ℤ o.disk_reserve_mb)
    × (o.disk_reserve_mb <ℤ narrowed o.disk_mb m.disk_available_mb)

-- A measurement and an override are accepted exactly when every measured number is positive, no
-- override exceeds what was measured, and the reserve is not negative and below the disk it is taken of.
pub resolve_exact :
    (m : HostCapacityMeasurement) (o : HostCapacityOverride)
    → (is_ok (resolve_host_capacity m o) ≡ true) ↔ IsAdmissible m o
unfolding resolve_host_capacity
resolve_exact m o = (λ h. ground arith, λ h. ground arith)

resolve_value :
    (m : HostCapacityMeasurement) (o : HostCapacityOverride) (c : HostCapacity)
    → resolve_host_capacity m o ≡ ok c
    → (c.vcpu ≡ narrowed o.vcpu m.vcpu)
      × (c.mem_mb ≡ narrowed o.mem_mb m.mem_total_mb)
      × (c.disk_mb ≡ wrap (narrowed o.disk_mb m.disk_available_mb -ℤ o.disk_reserve_mb))
unfolding resolve_host_capacity
resolve_value m o c h = ground arith

narrowed_bounds : (o m : ℤ) → o ≤ℤ m → pos 1 ≤ℤ m → (pos 1 ≤ℤ narrowed o m) × (narrowed o m ≤ℤ m)
narrowed_bounds o m h k = ground arith

rest-InInt64 : (d r a : ℤ) → pos 0 ≤ℤ r → r <ℤ d → d ≤ℤ a → InInt64 a → InInt64 (d -ℤ r)
unfolding ◌-ℤ◌
rest-InInt64 d r a h k l i = ground arith

rest_bounds : (d r : ℤ) → r <ℤ d → (pos 1 ≤ℤ d -ℤ r) × ((d -ℤ r) +ℤ r ≤ℤ d)
rest_bounds d r h = omega (arith, -ℤ_parts d r, +ℤ_parts (d -ℤ r) r)

-- If the available disk fits in 64 bits, an accepted capacity is positive in every part and never more
-- than what was measured: the disk, with the reserve added, is within the disk that is available.
pub resolve_bounds :
    (m : HostCapacityMeasurement) (o : HostCapacityOverride) (c : HostCapacity)
    → InInt64 m.disk_available_mb
    → resolve_host_capacity m o ≡ ok c
    → (pos 1 ≤ℤ c.vcpu)
      × (c.vcpu ≤ℤ m.vcpu)
      × (pos 1 ≤ℤ c.mem_mb)
      × (c.mem_mb ≤ℤ m.mem_total_mb)
      × (pos 1 ≤ℤ c.disk_mb)
      × (c.disk_mb +ℤ o.disk_reserve_mb ≤ℤ m.disk_available_mb)
resolve_bounds m o c i h =
    let (v, k, d) = resolve_value m o c h in
    let (mv, mm, mt, ma, ov, om, od, r0, rd) = (resolve_exact m o).0 (rw h refl) in
    let disk : ℤ = narrowed o.disk_mb m.disk_available_mb in
    let (cv, cv') = narrowed_bounds o.vcpu m.vcpu ov mv in
    let (cm, cm') = narrowed_bounds o.mem_mb m.mem_total_mb om mm in
    let (cd, cd') = narrowed_bounds o.disk_mb m.disk_available_mb od ma in
    let exact : wrap (disk -ℤ o.disk_reserve_mb) ≡ disk -ℤ o.disk_reserve_mb =
      wrap-eq _ (rest-InInt64 disk o.disk_reserve_mb m.disk_available_mb r0 rd cd' i) in
    let (low, high) = rest_bounds disk o.disk_reserve_mb rd in
    rw (v, k, d, exact) (cv, cv', cm, cm', low, omega arith)
