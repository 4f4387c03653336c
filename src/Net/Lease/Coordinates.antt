-- ===== src/Net/Lease/Coordinates.antt =====
-- What DeriveNetLease of internal/domain/fleet_net_lease.go computes.
use runtime_service.Base.{◌≡◌, ◌≢◌, ◌⊎◌, true, ℤ, pos, ◌≤ℤ◌, arith}
use runtime_service.Errors.{ok}
use runtime_service.Net.Lease.{
  NetLease, net_index_of, derive_net_lease, coordinates, in_fleet_subnet, out_of_range,
}

-- What the arguments must satisfy.
abbrev pub InRange : ℤ → ℤ → ℤ → Type 0
InRange o s u = (pos 0 ≤ℤ o) × (o ≤ℤ pos 15) × (pos 1 ≤ℤ s) × (s ≤ℤ pos 1023) × (pos 1 ≤ℤ u)

-- A slot of a host is given coordinates exactly when its ordinal, its slot and the uid base are in
-- range, and any other argument is refused with the out-of-range error.
pub derive_exact :
    (o s u : ℤ)
    → (InRange o s u × (derive_net_lease o s u ≡ ok (coordinates o s u (net_index_of o s))))
      ⊎ ((derive_net_lease o s u ≡ out_of_range) × ¬ (InRange o s u))
unfolding derive_net_lease
derive_exact o s u = ground arith

pub derive_inverse :
    (o s u : ℤ) (l : NetLease)
    → derive_net_lease o s u ≡ ok l
    → InRange o s u × (l ≡ coordinates o s u (net_index_of o s))
unfolding derive_net_lease
derive_inverse o s u l h = ground arith

-- The net index of a derived lease is in 1..16383, and its two addresses are different addresses of the
-- fleet's subnet.
pub derive_bounds :
    (o s u : ℤ) (l : NetLease)
    → derive_net_lease o s u ≡ ok l
    → (pos 1 ≤ℤ l.net_index)
      × (l.net_index ≤ℤ pos 16383)
      × (in_fleet_subnet l.host_ip ≡ true)
      × (in_fleet_subnet l.guest_ip ≡ true)
      × (l.host_ip ≢ l.guest_ip)
unfolding derive_net_lease
derive_bounds o s u l h = ground arith

-- Two derived leases that share a net index, or any address, are of the same ordinal and slot.
pub derive_injective :
    (o s u o' s' u' : ℤ) (l l' : NetLease)
    → derive_net_lease o s u ≡ ok l
    → derive_net_lease o' s' u' ≡ ok l'
    → (l.net_index ≡ l'.net_index)
      ⊎ ((l.host_ip ≡ l'.host_ip) ⊎ ((l.guest_ip ≡ l'.guest_ip) ⊎ (l.host_ip ≡ l'.guest_ip)))
    → (o ≡ o') × (s ≡ s')
unfolding coordinates net_index_of
derive_injective o s u o' s' u' l l' h h' same =
    ground (arith, derive_inverse o s u l h, derive_inverse o' s' u' l' h')
