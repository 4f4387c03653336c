-- ===== src/Net/Lease/Tests.antt =====
-- The coordinates of slot 5 of the host at ordinal 2.
use runtime_service.Base.{◌≡◌, refl, inl, ◌⊎◌, pos}
use runtime_service.Errors.{ok}
use runtime_service.Net.Lease.{
  NetLease, coordinates, net_index_of, in_fleet_subnet, derive_net_lease, out_of_range,
}
use runtime_service.Net.Lease.Coordinates.{InRange, derive_exact, derive_injective}

abbrev derived : NetLease
derived = coordinates (pos 2) (pos 5) (pos 100000) (net_index_of (pos 2) (pos 5))

derives : derive_net_lease (pos 2) (pos 5) (pos 100000) ≡ ok derived
unfolding derive_net_lease coordinates net_index_of in_fleet_subnet
derives = refl

derive_exact_example :
    (InRange (pos 2) (pos 5) (pos 100000)
      × (derive_net_lease (pos 2) (pos 5) (pos 100000) ≡ ok derived))
    ⊎ ((derive_net_lease (pos 2) (pos 5) (pos 100000) ≡ out_of_range)
        × ¬ (InRange (pos 2) (pos 5) (pos 100000)))
derive_exact_example = derive_exact (pos 2) (pos 5) (pos 100000)

derive_injective_example : (pos 2 ≡ pos 2) × (pos 5 ≡ pos 5)
derive_injective_example =
    derive_injective (pos 2) (pos 5) (pos 100000) (pos 2) (pos 5) (pos 100000) derived derived
      derives derives (inl refl)
