-- ===== src/Fleet/Scheduler/Tests.antt =====
-- Scheduling on two hosts, one of which is occupied in part.
use runtime_service.Base.{
  ◌≡◌, refl, false, ltb, pos, ◌+ℤ◌, ◌-ℤ◌, wrap, List, [], ◌∷◌, Memᴰ, none, arith,
}
use runtime_service.Errors.{ok, err, fleet, fleet_app_not_found}
use runtime_service.Fleet.Host.{Host}
use runtime_service.Fleet.Samples.{first_host, second_host}
use runtime_service.Fleet.Replica.{spread}
use runtime_service.Fleet.Scheduler.{
  Candidate, Repositories, PlacementRequest, select_host, candidates, candidate_of, usage, fits,
  is_affine_host, labels_superset, sort_slice, insert_sorted, spread_before, strategy,
}
use runtime_service.Fleet.Scheduler.Choice.{IsStrict}
use runtime_service.Fleet.Scheduler.Best.{Takes, select_host_best}

abbrev two_hosts : Repositories
two_hosts = record {
  list_live = ok (first_host ∷ second_host ∷ []);
  list_by_host = λ id. ok [];
  find_app = λ id. err (fleet fleet_app_not_found);
  id_before = ltb;
}

abbrev request : PlacementRequest
request = record {
  app_id = 3;
  need_vcpu = pos 4;
  need_mem_mb = pos 512;
  need_disk_mb = pos 10;
  constraint = spread;
  affinity_host_id = none;
  affinity_labels = [];
}

ltb-IsStrict : IsStrict ltb
ltb-IsStrict = record { asymmetric = λ a b h. ground arith; negative = λ a b c h k. ground arith }

picked : select_host two_hosts request ≡ ok 2
unfolding select_host candidates candidate_of usage fits is_affine_host labels_superset sort_slice
    insert_sorted spread_before wrap ◌+ℤ◌ ◌-ℤ◌
picked = refl

select_host_best_example :
    (live : List Host) × (c : Candidate) × (two_hosts.list_live ≡ ok live)
    × (c.host_id ≡ 2)
    × ((h : Host) × Memᴰ h live × Takes two_hosts request h c)
    × ((k : Host) (d : Candidate)
        → Memᴰ k live
        → Takes two_hosts request k d
        → strategy spread ltb d c ≡ false)
select_host_best_example = select_host_best two_hosts request ltb-IsStrict 2 picked
