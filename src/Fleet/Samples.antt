-- ===== src/Fleet/Samples.antt =====
-- Hosts for the tests of the fleet: two of one region on different failure domains.
use runtime_service.Base.{ℕ, pos, [], none, some, codes, Text}
use runtime_service.Fleet.Host.{Host, healthy, active}

abbrev pub sample_host : ℕ → Text → ℕ → Host
sample_host id failure_domain vcpu = record {
  id = id;
  region = codes "eu";
  failure_domain = failure_domain;
  labels = [];
  capacity_vcpu = pos vcpu;
  capacity_mem_mb = pos 4096;
  capacity_disk_mb = pos 100;
  allocatable_vcpu = pos vcpu;
  allocatable_mem_mb = pos 4096;
  allocatable_disk_mb = pos 100;
  health = healthy;
  status = active;
  endpoint = [];
  net_ordinal = none;
  last_heartbeat = some (pos 50);
  created_at = pos 1;
  updated_at = pos 50;
}

abbrev pub first_host : Host
first_host = sample_host 1 (codes "ber/a/x") 8

abbrev pub second_host : Host
second_host = sample_host 2 (codes "ber/b/y") 16
