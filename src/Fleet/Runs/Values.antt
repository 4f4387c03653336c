-- ===== src/Fleet/Runs/Values.antt =====
-- Host 9 with an app of id 1, its replicas and its volume, and what surrounds it.
use runtime_service.Base.{ℕ, Bool, true, false, ltb, List, [], ◌∷◌, Option, none, some, pos, codes}
use runtime_service.Errors.{external, boot, resource_not_found, ok, err}
use runtime_service.Fleet.Samples.{sample_host}
use runtime_service.Fleet.Replica.{
  FleetApp, Replica, ReplicaState, scheduled, resident, dead, always,
}
use runtime_service.Fleet.Volume.{Volume, attached}
use runtime_service.Fleet.Scheduler.{Repositories}
use runtime_service.Fleet.World.{Outside, World, Settings, mountable}

abbrev pub web_app : FleetApp
web_app = record {
  id = 1;
  component_id = codes "web";
  env = codes "prod";
  image_repository = codes "web";
  image_digest = codes "sha256:1";
  owner_org = codes "org";
  system_id = [];
  desired_replicas = pos 1;
  min_replicas = pos 0;
  max_replicas = pos 1;
  scale_to_zero = true;
  port = pos 8080;
  resources_vcpu = pos 1;
  resources_mem_mb = pos 256;
  restart_policy = always;
  secret_refs = codes "app/key#token" ∷ [];
  idle_ttl_seconds = pos 60;
  last_active_at = pos 1;
  created_at = pos 1;
  updated_at = pos 1;
}

abbrev pub row : ℕ → ReplicaState → Option ℕ → Replica
row id state host = record {
  id = id;
  app_id = 1;
  host_id = host;
  image_repository = codes "web";
  image_digest = codes "sha256:1";
  state = state;
  endpoint = codes "http://10.0.0.2:8080";
  guest_ip = codes "10.0.0.2";
  host_port = pos 0;
  net_index = pos 3;
  rootfs_path = codes "r";
  socket_path = codes "s";
  tap_name = codes "t";
  port = pos 8080;
  pid = some (pos 77);
  exit_code = none;
  restart_policy = always;
  message = [];
  created_at = pos id;
  updated_at = pos id;
}

abbrev pub data_volume : Volume
data_volume = record {
  id = 5;
  app_id = some 1;
  resource_id = none;
  size_mb = pos 10;
  host_affinity = some 9;
  snapshot_ref = [];
  mount_path = codes "/data";
  backing_path = codes "/v/5";
  attached_replica = none;
  status = attached;
  device_name = codes "/dev/vdb";
  created_at = pos 1;
  updated_at = pos 1;
}

abbrev pub live_reads : Repositories
live_reads = record {
  list_live = ok (sample_host 9 (codes "ber/a/x") 8 ∷ []);
  list_by_host = λ id. ok [];
  find_app = λ id. err (external 0);
  id_before = ltb;
}

-- Nobody else acts and nothing fails; the guest's port does not answer where `dials` is false, and the
-- database fails where `fails` says so.
abbrev pub around : Bool → (ℕ → Bool) → Outside
around dials fails = record {
  others = λ n t. t;
  fails = fails;
  new_id = λ n. n;
  now = λ n. pos n;
  error_text = λ e. [];
  decimal = λ z. codes "8080";
  resolve = λ n ref org token. ok (codes "v");
  nonce = λ n. ok (codes "n");
  materialize = λ n input. ok (codes "rootfs");
  boot = λ n input. err (external 1);
  tear_down = λ n r. err (external 2);
  proc_alive = λ n pid. true;
  dial = λ n ip port. dials;
  reads = λ n. live_reads;
  backing_file = λ n path. mountable;
  unlink = λ n path. ok tt;
  live_claim = λ n app. err (external 3);
  claim_of = λ n id. err (boot resource_not_found);
  delete_routes = λ n app. ok tt;
  route_of = λ n host. ok 1;
}

abbrev pub quiet : Outside
quiet = around true (λ n. false)

abbrev pub stateless : Settings
stateless = record {
  self_host = 9;
  has_volumes = false;
  has_resolver = true;
  has_resources = true;
  has_routes = true;
  has_work_dir = true;
  secret_self_test = false;
  token_of = λ app. none;
  registry_token_of = λ app. none;
}

abbrev pub stateful : Settings
stateful = record stateless { has_volumes = true }

abbrev pub world_of : List Replica → World
world_of rows = record {
  tables = record { apps = web_app ∷ []; replicas = rows; volumes = data_volume ∷ [] };
  calls = 0;
  log = [];
}

-- A resident replica here, a dead one here and one that another host is to boot.
abbrev pub mixed : World
mixed = world_of (row 4 resident (some 9) ∷ row 2 dead (some 9) ∷ row 3 scheduled (some 8) ∷ [])
