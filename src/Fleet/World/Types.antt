-- ===== src/Fleet/World/Types.antt =====
-- The tables that all hosts share, the inputs and answers of the driver and the other services, what a process
-- is wired with, and the record of what it did. The inputs are those of internal/usecase/fleet_provision.go.
use runtime_service.Base.{ℕ, Bool, ℤ, List, Option, Text}
use runtime_service.Errors.{Err, Result}
use runtime_service.Fleet.Replica.{FleetApp, Replica}
use runtime_service.Fleet.Volume.{Volume}
use runtime_service.Fleet.Scheduler.{Repositories}

pub record Tables : Type 0 where
  pub apps : List FleetApp
  pub replicas : List Replica
  pub volumes : List Volume

pub record HostSecret : Type 0 where
  pub name : Text
  pub val : Text

-- The fields that the boot of a replica sets; the others keep their zero values.
pub record MaterializeInput : Type 0 where
  pub repository : Text
  pub digest : Text
  pub work_dir_of : ℕ  -- the replica whose directory under the work directory it is
  pub port : ℤ
  pub expect_secrets : Bool
  pub bootstrap_nonce : Text
  pub data_mount_path : Text
  pub registry_pull_token : Text

-- Likewise; the kind of the owner is the replica's.
pub record BootInput : Type 0 where
  pub workload_id : ℕ
  pub rootfs_path : Text
  pub vcpu : ℤ
  pub memory_mb : ℤ
  pub port : ℤ
  pub expect_secrets : Bool
  pub secrets : List HostSecret
  pub bootstrap_nonce : Text
  pub data_disk_path : Text
  pub data_mount_path : Text

pub record BootResult : Type 0 where
  pub pid : ℤ
  pub guest_ip : Text
  pub host_port : ℤ
  pub net_index : ℤ
  pub tap_name : Text
  pub socket_path : Text

-- What os.Stat and the probe of the file system say of a backing file.
pub data BackingFile : Type 0 where
  mountable unmountable absent store_absent unreadable : BackingFile

pub record Claim : Type 0 where
  pub decommissioned_at : Option ℤ

-- The world outside the process, by the number of calls made so far: what other processes do to the
-- tables before the call, whether a call of the database fails, and the answers of the rest.
pub record Outside : Type 0 where
  pub others : ℕ → Tables → Tables
  pub fails : ℕ → Bool
  pub new_id : ℕ → ℕ
  pub now : ℕ → ℤ
  pub error_text : Err → Text
  pub decimal : ℤ → Text
  pub resolve : ℕ → Text → Text → Text → Result Text  -- the ref, the org and the token
  pub nonce : ℕ → Result Text
  pub materialize : ℕ → MaterializeInput → Result Text
  pub boot : ℕ → BootInput → Result BootResult
  pub tear_down : ℕ → Replica → Result (Unit {0})
  pub proc_alive : ℕ → ℤ → Bool
  pub dial : ℕ → Text → ℤ → Bool
  pub reads : ℕ → Repositories
  pub backing_file : ℕ → Text → BackingFile
  pub unlink : ℕ → Text → Result (Unit {0})
  pub live_claim : ℕ → ℕ → Result Claim
  pub claim_of : ℕ → ℕ → Result Claim
  pub delete_routes : ℕ → ℕ → Result (Unit {0})
  pub route_of : ℕ → Text → Result ℕ

-- What a process is wired with. A store of tokens answers `none` for every app when it is not wired.
pub record Settings : Type 0 where
  pub self_host : ℕ
  pub has_volumes : Bool
  pub has_resolver : Bool
  pub has_resources : Bool
  pub has_routes : Bool
  pub has_work_dir : Bool
  pub secret_self_test : Bool
  pub token_of : ℕ → Option Text
  pub registry_token_of : ℕ → Option Text

-- What this process did or tried to do, each with what it acted on.
pub data Event : Type 0 where
  created : Replica → Event
  updated : Replica → Event
  deleted : Replica → Event
  booted : FleetApp → Replica → Option Volume → BootInput → Event  -- with the volume it attaches
  torn_down : Replica → Bool → Event  -- whether the driver proved it
  probed : Replica → Event
  reclaimed : ℕ → Event
  volume_updated : Volume → Event
  volume_deleted : Volume → Event
  file_deleted : Volume → Event
  app_updated : FleetApp → Event
  app_deleted : ℕ → Event
  routes_deleted : ℕ → Event

-- The log is newest first.
pub record World : Type 0 where
  pub tables : Tables
  pub calls : ℕ
  pub log : List Event
