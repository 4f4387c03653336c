-- ===== src/Fleet/Restore/Types.antt =====
-- What a restore of a volume reads and changes: rows of internal/domain/fleet_resource.go, the four files that
-- internal/usecase/fleet_volume_restore.go names, and the answers of what surrounds it.
use runtime_service.Base.{ℕ, Bool, ℤ, List, Option, Text}
use runtime_service.Errors.{Err, Result}
use runtime_service.Fleet.Replica.{Replica}
use runtime_service.Fleet.Volume.{Volume, VolumeStatus}

pub data FleetResourcePhase : Type 0 where
  provisioning ready degraded restoring failed decommissioned : FleetResourcePhase
  other_phase : Text → FleetResourcePhase

-- The columns of a recovery point that the restore reads.
pub record FleetResourceRecoveryPoint : Type 0 where
  pub id : ℕ
  pub object_key : Text
  pub size_bytes : ℤ
  pub checksum : Text

-- The backing file, the pre-restore original beside it, the staging file and the failed restore that is
-- kept aside: different paths, by their suffixes.
pub data VolumeFile : Type 0 where
  live pre staged failed : VolumeFile

-- What the files hold, by a number for each content; `none` for a file that is not there.
pub record Files : Type 0 where
  pub live : Option ℕ
  pub pre : Option ℕ
  pub staged : Option ℕ
  pub failed : Option ℕ

-- What the download wrote: its content, its length and the digits of the hash of what was downloaded.
pub record Image : Type 0 where
  pub content : ℕ
  pub size : ℤ
  pub sum : Text

-- The restore that was admitted, with the phase that the resource came from.
pub record Restore : Type 0 where
  pub self_host : ℕ
  pub resource_id : ℕ
  pub app_id : ℕ
  pub recovery_point : FleetResourceRecoveryPoint
  pub volume : Volume
  pub prev_phase : FleetResourcePhase

-- The answers by the number of calls made so far. An operation on a file that fails changes nothing. A deadline
-- is the number of rounds of polling after the first that it leaves, with the error of the context that ends it.
pub record Outside : Type 0 where
  pub now : ℕ → ℤ
  pub equal_fold : Text → Text → Bool
  pub find_volume : ℕ → ℕ → Result Volume
  pub update_volume : ℕ → Volume → Result (Unit {0})
  pub list_replicas : ℕ → ℕ → Result (List Replica)
  pub scale_app : ℕ → ℕ → ℤ → Result Bool
  pub health : ℕ → ℕ → Result Bool
  pub drain_rounds : ℕ → ℕ
  pub health_rounds : ℕ → ℕ
  pub ended : ℕ → Option Err
  pub pg_ready : Option (ℕ → Text → ℤ → Result (Unit {0}))
  pub open_object : ℕ → Text → Result (Unit {0})
  pub create_file : ℕ → Result (Unit {0})
  pub stream : ℕ → Result Image
  pub torn : ℕ → ℕ  -- what a download that fails leaves in the file
  pub sync_file : ℕ → Result (Unit {0})
  pub close_file : ℕ → Result (Unit {0})
  pub sync_dir : ℕ → Result (Unit {0})
  pub stat_fails : ℕ → Bool
  pub file_fails : ℕ → Bool
  pub update_phase : ℕ → ℕ → FleetResourcePhase → Result (Unit {0})
  pub set_last_error : ℕ → ℕ → Option Err → Result (Unit {0})
  pub mark_restored : ℕ → ℕ → Result (Unit {0})

-- What the restore did: the row of the volume was written with a status, or this failed; the app was scaled, no
-- replica was left, the engine was found to serve, a file was moved or removed or this was tried, and the restore
-- ended.
pub data Event : Type 0 where
  drained served : Event
  volume_written : VolumeStatus → Bool → Event
  scaled : ℤ → Event
  moved : VolumeFile → VolumeFile → Event
  removed : VolumeFile → Event
  finished : FleetResourcePhase → Option Err → Event

-- The two columns of the resource's row that the restore writes. The log is newest first.
pub record State : Type 0 where
  pub calls : ℕ
  pub files : Files
  pub phase : FleetResourcePhase
  pub last_error : Option Err
  pub log : List Event
