-- ===== src/Fleet/Volume.antt =====
-- internal/domain/fleet_volume.go, and the judgements of internal/usecase/fleet_volume_manager.go on a
-- list of volumes that was read.
pub mod Affinity
use runtime_service.Base.{
  ℕ, Bool, true, false, ◌==◌, if◌then◌else◌, ℤ, List, [], ◌∷◌, Option, none, some, Text,
}
use runtime_service.Errors.{fence, volume_host_mismatch, Result, ok, err}

pub data VolumeStatus : Type 0 where
  available attached degraded restoring : VolumeStatus
  other_status : Text → VolumeStatus

unfoldable pub status_is_valid : VolumeStatus → Bool
status_is_valid (other_status _) = false
status_is_valid _ = true

pub record Volume : Type 0 where
  pub id : ℕ
  pub app_id : Option ℕ
  pub resource_id : Option ℕ
  pub size_mb : ℤ
  pub host_affinity : Option ℕ
  pub snapshot_ref : Text
  pub mount_path : Text
  pub backing_path : Text
  pub attached_replica : Option ℕ
  pub status : VolumeStatus
  pub device_name : Text
  pub created_at : ℤ
  pub updated_at : ℤ

-- `p != nil && *p == id`.
abbrev pub points_to : ℕ → Option ℕ → Bool
points_to id none = false
points_to id (some n) = n == id

-- The fence of ownedVolumes over the volumes of an app.
pub require_owned : ℕ → List Volume → Result (Unit {0})
require_owned self [] = ok tt
require_owned self (v ∷ vs) =
    if points_to self v.host_affinity
    then require_owned self vs
    else err (fence volume_host_mismatch)

-- The loop of AffinityHost after its first volume, with the host of that one.
pub agree_on : ℕ → List Volume → Result (Option ℕ)
agree_on host [] = ok (some host)
agree_on host (v ∷ vs) =
    if points_to host v.host_affinity then agree_on host vs else err (fence volume_host_mismatch)

-- `none` for an app without volumes.
pub affinity_of : List Volume → Result (Option ℕ)
affinity_of [] = ok none
affinity_of (v ∷ vs) = elim v.host_affinity [
  | none ↦ err (fence volume_host_mismatch)
  | some host ↦ agree_on host vs
]

-- The volumes that AttachTo and DetachFrom write, and MarkDegraded.
unfoldable pub attached_to : ℕ → ℤ → Volume → Volume
attached_to replica now v = record v {
  attached_replica = some replica;
  status = attached;
  updated_at = now;
}

-- A degraded or restoring volume stays so.
abbrev pub released_status : VolumeStatus → VolumeStatus
released_status degraded = degraded
released_status restoring = restoring
released_status _ = available

unfoldable pub detached : ℤ → Volume → Volume
detached now v = record v {
  attached_replica = none;
  status = released_status v.status;
  updated_at = now;
}

unfoldable pub marked_degraded : ℤ → Volume → Volume
marked_degraded now v = record v { status = degraded; updated_at = now }
