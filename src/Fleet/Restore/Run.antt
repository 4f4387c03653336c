-- ===== src/Fleet/Restore/Run.antt =====
-- internal/usecase/fleet_volume_restore.go: run, and the ways back from each of its steps.
use runtime_service.Base.{not, if◌then◌else◌, pos, none, some, text_eq}
use runtime_service.Errors.{Err, fence, volume_host_mismatch, Result, ok, err}
use runtime_service.Action.{◌>>=◌, ◌>>◌, attempt}
use runtime_service.Fleet.Volume.{Volume, VolumeStatus, points_to}
use runtime_service.Fleet.Restore.{
  ready, degraded, pre, staged, Outside, Restore, M, query, reported, scale, set_volume_status,
  set_volume_available, drain, wait_healthy, finish, abandon,
}
use runtime_service.Fleet.Restore.Swap.{remove, stage, swap_in, swap_back, restore_prerestore}

module _ (out : Outside) (job : Restore) where
  unfoldable pub degrade : Err → M (Unit {0})
  degrade cause = finish out job degraded (some cause)

  unfoldable pub after_revival : Err → Result (Unit {0}) → M (Unit {0})
  after_revival cause (err e) = degrade cause
  after_revival cause (ok done) = abandon out job cause

  -- The original volume back into service.
  unfoldable pub revive : Err → M (Unit {0})
  revive cause = do
    set_volume_available out job
    booted ← attempt (scale out job (pos 1))
    after_revival cause booted

  -- The rollback, from its last step to its first.
  unfoldable pub back_in_service : Err → Result (Unit {0}) → M (Unit {0})
  back_in_service cause (err e) = degrade cause
  back_in_service cause (ok done) = finish out job ready (some cause)

  unfoldable pub back_booted : Err → Result (Unit {0}) → M (Unit {0})
  back_booted cause (err e) = degrade cause
  back_booted cause (ok done) = do
    healthy ← attempt (wait_healthy out job)
    back_in_service cause healthy

  unfoldable pub back_swapped : Err → Result (Unit {0}) → M (Unit {0})
  back_swapped cause (err e) = do set_volume_available out job; degrade cause
  back_swapped cause (ok done) = do
    set_volume_available out job
    booted ← attempt (scale out job (pos 1))
    back_booted cause booted

  unfoldable pub back_drained : Err → Result (Unit {0}) → M (Unit {0})
  back_drained cause (err e) = degrade cause
  back_drained cause (ok done) = do
    swapped ← attempt (swap_back out job)
    back_swapped cause swapped

  unfoldable pub back_raised : Err → Result (Unit {0}) → M (Unit {0})
  back_raised cause (err e) = degrade cause
  back_raised cause (ok done) = do drained ← attempt (drain out job); back_drained cause drained

  unfoldable pub rollback : Err → M (Unit {0})
  rollback cause = do
    raised ← attempt (set_volume_status out job VolumeStatus.restoring none)
    back_raised cause raised

  -- The steps of the restore, from the last to the first.
  unfoldable pub after_health : Result (Unit {0}) → M (Unit {0})
  after_health (err e) = rollback e
  after_health (ok done) = do
    attempt (query (λ n. out.mark_restored n job.recovery_point.id))
    remove out job pre
    finish out job ready none

  unfoldable pub after_boot : Result (Unit {0}) → M (Unit {0})
  after_boot (err e) = degrade e
  after_boot (ok done) = do healthy ← attempt (wait_healthy out job); after_health healthy

  unfoldable pub after_put_back : Err → Result (Unit {0}) → M (Unit {0})
  after_put_back cause (err e) = do set_volume_available out job; degrade cause
  after_put_back cause (ok done) = revive cause

  unfoldable pub after_swap : Result (Unit {0}) → M (Unit {0})
  after_swap (err e) = do
    remove out job staged
    put_back ← attempt (restore_prerestore out job)
    after_put_back e put_back
  after_swap (ok done) = do
    set_volume_available out job
    booted ← attempt (scale out job (pos 1))
    after_boot booted

  unfoldable pub after_drain : Result (Unit {0}) → M (Unit {0})
  after_drain (err e) = do remove out job staged; revive e
  after_drain (ok done) = do swapped ← attempt (swap_in out job); after_swap swapped

  unfoldable pub after_raise : Result (Unit {0}) → M (Unit {0})
  after_raise (err e) = do remove out job staged; abandon out job e
  after_raise (ok done) = do drained ← attempt (drain out job); after_drain drained

  unfoldable pub after_stage : Result (Unit {0}) → M (Unit {0})
  after_stage (err e) = do remove out job staged; abandon out job e
  after_stage (ok done) = do
    raised ← attempt (set_volume_status out job VolumeStatus.restoring job.volume.attached_replica)
    after_raise raised

  -- The row is read again before the first file is written.
  unfoldable pub admit_volume : Result Volume → M (Unit {0})
  admit_volume (err e) = abandon out job e
  admit_volume (ok fresh) =
      if not (points_to job.self_host fresh.host_affinity)
      then abandon out job (fence volume_host_mismatch)
      else if not (text_eq fresh.backing_path job.volume.backing_path)
      then abandon out job reported
      else (do copied ← attempt (stage out job); after_stage copied)

  unfoldable pub run : M (Unit {0})
  run = do fresh ← attempt (query (λ n. out.find_volume n job.volume.id)); admit_volume fresh
