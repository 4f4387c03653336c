-- ===== src/Fleet/Restore/Tests.antt =====
-- A restore at concrete values: the staged image is 9, the engine is found when it was scaled to one.
use runtime_service.Base.{
  ℕ, not, ◌≡◌, ◌⊎◌, refl, true, false, inr, Bool, if◌then◌else◌, ◌==◌, pos, List, [], ◌∷◌, none,
  some, codes, text_eq,
}
use runtime_service.Errors.{Err, ok, err}
use runtime_service.Action.{◌>>=◌, lift, pure, attempt, modify}
use runtime_service.Fleet.Replica.{Replica, resident, always}
use runtime_service.Fleet.Volume.{Volume, VolumeStatus, available}
use runtime_service.Fleet.Restore
use runtime_service.Fleet.Restore.{
  State, ready, degraded, Outside, Files, Event, volume_written, scaled, finished, removed, served,
  reported, note, query, ask,
}
use runtime_service.Fleet.Restore.Swap
use runtime_service.Fleet.Restore.Run
use runtime_service.Fleet.Restore.Run.{run}
use runtime_service.Fleet.Restore.Held.{Verified, is_safe, end_count}
use runtime_service.Fleet.Restore.Ends.{fresh, run_keeps, run_waits, run_finishes}

abbrev volume : Volume
volume = record {
  id = 2;
  app_id = some 1;
  resource_id = some 3;
  size_mb = pos 64;
  host_affinity = some 7;
  snapshot_ref = [];
  mount_path = codes "/data";
  backing_path = codes "/v/2.img";
  attached_replica = some 5;
  status = available;
  device_name = codes "vdb";
  created_at = pos 0;
  updated_at = pos 0;
}

abbrev job : Restore.Restore
job = record {
  self_host = 7;
  resource_id = 3;
  app_id = 1;
  recovery_point = record {
    id = 4;
    object_key = codes "k";
    size_bytes = pos 64;
    checksum = codes "ab";
  };
  volume = volume;
  prev_phase = degraded;
}

abbrev replica : Replica
replica = record {
  id = 6;
  app_id = 1;
  host_id = some 7;
  image_repository = codes "db";
  image_digest = codes "sha256:1";
  state = resident;
  endpoint = [];
  guest_ip = codes "10.201.32.6";
  host_port = pos 0;
  net_index = pos 2049;
  rootfs_path = [];
  socket_path = [];
  tap_name = [];
  port = pos 5432;
  pid = none;
  exit_code = none;
  restart_policy = always;
  message = [];
  created_at = pos 0;
  updated_at = pos 0;
}

-- The replicas are gone in the calls named by `empty`, an operation on a file fails in the call `fails`, and the
-- engine refuses its clients unless `admits`.
abbrev outside : (ℕ → Bool) → (ℕ → Bool) → Bool → Outside
outside empty fails admits = record {
  now = λ n. pos n;
  equal_fold = text_eq;
  find_volume = λ n id. ok volume;
  update_volume = λ n v. ok tt;
  list_replicas = λ n app. ok (if empty n then [] else replica ∷ []);
  scale_app = λ n app amount. ok true;
  health = λ n app. ok true;
  drain_rounds = λ n. 3;
  health_rounds = λ n. 0;
  ended = λ n. none;
  pg_ready = some (λ n ip port. if admits then ok tt else err reported);
  open_object = λ n key. ok tt;
  create_file = λ n. ok tt;
  stream = λ n. ok (record { content = 9; size = pos 64; sum = codes "ab" });
  torn = λ n. 8;
  sync_file = λ n. ok tt;
  close_file = λ n. ok tt;
  sync_dir = λ n. ok tt;
  stat_fails = λ n. false;
  file_fails = fails;
  update_phase = λ n id phase. ok tt;
  set_last_error = λ n id cause. ok tt;
  mark_restored = λ n id. ok tt;
}

abbrev no_call : ℕ → Bool
no_call n = false

-- The volume is 1, with no parked file.
abbrev before : Files
before = record { live = some 1; pre = none; staged = none; failed = none }

-- A volume 2 with a parked file 1, as a restore leaves it whose removal of the parked file failed.
abbrev leftover : Files
leftover = record { live = some 2; pre = some 1; staged = none; failed = none }

abbrev good : Outside
good = outside (λ n. n == 13) no_call true

-- The removal of the parked file fails.
abbrev sticky : Outside
sticky = outside (λ n. n == 13) (λ n. n == 27) true

-- The engine never admits a client.
abbrev lame : Outside
lame = outside (λ n. not (n == 12)) no_call false

-- The half-restored file cannot be dropped.
abbrev clumsy : Outside
clumsy = outside (λ n. n == 13) (λ n. n == 15) true

restores : (run good job (fresh 0 before)).1.files ≡ record before { live = some 9 }
unfolding ◌>>=◌ lift pure attempt modify note query ask Restore.verify_recovery_point Restore.scale
    Restore.write_volume Restore.set_volume_status Restore.set_volume_available Restore.poll_drained
    Restore.drain Restore.probe_all Restore.probe_replicas Restore.engine_admits Restore.serving
    Restore.give_up Restore.unless_served Restore.poll_healthy Restore.wait_healthy Restore.finish
    Restore.update_resource_phase Restore.set_resource_last_error Restore.abandon Swap.move_file
    Swap.drop_file Swap.stat Swap.rename Swap.remove Swap.sync_dir Swap.write_staged Swap.streamed
    Swap.stage Swap.install Swap.park Swap.swap_over Swap.swap_in Swap.reinstate Swap.swap_anchor
    Swap.swap_back Swap.put_anchor Swap.unless_live Swap.restore_prerestore Run.degrade
    Run.after_revival Run.revive Run.back_in_service Run.back_booted Run.back_swapped
    Run.back_drained Run.back_raised Run.rollback Run.after_health Run.after_boot Run.after_put_back
    Run.after_swap Run.after_drain Run.after_raise Run.after_stage Run.admit_volume run
restores = refl

-- The restore ends as ready, with the original still parked.
leaves : (run sticky job (fresh 0 before)).1.files ≡ record before { live = some 9; pre = some 1 }
unfolding ◌>>=◌ lift pure attempt modify note query ask Restore.verify_recovery_point Restore.scale
    Restore.write_volume Restore.set_volume_status Restore.set_volume_available Restore.poll_drained
    Restore.drain Restore.probe_all Restore.probe_replicas Restore.engine_admits Restore.serving
    Restore.give_up Restore.unless_served Restore.poll_healthy Restore.wait_healthy Restore.finish
    Restore.update_resource_phase Restore.set_resource_last_error Restore.abandon Swap.move_file
    Swap.drop_file Swap.stat Swap.rename Swap.remove Swap.sync_dir Swap.write_staged Swap.streamed
    Swap.stage Swap.install Swap.park Swap.swap_over Swap.swap_in Swap.reinstate Swap.swap_anchor
    Swap.swap_back Swap.put_anchor Swap.unless_live Swap.restore_prerestore Run.degrade
    Run.after_revival Run.revive Run.back_in_service Run.back_booted Run.back_swapped
    Run.back_drained Run.back_raised Run.rollback Run.after_health Run.after_boot Run.after_put_back
    Run.after_swap Run.after_drain Run.after_raise Run.after_stage Run.admit_volume run
leaves = refl

-- The next restore drops the volume 2, and its rollback reinstates the parked file 1.
loses : (run lame job (fresh 0 leftover)).1.files ≡ record before { failed = some 9 }
unfolding ◌>>=◌ lift pure attempt modify note query ask Restore.verify_recovery_point Restore.scale
    Restore.write_volume Restore.set_volume_status Restore.set_volume_available Restore.poll_drained
    Restore.drain Restore.probe_all Restore.probe_replicas Restore.engine_admits Restore.serving
    Restore.give_up Restore.unless_served Restore.poll_healthy Restore.wait_healthy Restore.finish
    Restore.update_resource_phase Restore.set_resource_last_error Restore.abandon Swap.move_file
    Swap.drop_file Swap.stat Swap.rename Swap.remove Swap.sync_dir Swap.write_staged Swap.streamed
    Swap.stage Swap.install Swap.park Swap.swap_over Swap.swap_in Swap.reinstate Swap.swap_anchor
    Swap.swap_back Swap.put_anchor Swap.unless_live Swap.restore_prerestore Run.degrade
    Run.after_revival Run.revive Run.back_in_service Run.back_booted Run.back_swapped
    Run.back_drained Run.back_raised Run.rollback Run.after_health Run.after_boot Run.after_put_back
    Run.after_swap Run.after_drain Run.after_raise Run.after_stage Run.admit_volume run
loses = refl

-- The half-restored volume 2 is booted, with the original still parked.
revives :
    let s = (run clumsy job (fresh 0 leftover)).1 in
    (s.files ≡ leftover)
    × (s.log
        ≡ finished degraded (some reported)
          ∷ scaled (pos 1)
          ∷ volume_written available true
          ∷ removed Restore.staged
          ∷ removed Restore.live
          ∷ Restore.drained
          ∷ scaled (pos 0)
          ∷ volume_written VolumeStatus.restoring true
          ∷ [])
unfolding ◌>>=◌ lift pure attempt modify note query ask Restore.verify_recovery_point Restore.scale
    Restore.write_volume Restore.set_volume_status Restore.set_volume_available Restore.poll_drained
    Restore.drain Restore.probe_all Restore.probe_replicas Restore.engine_admits Restore.serving
    Restore.give_up Restore.unless_served Restore.poll_healthy Restore.wait_healthy Restore.finish
    Restore.update_resource_phase Restore.set_resource_last_error Restore.abandon Swap.move_file
    Swap.drop_file Swap.stat Swap.rename Swap.remove Swap.sync_dir Swap.write_staged Swap.streamed
    Swap.stage Swap.install Swap.park Swap.swap_over Swap.swap_in Swap.reinstate Swap.swap_anchor
    Swap.swap_back Swap.put_anchor Swap.unless_live Swap.restore_prerestore Run.degrade
    Run.after_revival Run.revive Run.back_in_service Run.back_booted Run.back_swapped
    Run.back_drained Run.back_raised Run.rollback Run.after_health Run.after_boot Run.after_put_back
    Run.after_swap Run.after_drain Run.after_raise Run.after_stage Run.admit_volume run
revives = (refl, refl)

run_keeps_example :
    let s = (run lame job (fresh 0 before)).1 in
    ((s.files.pre ≡ some 1) ⊎ ((s.files.pre ≡ none) × (s.files.live ≡ some 1)))
    ⊎ ((earlier : List Event) × (s.log
          ≡ finished ready none ∷ removed Restore.pre ∷ served ∷ earlier)
        × Verified lame job s.files.live)
run_keeps_example = run_keeps lame job 1 0 before (inr (refl, refl))

run_waits_example : is_safe (run lame job (fresh 0 leftover)).1.log ≡ true
run_waits_example = run_waits lame job 0 leftover

run_finishes_example :
    let s = (run clumsy job (record (fresh 0 leftover) { last_error = some reported })).1 in
    (end_count s.log ≡ 1)
    × (((s.last_error ≡ none) × (s.phase ≡ ready) × Verified clumsy job s.files.live)
        ⊎ ((e : Err) × (s.last_error ≡ some e)
            × ((s.phase ≡ ready) ⊎ ((s.phase ≡ degraded) ⊎ (s.phase ≡ degraded)))))
run_finishes_example =
    run_finishes clumsy job 0 leftover (some reported) (λ n id phase. refl) (λ n id cause. refl)
