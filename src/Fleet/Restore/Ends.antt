-- ===== src/Fleet/Restore/Ends.antt =====
-- A restore ends once, and every way through it keeps the original of the volume.
use runtime_service.Base.{
  subst, sym, ℕ, suc, Bool, true, false, not, ◌≡◌, refl, ◌⊎◌, inl, inr, pos, List, [], ◌∷◌, Option,
  none, some, text_eq,
}
use runtime_service.Errors.{Err, Result, ok, err}
use runtime_service.Action.{◌>>=◌, ◌>>◌, pure, attempt, modify}
use runtime_service.Action.Triple.{Triple, Triple-bind, Triple-attempt, Triple-test}
use runtime_service.Fleet.Volume.{Volume, points_to}
use runtime_service.Fleet.Restore.{
  update_resource_phase, set_resource_last_error, FleetResourcePhase, ready, degraded, VolumeFile,
  pre, staged, Files, Outside, Restore, Event, finished, removed, served, State, M, note, query,
  set_volume_available, finish, abandon,
}
use runtime_service.Fleet.Restore.Swap.{drop_file, remove}
use runtime_service.Fleet.Restore.Run.{
  degrade, after_revival, revive, back_in_service, back_booted, back_swapped, back_drained,
  back_raised, rollback, after_health, after_boot, after_put_back, after_swap, after_drain,
  after_raise, after_stage, admit_volume, run,
}
use runtime_service.Fleet.Restore.Held.{
  is_safe, end_count, Gate, opened, up, closed, Held, Original, query_keeps, Served, Ended, IsRest,
  IsOutcome, Verified, With,
}
use runtime_service.Fleet.Restore.Paths.{remove_does, less_known, given}
use runtime_service.Fleet.Restore.Kept.{swap_in_puts, swap_back_keeps, put_back_keeps}
use runtime_service.Fleet.Restore.Read.{stage_puts}
use runtime_service.Fleet.Restore.Steps.{
  scale_turns, raise_turns, lower_turns, drain_turns, health_finds,
}

module _ (out : Outside) (job : Restore) (Lost : Type 0) (o : ℕ) where
  -- The live file is what was read and verified.
  abbrev Restored : Files → Type 0
  Restored f = Verified out job f.live

  abbrev Installed : Files → Type 0
  Installed = With (Original Lost o) Restored

  abbrev ToEnd : Gate → M (Unit {0}) → Type 0
  ToEnd g m = Triple (Held (Original Lost o) g) m (λ r. Ended out job Lost o)

  -- The end with an error.
  finish_ends :
      {g : Gate} (phase : FleetResourcePhase) (cause : Err)
      → IsRest job phase
      → ToEnd g (finish out job phase (some cause))
  unfolding finish update_resource_phase set_resource_last_error note modify attempt pure ◌>>=◌
  finish_ends phase cause rest = record {
    at = λ s h. record {
      kept = inl h.kept;
      safety = h.safety;
      once = rw h.running refl;
      phase = phase;
      cause = some cause;
      in_phase = λ writes. rw (writes s.calls job.resource_id phase) refl;
      with_cause = λ writes. rw (writes (suc s.calls) job.resource_id (some cause)) refl;
      outcome = rest;
    };
  }

  degrade_ends : {g : Gate} (cause : Err) → ToEnd g (degrade out job cause)
  unfolding degrade
  degrade_ends cause = finish_ends degraded cause (inr (inl refl))

  abandon_ends : {g : Gate} (cause : Err) → ToEnd g (abandon out job cause)
  unfolding abandon
  abandon_ends cause = finish_ends job.prev_phase cause (inr (inr refl))

  -- The staging file is removed on the way out.
  discard_ends : {g : Gate} {m : M (Unit {0})} → ToEnd g m → ToEnd g (do remove out job staged; m)
  discard_ends {g} end_count =
      Triple-bind (remove_does out job staged refl (λ f h. h)) (λ x. end_count) (λ e s h. h)

  -- The stand-off is lowered first.
  lower_ends :
      {g : Gate} {m : M (Unit {0})} → ToEnd opened m → ToEnd g (do set_volume_available out job; m)
  lower_ends end_count = Triple-bind (lower_turns out job) (λ u. end_count) (λ e s h. h)

  revival_ends :
      (cause : Err) (r : Result (Unit {0})) → ToEnd opened (after_revival out job cause r)
  unfolding after_revival
  revival_ends cause (err e) = degrade_ends cause
  revival_ends cause (ok u) = abandon_ends cause

  revive_ends : {g : Gate} (cause : Err) → ToEnd g (revive out job cause)
  unfolding revive
  revive_ends cause = lower_ends (
      Triple-attempt _ (scale_turns out job (pos 1)) (λ u. revival_ends cause (ok u))
        (λ e. revival_ends cause (err e)))

  service_ends :
      (cause : Err) (r : Result (Unit {0})) → ToEnd opened (back_in_service out job cause r)
  unfolding back_in_service
  service_ends cause (err e) = degrade_ends cause
  service_ends cause (ok u) = finish_ends ready cause (inl refl)

  booted_ends : (cause : Err) (r : Result (Unit {0})) → ToEnd opened (back_booted out job cause r)
  unfolding back_booted
  booted_ends cause (err e) = degrade_ends cause
  booted_ends cause (ok u) =
      Triple-attempt _ (health_finds out job)
        (λ v. given (λ s h. h.held) (service_ends cause (ok v))) (λ e. service_ends cause (err e))

  swapped_ends : (cause : Err) (r : Result (Unit {0})) → ToEnd closed (back_swapped out job cause r)
  unfolding back_swapped
  swapped_ends cause (err e) = lower_ends (degrade_ends cause)
  swapped_ends cause (ok u) = lower_ends (
      Triple-attempt _ (scale_turns out job (pos 1)) (λ v. booted_ends cause (ok v))
        (λ e. booted_ends cause (err e)))

  drained_ends : (cause : Err) (u : Unit {0}) → ToEnd closed (back_drained out job cause (ok u))
  unfolding back_drained
  drained_ends cause u =
      Triple-attempt _ (swap_back_keeps out job Lost o) (λ v. swapped_ends cause (ok v))
        (λ e. swapped_ends cause (err e))

  undrained_ends : (cause e : Err) → ToEnd up (back_drained out job cause (err e))
  unfolding back_drained
  undrained_ends cause e = degrade_ends cause

  raised_ends : (cause : Err) (u : Unit {0}) → ToEnd up (back_raised out job cause (ok u))
  unfolding back_raised
  raised_ends cause u =
      Triple-attempt _ (drain_turns out job) (drained_ends cause) (undrained_ends cause)

  unraised_ends : (cause e : Err) → ToEnd opened (back_raised out job cause (err e))
  unfolding back_raised
  unraised_ends cause e = degrade_ends cause

  rollback_ends : (cause : Err) → ToEnd opened (rollback out job cause)
  unfolding rollback
  rollback_ends cause =
      Triple-attempt _ (raise_turns out job none) (raised_ends cause) (unraised_ends cause)

  -- The parked original is removed, which only the log has to tell.
  dropped_log :
      (p : VolumeFile) (r : Bool) (c : Option ℕ) (s : State) → (drop_file p r c s).1.log ≡ s.log
  unfolding drop_file
  dropped_log p true c s = refl
  dropped_log p false none s = refl
  dropped_log p false (some c) s = refl

  -- The live file is another one.
  dropped_live :
      (r : Bool) (c : Option ℕ) (s : State) → (drop_file pre r c s).1.files.live ≡ s.files.live
  unfolding drop_file
  dropped_live true c s = refl
  dropped_live false none s = refl
  dropped_live false (some c) s = refl

  success_ends :
      Triple
        (Served Installed)
        (do remove out job pre; finish out job ready none)
        (λ r. Ended out job Lost o)
  unfolding remove finish update_resource_phase set_resource_last_error note modify attempt pure
      ◌>>=◌
  success_ends = record {
    at = λ s h.
        let begun : State = record s { calls = suc s.calls; log = removed pre ∷ s.log } in
        let refused = out.file_fails s.calls in
        let same = dropped_log pre refused s.files.pre begun in
        let image =
          subst (Verified out job) (sym (dropped_live refused s.files.pre begun)) h.held.kept.1 in
        record {
          kept = inr (h.before, rw (same, h.last) refl, image);
          safety = rw (same, h.held.safety) refl;
          once = rw (same, h.held.running) refl;
          phase = ready;
          cause = none;
          in_phase = λ writes. rw (writes _ job.resource_id ready) refl;
          with_cause = λ writes. rw (writes _ job.resource_id none) refl;
          outcome = (refl, image);
        };
  }

  mark_kept :
      Triple
        (Served Installed)
        (query (λ n. out.mark_restored n job.recovery_point.id))
        (λ r. Served Installed)
  unfolding query
  mark_kept = record {
    at = λ s h. record {
      held = (query_keeps (λ n. out.mark_restored n job.recovery_point.id)).at s h.held;
      before = h.before;
      last = h.last;
    };
  }

  healthy_ends :
      (u : Unit {0})
      → Triple (Served Installed) (after_health out job (ok u)) (λ r. Ended out job Lost o)
  unfolding after_health
  healthy_ends u = Triple-attempt _ mark_kept (λ v. success_ends) (λ e. success_ends)

  late_ends :
      {g : Gate} {m : M (Unit {0})}
      → ToEnd g m
      → Triple (Held Installed g) m (λ r. Ended out job Lost o)
  late_ends t = given (λ s. less_known (λ f (h, restored). h)) t

  unhealthy_ends :
      (e : Err)
      → Triple (Held Installed opened) (after_health out job (err e)) (λ r. Ended out job Lost o)
  unfolding after_health
  unhealthy_ends e = late_ends (rollback_ends e)

  boot_ends :
      (r : Result (Unit {0}))
      → Triple (Held Installed opened) (after_boot out job r) (λ r. Ended out job Lost o)
  unfolding after_boot
  boot_ends (err e) = late_ends (degrade_ends e)
  boot_ends (ok u) = Triple-attempt _ (health_finds out job) healthy_ends unhealthy_ends

  put_back_ends :
      (cause : Err) (r : Result (Unit {0})) → ToEnd closed (after_put_back out job cause r)
  unfolding after_put_back
  put_back_ends cause (err e) = lower_ends (degrade_ends cause)
  put_back_ends cause (ok u) = revive_ends cause

  unswapped_ends : (e : Err) → ToEnd closed (after_swap out job (err e))
  unfolding after_swap
  unswapped_ends e = discard_ends (
      Triple-attempt _ (put_back_keeps out job Lost o) (λ u. put_back_ends e (ok u))
        (λ f. put_back_ends e (err f)))

  swap_ends :
      (u : Unit {0})
      → Triple (Held Installed closed) (after_swap out job (ok u)) (λ r. Ended out job Lost o)
  unfolding after_swap
  swap_ends u =
      Triple-bind (lower_turns out job)
        (λ v.
          Triple-attempt _ (scale_turns out job (pos 1)) (λ w. boot_ends (ok w))
            (λ e. boot_ends (err e)))
        (λ e s h. h)

  abbrev Ready : Files → Type 0
  Ready = With (Original Lost o) (λ f. Verified out job f.staged)

  early_ends :
      {g : Gate} {m : M (Unit {0})}
      → ToEnd g m
      → Triple (Held Ready g) m (λ r. Ended out job Lost o)
  early_ends t = given (λ s. less_known (λ f (h, staging). h)) t

  drain_ends :
      (u : Unit {0})
      → Triple (Held Ready closed) (after_drain out job (ok u)) (λ r. Ended out job Lost o)
  unfolding after_drain
  drain_ends u = Triple-attempt _ (swap_in_puts out job Lost o) swap_ends unswapped_ends

  undrain_ends :
      (e : Err) → Triple (Held Ready up) (after_drain out job (err e)) (λ r. Ended out job Lost o)
  unfolding after_drain
  undrain_ends e = early_ends (discard_ends (revive_ends e))

  raise_ends :
      (u : Unit {0})
      → Triple (Held Ready up) (after_raise out job (ok u)) (λ r. Ended out job Lost o)
  unfolding after_raise
  raise_ends u = Triple-attempt _ (drain_turns out job) drain_ends undrain_ends

  unraise_ends :
      (e : Err)
      → Triple (Held Ready opened) (after_raise out job (err e)) (λ r. Ended out job Lost o)
  unfolding after_raise
  unraise_ends e = early_ends (discard_ends (abandon_ends e))

  unstaged_ends : (e : Err) → ToEnd opened (after_stage out job (err e))
  unfolding after_stage
  unstaged_ends e = discard_ends (abandon_ends e)

  staged_ends :
      (u : Unit {0})
      → Triple (Held Ready opened) (after_stage out job (ok u)) (λ r. Ended out job Lost o)
  unfolding after_stage
  staged_ends u =
      Triple-attempt _ (raise_turns out job job.volume.attached_replica) raise_ends unraise_ends

  admit_ends : (r : Result Volume) → ToEnd opened (admit_volume out job r)
  unfolding admit_volume
  admit_ends (err e) = abandon_ends e
  admit_ends (ok fresh) =
      Triple-test (not (points_to job.self_host fresh.host_affinity)) (abandon_ends _) (
        Triple-test (not (text_eq fresh.backing_path job.volume.backing_path)) (abandon_ends _)
          (Triple-attempt _ (stage_puts out job Lost o) staged_ends unstaged_ends))

  run_ends : ToEnd opened (run out job)
  unfolding run
  run_ends = Triple-attempt _ (query_keeps _) (λ v. admit_ends (ok v)) (λ e. admit_ends (err e))

by_outcome :
    (out : Outside) (job : Restore) (phase : FleetResourcePhase) (cause : Option Err) (f : Files)
    → IsOutcome out job phase cause f
    → ((cause ≡ none) × (phase ≡ ready) × Verified out job f.live)
      ⊎ ((e : Err) × (cause ≡ some e) × IsRest job phase)
by_outcome out job phase none f (is_ready, image) = inl (refl, is_ready, image)
by_outcome out job phase (some e) f rest = inr (e, refl, rest)

abbrev pub fresh : ℕ → Files → State
fresh calls files = record {
  calls = calls;
  files = files;
  phase = FleetResourcePhase.restoring;
  last_error = none;
  log = [];
}

-- Before the first step.
pub fresh_Held :
    {K : Files → Type 0} (calls : ℕ) (files : Files) → K files → Held K opened (fresh calls files)
fresh_Held calls files h = record { kept = h; safety = refl; running = refl; standing = refl }

-- Whichever calls fail, a restore that finds the original of the volume parked, or live with none parked,
-- leaves it parked, or live with none parked; or the restore ended as `ready` without an error, the live file
-- holds an image that one read of the object gave without an error and the check of the recovery point accepts,
-- and the only thing that was done to the files since the engine was last found to serve is the removal of the
-- parked file.
pub run_keeps :
    (out : Outside) (job : Restore) (o calls : ℕ) (files : Files)
    → (files.pre ≡ some o) ⊎ ((files.pre ≡ none) × (files.live ≡ some o))
    → let s = (run out job (fresh calls files)).1 in
      ((s.files.pre ≡ some o) ⊎ ((s.files.pre ≡ none) × (s.files.live ≡ some o)))
      ⊎ ((before : List Event) × (s.log ≡ finished ready none ∷ removed pre ∷ served ∷ before)
          × Verified out job s.files.live)
run_keeps out job o calls files h =
    elim ((run_ends out job ⊥ o).at _ (fresh_Held calls files (inr h))).kept [
      | inl (inl never) ↦ absurd never
      | inl (inr there) ↦ inl there
      | inr removal ↦ inr removal
    ]

-- Whatever the files hold and whichever calls fail, a restore and its rollback move, replace and remove the
-- backing file only while boots of the volume are refused and, since that was written, no replica was left and
-- none was asked for.
pub run_waits :
    (out : Outside) (job : Restore) (calls : ℕ) (files : Files)
    → is_safe (run out job (fresh calls files)).1.log ≡ true
run_waits out job calls files =
    ((run_ends out job (Unit {0}) 0).at _ (fresh_Held calls files (inl tt))).safety

-- When no write of the resource's row fails: whatever the files hold, whichever other calls fail and whatever
-- error was recorded before, a restore ends once, and then the row is `ready` without an error and the live file
-- holds an image that was read and verified, or the row has an error, and is `ready`, `degraded` or in the phase
-- that the resource came from.
pub run_finishes :
    (out : Outside) (job : Restore) (calls : ℕ) (files : Files) (before : Option Err)
    → ((n id : ℕ) (phase : FleetResourcePhase) → out.update_phase n id phase ≡ ok tt)
    → ((n id : ℕ) (cause : Option Err) → out.set_last_error n id cause ≡ ok tt)
    → let s = (run out job (record (fresh calls files) { last_error = before })).1 in
      (end_count s.log ≡ 1)
      × (((s.last_error ≡ none) × (s.phase ≡ ready) × Verified out job s.files.live)
          ⊎ ((e : Err) × (s.last_error ≡ some e)
              × ((s.phase ≡ ready) ⊎ ((s.phase ≡ degraded) ⊎ (s.phase ≡ job.prev_phase)))))
run_finishes out job calls files before phases errors =
    let s0 : State = record (fresh calls files) { last_error = before } in
    let end =
      (run_ends out job (Unit {0}) 0).at s0
        (record { kept = inl tt; safety = refl; running = refl; standing = refl }) in
    let s = (run out job s0).1 in
    (
      end.once,
      by_outcome out job s.phase s.last_error s.files (
          subst (λ p. IsOutcome out job p s.last_error s.files) (sym (end.in_phase phases))
            (subst (λ c. IsOutcome out job end.phase c s.files) (sym (end.with_cause errors))
              end.outcome)),
    )
