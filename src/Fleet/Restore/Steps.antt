-- ===== src/Fleet/Restore/Steps.antt =====
-- What the steps of a restore that leave the files alone do to the stand-off of boots.
use runtime_service.Base.{
  true, false, ℕ, zero, not, ◌||◌, leb_ℤ, suc, refl, ℤ, pos, List, [], ◌∷◌, Option, none, some,
  Text,
}
use runtime_service.Errors.{is_ok, ok, err, Result}
use runtime_service.Action.Triple.{Triple, Triple-bind, Triple-attempt, Triple-test}
use runtime_service.Fleet.Replica.{Replica}
use runtime_service.Fleet.Teardown.{is_resident}
use runtime_service.Fleet.VolumeManager.{is_empty}
use runtime_service.Fleet.Volume.{Volume, VolumeStatus}
use runtime_service.Fleet.Restore.{
  is_none_left, Files, Outside, Restore, volume_written, drained, scaled, State, scale,
  set_volume_status, write_volume, set_volume_available, poll_drained, drain, probe_all,
  probe_replicas, engine_admits, serving, unless_served, give_up, poll_healthy, wait_healthy,
}
use runtime_service.Fleet.Restore.Held.{
  noted, turn, Gate, Gate, opened, up, closed, turn, Held, Either, Holds, query_keeps, ask_keeps,
  lift_keeps, bind_keeps, attempt_keeps, ask_does, lift_fails, pure_does, Served, note_served,
  note_turns, note_does,
}

module _ (out : Outside) (job : Restore) {K : Files → Type 0} where
  pub scale_turns :
      {g : Gate} (n : ℤ) → Triple (Held K g) (scale out job n) (λ r. Held K (turn (scaled n) g))
  unfolding scale
  scale_turns n =
      Triple-bind (note_turns (scaled n) refl refl)
        (λ done. bind_keeps (query_keeps _) (λ b. lift_keeps _)) (λ e s h. h)

  turned :
      {g : Gate} (status : VolumeStatus) (answer : Result (Unit {0})) (s : State) (calls : ℕ)
      → Held K g s
      → Either
          (Held K (turn (volume_written status true) g))
          (Held K (turn (volume_written status false) g))
          answer
          (record s { calls = calls; log = volume_written status (is_ok answer) ∷ s.log })
  turned status (ok done) s calls h = noted (volume_written status true) refl refl h
  turned status (err e) s calls h = noted (volume_written status false) refl refl h

  -- The gate after the write of a row, by its answer.
  write_turns :
      {g : Gate} (v : Volume)
      → Triple (Held K g) (write_volume out job v) (
          Either
            (Held K (turn (volume_written v.status true) g))
            (Held K (turn (volume_written v.status false) g)))
  unfolding write_volume
  write_turns v = record {
    at = λ s h. turned v.status (out.update_volume s.calls v) s (suc s.calls) h;
  }

  pub raise_turns :
      (attached : Option ℕ)
      → Triple
          (Held K opened)
          (set_volume_status out job VolumeStatus.restoring attached)
          (Either (Held K up) (Held K opened))
  unfolding set_volume_status
  raise_turns attached = Triple-bind (ask_keeps _) (λ now. write_turns _) (λ e s h. h)

  -- It has no error.
  pub lower_turns :
      {g : Gate} {Q : State → Type 0}
      → Triple (Held K g) (set_volume_available out job) (Either (Held K opened) Q)
  unfolding set_volume_available set_volume_status
  lower_turns =
      Triple-attempt _ (Triple-bind (ask_does _) (λ now. write_turns _) (λ e s h. h))
        (λ done. pure_does tt) (λ e. pure_does tt)

  poll_turns :
      (rounds : ℕ)
      → Triple (Held K up) (poll_drained out job rounds) (Either (Held K closed) (Held K up))
  unfolding poll_drained
  poll_turns zero =
      Triple-bind (query_keeps _)
        (λ rs. Triple-test (is_none_left rs) (note_does drained refl refl) (lift_fails _))
        (λ e s h. h)
  poll_turns (suc rounds) =
      Triple-bind (query_keeps _)
        (λ rs. Triple-test (is_none_left rs) (note_does drained refl refl) (poll_turns rounds))
        (λ e s h. h)

  pub drain_turns : Triple (Held K up) (drain out job) (Either (Held K closed) (Held K up))
  unfolding drain
  drain_turns =
      Triple-bind (scale_turns (pos 0)) (λ done. Triple-bind (ask_keeps _) poll_turns (λ e s h. h))
        (λ e s h. h)

  -- The probe of the engine changes nothing.
  probe_keeps :
      {g : Gate} (probe : ℕ → Text → ℤ → Result (Unit {0})) (n : ℕ) (rs : List Replica)
      → Holds K g (probe_all out job probe n rs)
  unfolding probe_all
  probe_keeps probe n [] = lift_keeps _
  probe_keeps probe n (r ∷ rs) = Triple-test (not (is_resident r.state)) (probe_keeps probe n rs) (
      Triple-test (is_empty r.guest_ip || leb_ℤ r.port (pos 0)) (lift_keeps _) (
        bind_keeps (attempt_keeps (query_keeps _))
          (λ c. bind_keeps (lift_keeps _) (λ d. probe_keeps probe (suc n) rs))))

  replicas_keep :
      {g : Gate} (probe : Option (ℕ → Text → ℤ → Result (Unit {0})))
      → Holds K g (probe_replicas out job probe)
  unfolding probe_replicas
  replicas_keep none = lift_keeps _
  replicas_keep (some probe) =
      bind_keeps (attempt_keeps (query_keeps _))
        (λ r. bind_keeps (lift_keeps _) (λ rs. probe_keeps probe 0 rs))

  admits_keeps : {g : Gate} → Holds K g (engine_admits out job)
  unfolding engine_admits
  admits_keeps = replicas_keep out.pg_ready

  serving_finds : Triple (Held K opened) (serving out job) (Either (Served K) (Held K opened))
  unfolding serving
  serving_finds =
      Triple-bind (query_keeps _)
        (λ healthy.
          Triple-bind (Triple-test healthy admits_keeps (lift_keeps _)) (λ done. note_served)
            (λ e s h. h))
        (λ e s h. h)

  poll_finds :
      (rounds : ℕ)
      → Triple (Held K opened) (poll_healthy out job rounds) (Either (Served K) (Held K opened))
  unfolding poll_healthy unless_served give_up
  poll_finds zero =
      Triple-attempt _ serving_finds (λ done. pure_does tt)
        (λ e. Triple-bind (ask_keeps _) (λ ended. lift_fails _) (λ f s h. h))
  poll_finds (suc rounds) =
      Triple-attempt _ serving_finds (λ done. pure_does tt) (λ e. poll_finds rounds)

  pub health_finds :
      Triple (Held K opened) (wait_healthy out job) (Either (Served K) (Held K opened))
  unfolding wait_healthy
  health_finds = Triple-bind (ask_keeps _) poll_finds (λ e s h. h)
