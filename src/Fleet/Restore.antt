-- ===== src/Fleet/Restore.antt =====
-- internal/usecase/fleet_volume_restore.go: the restore of a volume in place, from the moment that it is
-- admitted. The bytes of the download are one read of the object; the log lines and the counters are left out.
mod Types
pub mod Swap
pub mod Run
pub mod Held
mod Steps
mod Paths
mod Kept
mod Read
pub mod Ends
mod Tests
use runtime_service.Base.{
  ℕ, zero, suc, Bool, true, false, not, ◌&&◌, ◌||◌, ◌==◌, if◌then◌else◌, ℤ, pos, leb_ℤ, eq_ℤ, ltb_ℤ,
  List, [], ◌∷◌, Option, none, some, Text,
}
use runtime_service.Errors.{
  Err, fleet, restore, external, fleet_app_not_found, restore_integrity,
  restore_engine_not_admitting, Result, is_ok, ok, err,
}
use runtime_service.Action.{Action, ◌>>=◌, ◌>>◌, lift, pure, attempt, modify}
use runtime_service.Fleet.Replica.{Replica}
use runtime_service.Fleet.Volume.{Volume, VolumeStatus, available, restoring}
use runtime_service.Fleet.Teardown.{is_resident}
use runtime_service.Fleet.VolumeManager.{is_empty}
pub use Types.*

abbrev pub M : Type 0 → Type 0
M A = Action State A

unfoldable pub note : Event → M (Unit {0})
note e = modify (λ s. record s { log = e ∷ s.log })

unfoldable pub query : {A : Type 0} → (ℕ → Result A) → M A
query f s = (f s.calls, record s { calls = suc s.calls })

unfoldable pub ask : {A : Type 0} → (ℕ → A) → M A
ask f = query (λ n. ok (f n))

-- An error that is only reported.
abbrev pub reported : Err
reported = external 0

unfoldable pub verify_recovery_point :
    (Text → Text → Bool) → FleetResourceRecoveryPoint → ℤ → Text → Result (Unit {0})
verify_recovery_point equal_fold rp size sum =
    if leb_ℤ rp.size_bytes (pos 0) && is_empty rp.checksum
    then err (restore restore_integrity)
    else if ltb_ℤ (pos 0) rp.size_bytes && not (eq_ℤ size rp.size_bytes)
    then err (restore restore_integrity)
    else if is_empty rp.checksum
    then ok tt
    else if not (equal_fold sum rp.checksum)
    then err (restore restore_integrity)
    else ok tt

abbrev pub known : Bool → Result (Unit {0})
known true = ok tt
known false = err (fleet fleet_app_not_found)

abbrev pub stored : {A : Type 0} → Result (Unit {0}) → A → A → A
stored (ok done) new old = new
stored (err e) new old = old

abbrev pub is_none_left : List Replica → Bool
is_none_left [] = true
is_none_left (r ∷ rs) = false

module _ (out : Outside) (job : Restore) where
  unfoldable pub scale : ℤ → M (Unit {0})
  scale replicas = do
    note (scaled replicas)
    is_app ← query (λ n. out.scale_app n job.app_id replicas)
    lift (known is_app)

  unfoldable pub write_volume : Volume → M (Unit {0})
  write_volume v s =
      let answer = out.update_volume s.calls v in
      (
        answer,
        record s { calls = suc s.calls; log = volume_written v.status (is_ok answer) ∷ s.log },
      )

  -- setVolumeStatus: `restoring` raises the stand-off, which refuses every boot.
  unfoldable pub set_volume_status : VolumeStatus → Option ℕ → M (Unit {0})
  set_volume_status status attached = do
    now ← ask out.now
    write_volume
        (record job.volume { status = status; attached_replica = attached; updated_at = now })

  -- An error is only logged.
  unfoldable pub set_volume_available : M (Unit {0})
  set_volume_available = do attempt (set_volume_status VolumeStatus.available none); pure tt

  unfoldable pub poll_drained : ℕ → M (Unit {0})
  poll_drained zero = do
    rs ← query (λ n. out.list_replicas n job.app_id)
    if is_none_left rs then note drained else lift (err reported)
  poll_drained (suc rounds) = do
    rs ← query (λ n. out.list_replicas n job.app_id)
    if is_none_left rs then note drained else (λ s. poll_drained rounds s)

  unfoldable pub drain : M (Unit {0})
  drain = do scale (pos 0); rounds ← ask out.drain_rounds; poll_drained rounds

  -- Every error of the probe is the one sentinel.
  abbrev not_admitting : {A : Type 0} → Result A → Result A
  not_admitting (ok a) = ok a
  not_admitting (err e) = err (restore restore_engine_not_admitting)

  abbrev refused : Result (Unit {0})
  refused = err (restore restore_engine_not_admitting)

  unfoldable pub probe_all : (ℕ → Text → ℤ → Result (Unit {0})) → ℕ → List Replica → M (Unit {0})
  probe_all probe probed [] = lift (if probed == 0 then refused else ok tt)
  probe_all probe probed (r ∷ rs) =
      let rest : M (Unit {0}) = λ s. probe_all probe probed rs s in
      if not (is_resident r.state)
      then rest
      else if is_empty r.guest_ip || leb_ℤ r.port (pos 0)
      then lift refused
      else (do
        answer ← attempt (query (λ n. probe n r.guest_ip r.port))
        lift (not_admitting answer)
        λ s. probe_all probe (suc probed) rs s)

  unfoldable pub probe_replicas : Option (ℕ → Text → ℤ → Result (Unit {0})) → M (Unit {0})
  probe_replicas none = lift refused
  probe_replicas (some probe) = do
    read ← attempt (query (λ n. out.list_replicas n job.app_id))
    rs ← lift (not_admitting read)
    probe_all probe 0 rs

  unfoldable pub engine_admits : M (Unit {0})
  engine_admits = probe_replicas out.pg_ready

  unfoldable pub serving : M (Unit {0})
  serving = do
    healthy ← query (λ n. out.health n job.app_id)
    if healthy then engine_admits else lift (err reported)
    note served

  -- The last error, or that of the context.
  abbrev pub cut : Option Err → Err → Err
  cut none last = last
  cut (some e) last = e

  unfoldable pub give_up : Result (Unit {0}) → M (Unit {0})
  give_up (ok done) = pure tt
  give_up (err last) = do ended ← ask out.ended; lift (err (cut ended last))

  unfoldable pub unless_served : M (Unit {0}) → Result (Unit {0}) → M (Unit {0})
  unless_served again (ok done) = pure tt
  unless_served again (err e) = again

  unfoldable pub poll_healthy : ℕ → M (Unit {0})
  poll_healthy zero = do last ← attempt serving; give_up last
  poll_healthy (suc rounds) = do
    last ← attempt serving
    unless_served (λ s. poll_healthy rounds s) last

  unfoldable pub wait_healthy : M (Unit {0})
  wait_healthy = do rounds ← ask out.health_rounds; poll_healthy rounds

  -- The writes of the resource's row: one that fails leaves the column as it was.
  unfoldable pub update_resource_phase : FleetResourcePhase → M (Unit {0})
  update_resource_phase phase s =
      let answer = out.update_phase s.calls job.resource_id phase in
      (answer, record s { calls = suc s.calls; phase = stored answer phase s.phase })

  unfoldable pub set_resource_last_error : Option Err → M (Unit {0})
  set_resource_last_error cause s =
      let answer = out.set_last_error s.calls job.resource_id cause in
      (answer, record s { calls = suc s.calls; last_error = stored answer cause s.last_error })

  unfoldable pub finish : FleetResourcePhase → Option Err → M (Unit {0})
  finish phase cause = do
    note (finished phase cause)
    attempt (update_resource_phase phase)
    attempt (set_resource_last_error cause)
    pure tt

  unfoldable pub abandon : Err → M (Unit {0})
  abandon cause = finish job.prev_phase (some cause)
