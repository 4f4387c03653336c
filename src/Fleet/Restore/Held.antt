-- ===== src/Fleet/Restore/Held.antt =====
-- What stays true while a restore runs: of the files, and of the log of what it did.
use runtime_service.Base.{
  Option, ℕ, suc, Bool, true, false, not, ◌&&◌, ◌||◌, if◌then◌else◌, ◌≡◌, refl, ◌⊎◌, List, [], ◌∷◌,
  none, some,
}
use runtime_service.Errors.{Err, Result, ok, err}
use runtime_service.Action.{Action, ◌>>=◌, lift, pure, attempt, modify}
use runtime_service.Action.Triple.{Triple, Triple-bind}
use runtime_service.Fleet.Volume.{VolumeStatus}
use runtime_service.Fleet.Restore.{
  FleetResourcePhase, degraded, FleetResourcePhase, degraded, Image, Outside, Restore,
  verify_recovery_point, ready, VolumeFile, live, pre, staged, failed, Files, Event, volume_written,
  drained, served, scaled, moved, removed, finished, State, M, note, query, ask,
}

-- Where the boots of the volume stand: open, refused, or refused with no replica left.
pub data Gate : Type 0 where
  opened up closed : Gate

abbrev pub is_closed : Gate → Bool
is_closed opened = false
is_closed up = false
is_closed closed = true

abbrev pub without_replica : Gate → Gate
without_replica opened = opened
without_replica up = closed
without_replica closed = closed

abbrev pub with_replica : Gate → Gate
with_replica opened = opened
with_replica up = up
with_replica closed = up

-- The status that refuses every boot of a volume.
abbrev pub refuses_boots : VolumeStatus → Bool
refuses_boots VolumeStatus.restoring = true
refuses_boots VolumeStatus.available = false
refuses_boots VolumeStatus.attached = false
refuses_boots VolumeStatus.degraded = false
refuses_boots (VolumeStatus.other_status s) = false

-- A write of another status that failed may have been made all the same.
abbrev pub after_write : Bool → Bool → Gate → Gate
after_write true true g = up
after_write true false g = g
after_write false stored g = opened

abbrev pub turn : Event → Gate → Gate
turn (volume_written status stored) g = after_write (refuses_boots status) stored g
turn drained g = without_replica g
turn (scaled n) g = with_replica g
turn served g = g
turn (moved a b) g = g
turn (removed p) g = g
turn (finished phase cause) g = g

-- The gate after a log, which is newest first.
abbrev pub gate : List Event → Gate
gate [] = opened
gate (e ∷ es) = turn e (gate es)

abbrev pub is_live : VolumeFile → Bool
is_live live = true
is_live pre = false
is_live staged = false
is_live failed = false

-- Whether an event moves, replaces or removes the backing file.
abbrev pub touches : Event → Bool
touches (volume_written status stored) = false
touches drained = false
touches served = false
touches (scaled n) = false
touches (moved a b) = is_live a || is_live b
touches (removed p) = is_live p
touches (finished phase cause) = false

abbrev pub allowed : Event → Gate → Bool
allowed e g = not (touches e) || is_closed g

-- Whether the backing file was only touched while boots were refused and no replica was left.
abbrev pub is_safe : List Event → Bool
is_safe [] = true
is_safe (e ∷ es) = allowed e (gate es) && is_safe es

abbrev pub is_end : Event → Bool
is_end (volume_written status stored) = false
is_end drained = false
is_end served = false
is_end (scaled n) = false
is_end (moved a b) = false
is_end (removed p) = false
is_end (finished phase cause) = true

abbrev pub end_count : List Event → ℕ
end_count [] = 0
end_count (e ∷ es) = if is_end e then suc (end_count es) else end_count es

-- The original is the parked file, or the live file when none is parked; nothing is said where Lost holds.
abbrev pub Original : Type 0 → ℕ → Files → Type 0
Original Lost o f = Lost ⊎ ((f.pre ≡ some o) ⊎ ((f.pre ≡ none) × (f.live ≡ some o)))

abbrev pub Parked : Type 0 → ℕ → Files → Type 0
Parked Lost o f = Lost ⊎ (f.pre ≡ some o)

abbrev pub InPlace : Type 0 → ℕ → Files → Type 0
InPlace Lost o f = Lost ⊎ ((f.pre ≡ none) × (f.live ≡ some o))

-- A file that holds what one read of the object gave, which the check of the recovery point accepts.
abbrev pub Verified : Outside → Restore → Option ℕ → Type 0
Verified out job c =
    (image : Image) × (n : ℕ) × (out.stream n ≡ ok image)
    × (verify_recovery_point out.equal_fold job.recovery_point image.size image.sum ≡ ok tt)
    × (c ≡ some image.content)

abbrev pub With : (Files → Type 0) → (Files → Type 0) → Files → Type 0
With K L f = K f × L f

-- Before the end of a run: K of the files, and the gate g.
pub record At (K : Files → Type 0) (g : Gate) (f : Files) (log : List Event) : Type 0 where
  pub kept : K f
  pub safety : is_safe log ≡ true
  pub running : end_count log ≡ 0
  pub standing : gate log ≡ g

abbrev pub Held : (Files → Type 0) → Gate → State → Type 0
Held K g s = At K g s.files s.log

-- What an action that may fail leaves behind.
abbrev pub Either : {A : Type 0} → (State → Type 0) → (State → Type 0) → Result A → State → Type 0
Either P Q (ok a) s = P s
Either P Q (err e) s = Q s

-- What an attempt hands on is never an error.
abbrev pub Holds : (Files → Type 0) → Gate → {A : Type 0} → M A → Type 0
Holds K g m = Triple (Held K g) m (λ r. Held K g)

pub query_keeps :
    {K : Files → Type 0} {g : Gate} {A : Type 0} (f : ℕ → Result A) → Holds K g (query f)
unfolding query
query_keeps f = record {
  at = λ s h. record {
    kept = h.kept;
    safety = h.safety;
    running = h.running;
    standing = h.standing;
  };
}

pub ask_keeps : {K : Files → Type 0} {g : Gate} {A : Type 0} (f : ℕ → A) → Holds K g (ask f)
unfolding ask
ask_keeps f = query_keeps _

pub lift_keeps : {S A : Type 0} {P : S → Type 0} (r : Result A) → Triple P (lift r) (λ q. P)
unfolding lift
lift_keeps r = record { at = λ s h. h }

pub pure_keeps : {S A : Type 0} {P : S → Type 0} (a : A) → Triple P (pure a) (λ q. P)
unfolding pure
pure_keeps a = record { at = λ s h. h }

pub lift_fails :
    {A : Type 0} {P Q : State → Type 0} (e : Err) → Triple P (lift {A = A} (err e)) (Either Q P)
unfolding lift
lift_fails e = record { at = λ s h. h }

-- The answer itself, and what held before.
pub lift_told :
    {S A : Type 0} {P : S → Type 0} (r : Result A) → Triple P (lift r) (λ q s. P s × (q ≡ r))
unfolding lift
lift_told r = record { at = λ s h. (h, refl) }

pub pure_does : {A : Type 0} {P Q : State → Type 0} (a : A) → Triple P (pure a) (Either P Q)
unfolding pure
pure_does a = record { at = λ s h. h }

pub attempt_keeps :
    {S A : Type 0} {P : S → Type 0} {m : Action S A}
    → Triple P m (λ r. P)
    → Triple P (attempt m) (λ r. P)
unfolding attempt
attempt_keeps t = record { at = λ s h. t.at s h }

-- The steps of a sequence that keeps what holds.
pub bind_keeps :
    {S A B : Type 0} {P : S → Type 0} {m : Action S A} {f : A → Action S B}
    → Triple P m (λ r. P)
    → ((a : A) → Triple P (f a) (λ r. P))
    → Triple P (m >>= f) (λ r. P)
bind_keeps first next = Triple-bind first next (λ e s h. h)

-- Neither a clock nor an attempt has an error.
pub ask_does :
    {K : Files → Type 0} {g : Gate} {A : Type 0} {Q : State → Type 0} (f : ℕ → A)
    → Triple (Held K g) (ask f) (Either (Held K g) Q)
unfolding ask query
ask_does f = record {
  at = λ s h. record {
    kept = h.kept;
    safety = h.safety;
    running = h.running;
    standing = h.standing;
  };
}

pub attempt_does :
    {A : Type 0} {P Q : State → Type 0} {m : M A}
    → Triple P m (λ r. P)
    → Triple P (attempt m) (Either P Q)
unfolding attempt
attempt_does t = record { at = λ s h. t.at s h }

-- An event that is noted where it is allowed.
pub noted :
    {K : Files → Type 0} {g : Gate} {f : Files} {log : List Event} (e : Event)
    → allowed e g ≡ true
    → is_end e ≡ false
    → At K g f log
    → At K (turn e g) f (e ∷ log)
noted e may going h = record {
  kept = h.kept;
  safety = rw (h.standing, may, h.safety) refl;
  running = rw (going, h.running) refl;
  standing = rw h.standing refl;
}

pub note_turns :
    {K : Files → Type 0} {g : Gate} (e : Event)
    → allowed e g ≡ true
    → is_end e ≡ false
    → Triple (Held K g) (note e) (λ r. Held K (turn e g))
unfolding note modify
note_turns e may going = record { at = λ s h. noted e may going h }

-- As it has no error, any may be told of it.
pub note_does :
    {K : Files → Type 0} {g : Gate} {Q : State → Type 0} (e : Event)
    → allowed e g ≡ true
    → is_end e ≡ false
    → Triple (Held K g) (note e) (Either (Held K (turn e g)) Q)
unfolding note modify
note_does e may going = record { at = λ s h. noted e may going h }

-- The engine was found to serve, and nothing was done since.
pub record Served (K : Files → Type 0) (s : State) : Type 0 where
  pub held : Held K opened s
  pub before : List Event
  pub last : s.log ≡ served ∷ before

-- No write of the phase, and none of the error, fails.
abbrev pub WritesPhase : Outside → Type 0
WritesPhase out = (n id : ℕ) (phase : FleetResourcePhase) → out.update_phase n id phase ≡ ok tt

abbrev pub WritesError : Outside → Type 0
WritesError out = (n id : ℕ) (cause : Option Err) → out.set_last_error n id cause ≡ ok tt

-- The phases that a restore that failed ends in.
abbrev pub IsRest : Restore → FleetResourcePhase → Type 0
IsRest job phase = (phase ≡ ready) ⊎ ((phase ≡ degraded) ⊎ (phase ≡ job.prev_phase))

-- Ready with no error and the verified image live; or an error is recorded, in one of these phases.
abbrev pub IsOutcome : Outside → Restore → FleetResourcePhase → Option Err → Files → Type 0
IsOutcome out job phase none f = (phase ≡ ready) × Verified out job f.live
IsOutcome out job phase (some e) f = IsRest job phase

-- After the end of a run: the original is there, or its removal follows the finding that the engine serves, and
-- the files are restored.
pub record Ended (out : Outside) (job : Restore) (Lost : Type 0) (o : ℕ) (s : State) : Type 0 where
  pub kept :
      Original Lost o s.files
      ⊎ ((before : List Event) × (s.log ≡ finished ready none ∷ removed pre ∷ served ∷ before)
          × Verified out job s.files.live)
  pub safety : is_safe s.log ≡ true
  pub once : end_count s.log ≡ 1
  pub phase : FleetResourcePhase
  pub cause : Option Err
  pub in_phase : WritesPhase out → s.phase ≡ phase
  pub with_cause : WritesError out → s.last_error ≡ cause
  pub outcome : IsOutcome out job phase cause s.files

pub note_served :
    {K : Files → Type 0} {Q : State → Type 0}
    → Triple (Held K opened) (note served) (Either (Served K) Q)
unfolding note modify
note_served = record {
  at = λ s h. record { held = noted served refl refl h; before = s.log; last = refl };
}
