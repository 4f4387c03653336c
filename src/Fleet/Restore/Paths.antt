-- ===== src/Fleet/Restore/Paths.antt =====
-- What the swap of a restore keeps of the files, when no replica is left.
use runtime_service.Base.{
  ℕ, suc, Bool, true, false, if◌then◌else◌, ◌≡◌, refl, List, Option, none, some,
}
use runtime_service.Errors.{Err, Result, ok, err}
use runtime_service.Action.{◌>>◌, Action, ◌>>=◌, lift}
use runtime_service.Action.Triple.{Triple}
use runtime_service.Fleet.Restore.{
  M, VolumeFile, Files, Outside, Restore, Event, moved, removed, State,
}
use runtime_service.Fleet.Restore.Swap.{
  content, put, seen, Stat, present, missing, unreadable, Outcome, done, not_exist, refused,
  move_file, drop_file, stat, rename, remove,
}
use runtime_service.Fleet.Restore.Held.{Gate, allowed, At, Held, Either, Holds, noted}

-- What is told by the outcome of an operation on a file.
abbrev pub Told : (Files → Type 0) → (Files → Type 0) → Gate → Result Outcome → State → Type 0
Told K L g (ok done) s = Held L g s
Told K L g (ok not_exist) s = Held K g s
Told K L g (ok refused) s = Held K g s
Told K L g (err e) s = Held K g s

-- What is told by a look at the file p.
abbrev pub Looked : (Files → Type 0) → VolumeFile → Gate → Result Stat → State → Type 0
Looked K p g (ok present) s = Held K g s × ((c : ℕ) × (content p s.files ≡ some c))
Looked K p g (ok missing) s = Held K g s × (content p s.files ≡ none)
Looked K p g (ok unreadable) s = Held K g s
Looked K p g (err e) s = Held K g s

pub other_files :
    {K L : Files → Type 0} {g : Gate} {f h : Files} {log : List Event}
    → At K g f log
    → L h
    → At L g h log
other_files a k = record { kept = k; safety = a.safety; running = a.running; standing = a.standing }

pub less_known :
    {K L : Files → Type 0} {g : Gate} {f : Files} {log : List Event}
    → ((h : Files) → K h → L h)
    → At K g f log
    → At L g f log
less_known w a = other_files a (w _ a.kept)

module _ (out : Outside) (job : Restore) {K : Files → Type 0} where
  pub stat_looks : {g : Gate} (p : VolumeFile) → Triple (Held K g) (stat out job p) (Looked K p g)
  unfolding stat
  stat_looks {g} p = record {
    at = λ s h. looked s h (out.stat_fails s.calls) (content p s.files) refl;
  }
    where
      looked :
          (s : State)
          → Held K g s
          → (b : Bool) (c : Option ℕ) → content p s.files ≡ c
          → Looked K p g (ok (if b then unreadable else seen c)) (record s { calls = suc s.calls })
      looked s h true c e = other_files h h.kept
      looked s h false none e = (other_files h h.kept, e)
      looked s h false (some c) e = (other_files h h.kept, (c, e))

  moved_tells :
      (L : Files → Type 0) {g : Gate} (a b : VolumeFile) (r : Bool) (c : Option ℕ) (s : State)
      → ((x : ℕ) → c ≡ some x → L (put a none (put b (some x) s.files)))
      → Held K g s
      → let (o, s') = move_file a b r c s in Told K L g (ok o) s'
  unfolding move_file
  moved_tells L a b true c s k h = h
  moved_tells L a b false none s k h = h
  moved_tells L a b false (some c) s k h = other_files h (k c refl)

  pub rename_tells :
      (L : Files → Type 0) {g : Gate} (a b : VolumeFile)
      → allowed (moved a b) g ≡ true
      → ((f : Files) (c : ℕ) → content a f ≡ some c → K f → L (put a none (put b (some c) f)))
      → Triple (Held K g) (rename out job a b) (Told K L g)
  unfolding rename
  rename_tells L a b may moves = record {
    at = λ s h.
        moved_tells L a b (out.file_fails s.calls) (content a s.files) _
          (λ c e. moves s.files c e h.kept) (noted (moved a b) may refl h);
  }

  dropped_keeps :
      {g : Gate} (p : VolumeFile) (r : Bool) (c : Option ℕ) (s : State)
      → K (put p none s.files)
      → Held K g s
      → let (o, s') = drop_file p r c s in Held K g s'
  unfolding drop_file
  dropped_keeps p true c s k h = h
  dropped_keeps p false none s k h = h
  dropped_keeps p false (some c) s k h = other_files h k

  pub remove_keeps :
      {g : Gate} (p : VolumeFile)
      → allowed (removed p) g ≡ true
      → ((f : Files) → K f → K (put p none f))
      → Holds K g (remove out job p)
  unfolding remove
  remove_keeps p may drops = record {
    at = λ s h.
        dropped_keeps p (out.file_fails s.calls) (content p s.files) _ (drops s.files h.kept)
          (noted (removed p) may refl h);
  }

  pub remove_does :
      {g : Gate} {Q : State → Type 0} (p : VolumeFile)
      → allowed (removed p) g ≡ true
      → ((f : Files) → K f → K (put p none f))
      → Triple (Held K g) (remove out job p) (Either (Held K g) Q)
  unfolding remove
  remove_does p may drops = record { at = λ s h. (remove_keeps p may drops).at s h }

  -- A move that keeps what holds, whatever its outcome.
  pub rename_keeps :
      {L : Files → Type 0} {g : Gate} (a b : VolumeFile)
      → allowed (moved a b) g ≡ true
      → ((f : Files) → K f → L f)
      → ((f : Files) (c : ℕ) → content a f ≡ some c → K f → L (put a none (put b (some c) f)))
      → Triple (Held K g) (rename out job a b) (λ r. Held L g)
  rename_keeps {L} {g} a b may w moves = record {
    at = λ s h.
        told (rename out job a b s).0 (rename out job a b s).1
          ((rename_tells L a b may moves).at s h);
  }
    where
      told : (r : Result Outcome) (s : State) → Told K L g r s → Held L g s
      told (ok done) s h = h
      told (ok not_exist) s h = less_known w h
      told (ok refused) s h = less_known w h
      told (err e) s h = less_known w h

-- From more than what is needed.
pub given :
    {S A : Type 0} {P R : S → Type 0} {m : Action S A} {Q : Result A → S → Type 0}
    → ((s : S) → R s → P s)
    → Triple P m Q
    → Triple R m Q
given w t = record { at = λ s h. t.at s (w s h) }

pub finally :
    {S A : Type 0} {P Q : S → Type 0} {m : Action S A}
    → ((s : S) → P s → Q s)
    → Triple P m (λ r. P)
    → Triple P m (λ r. Q)
finally {m = m} w t = record { at = λ s h. w (m s).1 (t.at s h) }

settled :
    {A : Type 0} (P Q : State → Type 0) (r : Result A) (s : State)
    → (P s → Q s)
    → P s
    → Either P Q r s
settled P Q (ok a) s w h = h
settled P Q (err e) s w h = w h

-- What is known in case of an error is less.
pub settles :
    {A : Type 0} {P Q : State → Type 0} {m : M A}
    → ((s : State) → P s → Q s)
    → Triple P m (λ r. P)
    → Triple P m (Either P Q)
settles {m = m} w t = record { at = λ s h. settled _ _ (m s).0 (m s).1 (w (m s).1) (t.at s h) }

pub fails_with :
    {A B : Type 0} {P Q R : State → Type 0} (w : (s : State) → P s → Q s) (e : Err) (f : A → M B)
    → Triple P (lift (err e) >>= f) (Either R Q)
unfolding lift ◌>>=◌
fails_with w e f = record { at = λ s h. w s h }

pub fails_as :
    {A : Type 0} {P Q R : State → Type 0} (w : (s : State) → P s → Q s) (e : Err)
    → Triple P (lift {A = A} (err e)) (Either R Q)
unfolding lift
fails_as w e = record { at = λ s h. w s h }

pub after_ok :
    {S B : Type 0} {P : S → Type 0} {Q : Result B → S → Type 0} {m : Action S B}
    → Triple P m Q
    → Triple P (do lift (ok tt); m) Q
unfolding lift ◌>>=◌
after_ok t = record { at = λ s h. t.at s h }
