-- ===== src/Fleet/Restore/Kept.antt =====
-- The swap and its two ways back keep the original of the volume, whichever calls fail.
use runtime_service.Base.{ℕ, ◌≡◌, refl, sym, ◌∙◌, ◌⊎◌, inl, inr, none, some}
use runtime_service.Errors.{Err, Result, ok}
use runtime_service.Action.{◌>>◌, lift}
use runtime_service.Action.Triple.{Triple, Triple-bind}
use runtime_service.Fleet.Restore.{live, pre, staged, failed, Files, Outside, Restore, State}
use runtime_service.Fleet.Restore.Swap.{
  put, seen, Stat, present, missing, unreadable, Outcome, done, not_exist, refused, must, sync_dir,
  install, park, swap_over, swap_in, reinstate, swap_anchor, swap_back, put_anchor, unless_live,
  restore_prerestore,
}
use runtime_service.Fleet.Restore.Held.{
  closed, Held, Holds, Original, Parked, InPlace, query_keeps, lift_keeps, pure_keeps, bind_keeps,
  Either, Verified, With,
}
use runtime_service.Fleet.Restore.Paths.{
  Told, Looked, other_files, less_known, stat_looks, rename_tells, remove_keeps, rename_keeps,
  given, settles, fails_with, fails_as, after_ok,
}

module _ (out : Outside) (job : Restore) (Lost : Type 0) (o : ℕ) where
  parked_Original : (f : Files) → Parked Lost o f → Original Lost o f
  parked_Original f (inl lost) = inl lost
  parked_Original f (inr h) = inr (inl h)

  in_place_Original : (f : Files) → InPlace Lost o f → Original Lost o f
  in_place_Original f (inl lost) = inl lost
  in_place_Original f (inr h) = inr (inr h)

  -- The live file, once it is moved to where none is parked.
  moved_Parked : (f : Files) (c : ℕ) → f.live ≡ some c → InPlace Lost o f → Lost ⊎ (some c ≡ some o)
  moved_Parked f c e (inl lost) = inl lost
  moved_Parked f c e (inr (gone, there)) = inr cc

  -- The parked file, once it is moved back.
  moved_back :
      (f : Files) (c : ℕ)
      → f.pre ≡ some c
      → Parked Lost o f
      → Original Lost o (put pre none (put live (some c) f))
  moved_back f c e (inl lost) = inl lost
  moved_back f c e (inr h) = inr (inr (refl, cc))

  seen_Parked : (f : Files) (c : ℕ) → f.pre ≡ some c → Original Lost o f → Parked Lost o f
  seen_Parked f c e (inl lost) = inl lost
  seen_Parked f c e (inr (inl h)) = inr h
  seen_Parked f c e (inr (inr (gone, there))) = cc

  unseen_InPlace : (f : Files) → f.pre ≡ none → Original Lost o f → InPlace Lost o f
  unseen_InPlace f e (inl lost) = inl lost
  unseen_InPlace f e (inr (inl h)) = cc
  unseen_InPlace f e (inr (inr h)) = inr h

  missing_Parked : (f : Files) → f.live ≡ none → InPlace Lost o f → Parked Lost o f
  missing_Parked f e (inl lost) = inl lost
  missing_Parked f e (inr (gone, there)) = cc

  parked : (s : State) → Held (Parked Lost o) closed s → Held (Original Lost o) closed s
  parked s = less_known (λ f. parked_Original f)

  in_place : (s : State) → Held (InPlace Lost o) closed s → Held (Original Lost o) closed s
  in_place s = less_known (λ f. in_place_Original f)

  parked_end :
      (e : Err) (s : State) → Held (Parked Lost o) closed s → Held (Original Lost o) closed s
  parked_end e = parked

  in_place_end :
      (e : Err) (s : State) → Held (InPlace Lost o) closed s → Held (Original Lost o) closed s
  in_place_end e = in_place

  abbrev Staged : Files → Type 0
  Staged f = Verified out job f.staged

  abbrev Live : Files → Type 0
  Live f = Verified out job f.live

  -- The original is there, after an error.
  AfterInstall : Result (Unit {0}) → State → Type 0
  AfterInstall = Either (Held (With (Original Lost o) Live) closed) (Held (Original Lost o) closed)

  with_parked :
      (s : State) → Held (With (Parked Lost o) Staged) closed s → Held (Original Lost o) closed s
  with_parked s = less_known (λ f (h, staging). parked_Original f h)

  with_in_place :
      (s : State) → Held (With (InPlace Lost o) Staged) closed s → Held (Original Lost o) closed s
  with_in_place s = less_known (λ f (h, staging). in_place_Original f h)

  with_original :
      (s : State) → Held (With (Original Lost o) Staged) closed s → Held (Original Lost o) closed s
  with_original s = less_known (λ f (h, staging). h)

  replaced_Original :
      (f : Files) (c : ℕ)
      → Parked Lost o f
      → Original Lost o (put staged none (put live (some c) f))
  replaced_Original f c (inl lost) = inl lost
  replaced_Original f c (inr h) = inr (inl h)

  -- The staged file stands live once the move is done.
  moved_Live :
      (f : Files) (c : ℕ)
      → f.staged ≡ some c
      → With (Parked Lost o) Staged f
      → With (Original Lost o) Live (put staged none (put live (some c) f))
  moved_Live f c e (h, (image, n, read, verified, there)) =
      (replaced_Original f c h, (image, n, read, verified, sym e ∙ there))

  installed_on :
      (x : Outcome)
      → Triple
          (Told (With (Parked Lost o) Staged) (With (Original Lost o) Live) closed (ok x))
          (do lift (must x); sync_dir out job)
          AfterInstall
  unfolding sync_dir AfterInstall
  installed_on done =
      settles (λ s. less_known (λ f (h, restored). h))
        (bind_keeps (lift_keeps _) (λ u. query_keeps _))
  installed_on not_exist = fails_with with_parked _ _
  installed_on refused = fails_with with_parked _ _

  install_puts : Triple (Held (With (Parked Lost o) Staged) closed) (install out job) AfterInstall
  unfolding install AfterInstall
  install_puts =
      Triple-bind (rename_tells out job (With (Original Lost o) Live) staged live refl moved_Live)
        installed_on (λ e s h. with_parked s h)

  moved_aside :
      (f : Files) (c : ℕ)
      → f.live ≡ some c
      → With (InPlace Lost o) Staged f
      → With (Parked Lost o) Staged (put live none (put pre (some c) f))
  moved_aside f c e (h, staging) = (moved_Parked f c e h, staging)

  park_on :
      (x : Outcome)
      → Triple
          (Told (With (InPlace Lost o) Staged) (With (Parked Lost o) Staged) closed (ok x))
          (do lift (must x); install out job)
          AfterInstall
  unfolding AfterInstall
  park_on done = after_ok install_puts
  park_on not_exist = fails_with with_in_place _ _
  park_on refused = fails_with with_in_place _ _

  -- The live file is parked where none is parked, and then replaced.
  park_puts :
      (x : Stat)
      → Triple
          (Looked (With (InPlace Lost o) Staged) live closed (ok x))
          (park out job x)
          AfterInstall
  unfolding park AfterInstall
  park_puts present =
      given (λ s (h, seen). h)
        (Triple-bind (rename_tells out job (With (Parked Lost o) Staged) live pre refl moved_aside)
          park_on (λ e s h. with_in_place s h))
  park_puts missing =
      given (λ s (h, gone). other_files h (missing_Parked s.files gone h.kept.0, h.kept.1))
        install_puts
  park_puts unreadable = fails_as with_in_place _

  anchor_seen :
      (s : State)
      → Looked (Original Lost o) pre closed (ok present) s
      → Held (Parked Lost o) closed s
  anchor_seen s (h, (c, there)) = other_files h (seen_Parked s.files c there h.kept)

  full_anchor_seen :
      (s : State)
      → Looked (With (Original Lost o) Staged) pre closed (ok present) s
      → Held (With (Parked Lost o) Staged) closed s
  full_anchor_seen s (h, (c, there)) =
      other_files h (seen_Parked s.files c there h.kept.0, h.kept.1)

  no_anchor_seen :
      (s : State)
      → Looked (With (Original Lost o) Staged) pre closed (ok missing) s
      → Held (With (InPlace Lost o) Staged) closed s
  no_anchor_seen s (h, gone) = other_files h (unseen_InPlace s.files gone h.kept.0, h.kept.1)

  swap_over_puts :
      (x : Stat)
      → Triple
          (Looked (With (Original Lost o) Staged) pre closed (ok x))
          (swap_over out job x)
          AfterInstall
  unfolding swap_over AfterInstall
  swap_over_puts present = given full_anchor_seen (
      Triple-bind (remove_keeps out job live refl (λ f h. h))
        (λ x. Triple-bind (lift_keeps _) (λ u. install_puts) (λ e s h. with_parked s h))
        (λ e s h. with_parked s h))
  swap_over_puts missing =
      given no_anchor_seen
        (Triple-bind (stat_looks out job live) park_puts (λ e s h. with_in_place s h))
  swap_over_puts unreadable = fails_as with_original _

  pub swap_in_puts :
      Triple
        (Held (With (Original Lost o) Staged) closed)
        (swap_in out job)
        (Either (Held (With (Original Lost o) Live) closed) (Held (Original Lost o) closed))
  unfolding swap_in AfterInstall
  swap_in_puts = Triple-bind (stat_looks out job pre) swap_over_puts (λ e s h. with_original s h)

  reinstate_keeps :
      Triple (Held (Parked Lost o) closed) (reinstate out job) (λ r. Held (Original Lost o) closed)
  unfolding reinstate sync_dir
  reinstate_keeps =
      Triple-bind (rename_keeps out job pre live refl parked_Original moved_back)
        (λ x. bind_keeps (lift_keeps _) (λ u. query_keeps _)) (λ e s h. h)

  swap_anchor_keeps :
      (x : Stat)
      → Triple
          (Looked (Original Lost o) pre closed (ok x))
          (swap_anchor out job x)
          (λ r. Held (Original Lost o) closed)
  unfolding swap_anchor
  swap_anchor_keeps present = given anchor_seen (
      Triple-bind (rename_keeps out job live failed refl (λ f h. h) (λ f c e h. h))
        (λ x. Triple-bind (lift_keeps _) (λ u. reinstate_keeps) parked_end) parked_end)
  swap_anchor_keeps missing = given (λ s (h, gone). h) (lift_keeps _)
  swap_anchor_keeps unreadable = lift_keeps _

  pub swap_back_keeps : Holds (Original Lost o) closed (swap_back out job)
  unfolding swap_back
  swap_back_keeps = Triple-bind (stat_looks out job pre) swap_anchor_keeps (λ e s h. h)

  put_anchor_keeps :
      (x : Stat)
      → Triple
          (Looked (Original Lost o) pre closed (ok x))
          (put_anchor out job x)
          (λ r. Held (Original Lost o) closed)
  unfolding put_anchor
  put_anchor_keeps present = given anchor_seen reinstate_keeps
  put_anchor_keeps missing = given (λ s (h, gone). h) (lift_keeps _)
  put_anchor_keeps unreadable = lift_keeps _

  unless_live_keeps :
      (x : Stat)
      → Triple
          (Looked (Original Lost o) live closed (ok x))
          (unless_live out job x)
          (λ r. Held (Original Lost o) closed)
  unfolding unless_live
  unless_live_keeps present = given (λ s (h, there). h) (pure_keeps tt)
  unless_live_keeps missing =
      given (λ s (h, gone). h) (Triple-bind (stat_looks out job pre) put_anchor_keeps (λ e s h. h))
  unless_live_keeps unreadable = Triple-bind (stat_looks out job pre) put_anchor_keeps (λ e s h. h)

  pub put_back_keeps : Holds (Original Lost o) closed (restore_prerestore out job)
  unfolding restore_prerestore
  put_back_keeps = Triple-bind (stat_looks out job live) unless_live_keeps (λ e s h. h)
