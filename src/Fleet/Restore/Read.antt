-- ===== src/Fleet/Restore/Read.antt =====
-- The staging keeps the original of the volume, and what it stages was read and verified.
use runtime_service.Base.{ℕ, ◌≡◌, refl, some}
use runtime_service.Errors.{Err, Result, ok, err}
use runtime_service.Action.{◌>>=◌, pure, lift, modify}
use runtime_service.Action.Triple.{Triple, Triple-bind, Triple-attempt}
use runtime_service.Fleet.Restore.{
  Files, Image, verify_recovery_point, query, Outside, Restore, State,
}
use runtime_service.Fleet.Restore.Swap.{sync_dir, write_staged, streamed, stage}
use runtime_service.Fleet.Restore.Held.{
  Gate, Held, Holds, Original, query_keeps, ask_keeps, Either, Verified, With, lift_fails,
}
use runtime_service.Fleet.Restore.Paths.{other_files, less_known, given}

module _ (out : Outside) (job : Restore) (Lost : Type 0) (o : ℕ) where
  abbrev Staged : Files → Type 0
  Staged f = Verified out job f.staged

  -- What was read is in the staging file.
  abbrev Wrote : Image → Files → Type 0
  Wrote image f = (f.staged ≡ some image.content) × ((n : ℕ) × (out.stream n ≡ ok image))

  -- The staging file and nothing else is written.
  write_keeps : {g : Gate} (c : ℕ) → Holds (Original Lost o) g (write_staged out job c)
  unfolding write_staged modify
  write_keeps c = record { at = λ s h. other_files h h.kept }

  -- Of a read that failed, which is an error.
  torn_fails :
      {g : Gate} (e : Err)
      → Triple
          (Held (Original Lost o) g)
          (streamed out job (err e))
          (Either (λ s. ⊥) (Held (Original Lost o) g))
  unfolding streamed
  torn_fails e =
      Triple-bind (ask_keeps _) (λ c. Triple-bind (write_keeps c) (λ u. lift_fails _) (λ f s h. h))
        (λ f s h. h)

  abbrev Written : Gate → Result Image → State → Type 0
  Written g (ok image) s = Held (With (Original Lost o) (Wrote image)) g s
  Written g (err e) s = Held (Original Lost o) g s

  abbrev ReadFrom : Gate → Result Image → State → Type 0
  ReadFrom g r s = Held (Original Lost o) g s × ((n : ℕ) × (out.stream n ≡ r))

  read_told : {g : Gate} → Triple (Held (Original Lost o) g) (query out.stream) (ReadFrom g)
  unfolding query
  read_told = record { at = λ s h. (other_files h h.kept, (s.calls, refl)) }

  written :
      {g : Gate} (image : Image)
      → Triple (ReadFrom g (ok image)) (streamed out job (ok image)) (Written g)
  unfolding streamed write_staged modify pure ◌>>=◌
  written image = record { at = λ s (h, read). other_files h (h.kept, (refl, read)) }

  -- The check of what was read, as the last step of the staging.
  accepted :
      {g : Gate} (image : Image) (r : Result (Unit {0})) (s : State)
      → verify_recovery_point out.equal_fold job.recovery_point image.size image.sum ≡ r
      → Held (With (Original Lost o) (Wrote image)) g s
      → Either (Held (With (Original Lost o) Staged) g) (Held (Original Lost o) g) r s
  accepted image (ok u) s e h =
      let (there, (content, (n, read))) = h.kept in
      other_files h (there, (image, n, read, e, content))
  accepted image (err f) s e h = other_files h h.kept.0

  verified :
      {g : Gate} (image : Image)
      → Triple
          (Held (With (Original Lost o) (Wrote image)) g)
          (lift (verify_recovery_point out.equal_fold job.recovery_point image.size image.sum))
          (Either (Held (With (Original Lost o) Staged) g) (Held (Original Lost o) g))
  unfolding lift
  verified image = record { at = λ s h. accepted image _ s refl h }

  without :
      {g : Gate} {K : Files → Type 0} (e : Err) (s : State)
      → Held (With (Original Lost o) K) g s
      → Held (Original Lost o) g s
  without e s = less_known (λ f (h, more). h)

  pub stage_puts :
      {g : Gate}
      → Triple
          (Held (Original Lost o) g)
          (stage out job)
          (Either (Held (With (Original Lost o) Staged) g) (Held (Original Lost o) g))
  unfolding stage sync_dir
  stage_puts =
      Triple-bind (query_keeps _)
        (λ a.
          Triple-bind (query_keeps _)
            (λ b.
              Triple-bind (ask_keeps _)
                (λ torn.
                  Triple-bind (write_keeps torn)
                    (λ c.
                      Triple-attempt _ read_told
                        (λ image.
                          Triple-bind (written image)
                            (λ kept.
                              Triple-bind (query_keeps _)
                                (λ d.
                                  Triple-bind (query_keeps _)
                                    (λ e. Triple-bind (query_keeps _) (λ f. verified kept) without)
                                    without)
                                without)
                            (λ e s h. h))
                        (λ e.
                          given (λ s (h, read). h)
                            (Triple-bind (torn_fails e) (λ image. record { at = λ s h. absurd h })
                              (λ f s h. h))))
                    (λ e s h. h))
                (λ e s h. h))
            (λ e s h. h))
        (λ e s h. h)
