-- ===== src/Fleet/Restore/Swap.antt =====
-- internal/usecase/fleet_volume_restore.go: the staging of a recovery point and the swap of the files. Each
-- operation on a file takes effect at once or not at all.
use runtime_service.Base.{ℕ, suc, Bool, true, false, if◌then◌else◌, ◌∷◌, Option, none, some}
use runtime_service.Errors.{restore, restore_no_prerestore_anchor, Result, ok, err}
use runtime_service.Action.{◌>>=◌, ◌>>◌, lift, pure, attempt, modify}
use runtime_service.Fleet.Restore.{
  VolumeFile, live, pre, staged, failed, Files, Image, Outside, Restore, moved, removed, State, M,
  query, ask, reported, verify_recovery_point,
}

abbrev pub content : VolumeFile → Files → Option ℕ
content live f = f.live
content pre f = f.pre
content staged f = f.staged
content failed f = f.failed

abbrev pub put : VolumeFile → Option ℕ → Files → Files
put live c f = record f { live = c }
put pre c f = record f { pre = c }
put staged c f = record f { staged = c }
put failed c f = record f { failed = c }

-- What os.Stat says, and what os.Rename and os.Remove do.
pub data Stat : Type 0 where
  present missing unreadable : Stat

pub data Outcome : Type 0 where
  done not_exist refused : Outcome

abbrev pub seen : Option ℕ → Stat
seen none = missing
seen (some c) = present

-- A move and a removal, by whether the call is refused and what the file holds.
unfoldable pub move_file : VolumeFile → VolumeFile → Bool → Option ℕ → State → Outcome × State
move_file a b true c s = (refused, s)
move_file a b false none s = (not_exist, s)
move_file a b false (some c) s = (done, record s { files = put a none (put b (some c) s.files) })

unfoldable pub drop_file : VolumeFile → Bool → Option ℕ → State → Outcome × State
drop_file p true c s = (refused, s)
drop_file p false none s = (not_exist, s)
drop_file p false (some c) s = (done, record s { files = put p none s.files })

abbrev pub must : Outcome → Result (Unit {0})
must done = ok tt
must not_exist = err reported
must refused = err reported

-- An error other than os.IsNotExist.
abbrev pub unless_missing : Outcome → Result (Unit {0})
unless_missing done = ok tt
unless_missing not_exist = ok tt
unless_missing refused = err reported

abbrev pub no_anchor : {A : Type 0} → Result A
no_anchor = err (restore restore_no_prerestore_anchor)

module _ (out : Outside) (job : Restore) where
  unfoldable pub stat : VolumeFile → M Stat
  stat p s = (
    ok (if out.stat_fails s.calls then unreadable else seen (content p s.files)),
    record s { calls = suc s.calls },
  )

  unfoldable pub rename : VolumeFile → VolumeFile → M Outcome
  rename a b s =
      let (o, s') =
        move_file a b (out.file_fails s.calls) (content a s.files)
          (record s { calls = suc s.calls; log = moved a b ∷ s.log }) in
      (ok o, s')

  unfoldable pub remove : VolumeFile → M Outcome
  remove p s =
      let (o, s') =
        drop_file p (out.file_fails s.calls) (content p s.files)
          (record s { calls = suc s.calls; log = removed p ∷ s.log }) in
      (ok o, s')

  unfoldable pub sync_dir : M (Unit {0})
  sync_dir = query out.sync_dir

  -- What is written to the staging file.
  unfoldable pub write_staged : ℕ → M (Unit {0})
  write_staged c = modify (λ s. record s { files = put staged (some c) s.files })

  unfoldable pub streamed : Result Image → M Image
  streamed (err e) = do torn ← ask out.torn; write_staged torn; lift (err e)
  streamed (ok image) = do write_staged image.content; pure image

  unfoldable pub stage : M (Unit {0})
  stage = do
    query (λ n. out.open_object n job.recovery_point.object_key)
    query out.create_file
    torn ← ask out.torn
    write_staged torn
    read ← attempt (query out.stream)
    image ← streamed read
    query out.sync_file
    query out.close_file
    sync_dir
    lift (verify_recovery_point out.equal_fold job.recovery_point image.size image.sum)

  unfoldable pub install : M (Unit {0})
  install = do moving ← rename staged live; lift (must moving); sync_dir

  -- A backing file that is not there leaves nothing to park.
  unfoldable pub park : Stat → M (Unit {0})
  park present = do moving ← rename live pre; lift (must moving); install
  park missing = install
  park unreadable = lift (err reported)

  -- With an original from an earlier restore, the live file is dropped.
  unfoldable pub swap_over : Stat → M (Unit {0})
  swap_over present = do dropping ← remove live; lift (unless_missing dropping); install
  swap_over missing = do there ← stat live; park there
  swap_over unreadable = lift (err reported)

  unfoldable pub swap_in : M (Unit {0})
  swap_in = do anchor ← stat pre; swap_over anchor

  unfoldable pub reinstate : M (Unit {0})
  reinstate = do moving ← rename pre live; lift (must moving); sync_dir

  unfoldable pub swap_anchor : Stat → M (Unit {0})
  swap_anchor present = do parking ← rename live failed; lift (unless_missing parking); reinstate
  swap_anchor missing = lift no_anchor
  swap_anchor unreadable = lift (err reported)

  unfoldable pub swap_back : M (Unit {0})
  swap_back = do anchor ← stat pre; swap_anchor anchor

  unfoldable pub put_anchor : Stat → M (Unit {0})
  put_anchor present = reinstate
  put_anchor missing = lift no_anchor
  put_anchor unreadable = lift (err reported)

  unfoldable pub unless_live : Stat → M (Unit {0})
  unless_live present = pure tt
  unless_live missing = do anchor ← stat pre; put_anchor anchor
  unless_live unreadable = do anchor ← stat pre; put_anchor anchor

  unfoldable pub restore_prerestore : M (Unit {0})
  restore_prerestore = do there ← stat live; unless_live there
