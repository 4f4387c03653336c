-- ===== src/Net/Plane/Orderly.antt =====
-- What Reconcile releases and tears down, and in which order.
use runtime_service.Base.{
  ℕ, suc, ◌≡◌, refl, ap, ◌⊎◌, inl, inr, Bool, true, false, length, pos, ltb_ℤ, ◌<ℤ◌, ◌≤ℤ◌, List, [],
  ◌∷◌, Memᴰ, Option, none, some, arith,
}
use runtime_service.Errors.{Result, Result-cases, ok}
use runtime_service.Net.Lease.{NetLease}
use runtime_service.Net.Plane.{
  Outside, Reconciler, ImageDecommissionInput, LeaseOwner, Event, torn_down, cleared, released,
  State, ◌>>=◌, lift, ask, tally, each, no_report, verify_lease, check_scope,
}
use runtime_service.Net.Plane.Pass
use runtime_service.Net.Plane.Quiet.{
  list_held_sound, find_owner-Keeps, resolve_ordinal-Keeps, list_held-Keeps,
  assert_no_leaseless_owner-Keeps,
}
use runtime_service.Net.Plane.Rules.{
  Keeps, Keeps-lift, Keeps-then, Keeps-bind, Keeps-test, Keeps-each, Keeps-query, Keeps-tally,
}

-- The log once the artifacts are cleared, and once the driver was asked, if there is one.
abbrev pub since_cleared :
    Option (ℕ → NetLease → Result (Unit {0})) → NetLease → List Event → List Event
since_cleared none lease log = log
since_cleared (some r) lease log = cleared lease ∷ log

abbrev pub since_stopped :
    Option (ℕ → ImageDecommissionInput → Result (Unit {0}))
    → NetLease
    → LeaseOwner
    → List Event
    → List Event
since_stopped none lease o log = log
since_stopped (some b) lease o log = torn_down lease o ∷ log

pub clear_by-ok :
    (r : Option (ℕ → NetLease → Result (Unit {0}))) (lease : NetLease) (s : State)
    → ((Pass.clear_by r lease s).0 ≡ ok tt) × ((Pass.clear_by r lease s).1.report ≡ s.report)
unfolding Pass.clear_by
clear_by-ok none lease s = (refl, refl)
clear_by-ok (some r) lease s = (refl, refl)

pub stop_by-ok :
    (b : Option (ℕ → ImageDecommissionInput → Result (Unit {0}))) (lease : NetLease)
    (o : LeaseOwner) (s : State)
    → ((Pass.stop_by b lease o s).0 ≡ ok tt) × ((Pass.stop_by b lease o s).1.report ≡ s.report)
unfolding Pass.stop_by
stop_by-ok none lease o s = (refl, refl)
stop_by-ok (some b) lease o s = (refl, refl)

pub clear_by-log :
    (r : Option (ℕ → NetLease → Result (Unit {0}))) (lease : NetLease) (s : State)
    → ((Pass.clear_by r lease s).0 ≡ ok tt)
      × ((Pass.clear_by r lease s).1.log ≡ since_cleared r lease s.log)
unfolding Pass.clear_by
clear_by-log none lease s = (refl, refl)
clear_by-log (some r) lease s = (refl, refl)

pub stop_by-log :
    (b : Option (ℕ → ImageDecommissionInput → Result (Unit {0}))) (lease : NetLease)
    (o : LeaseOwner) (s : State)
    → ((Pass.stop_by b lease o s).0 ≡ ok tt)
      × ((Pass.stop_by b lease o s).1.log ≡ since_stopped b lease o s.log)
unfolding Pass.stop_by
stop_by-log none lease o s = (refl, refl)
stop_by-log (some b) lease o s = (refl, refl)

module _ (out : Outside) (uc : Reconciler) where
  -- The lease was in a list of the host's leases that was read.
  abbrev pub IsListed : NetLease → Type 0
  IsListed lease =
      (n : ℕ) × (held : List NetLease) × (out.leases_of n uc.self_host ≡ ok held) × Memᴰ lease held

  -- The owner's row was read so: `none` when it was not found.
  abbrev pub IsRead : NetLease → Option LeaseOwner → Type 0
  IsRead lease o = (s : State) × ((Pass.load_owner out uc lease s).0 ≡ ok o)

  -- The row says so, or the process that it names was found to be gone.
  abbrev pub HasEnded : LeaseOwner → Type 0
  HasEnded o =
      (o.terminal ≡ true)
      ⊎ ((o.terminal ≡ false) × (pos 0 <ℤ o.pid) × (n : ℕ) × (out.proc_alive n o.pid ≡ false))

  -- The row names no process, and the lease was found to be past the grace.
  abbrev pub NeverStarted : NetLease → LeaseOwner → Type 0
  NeverStarted lease o =
      (o.terminal ≡ false)
      × (o.pid ≤ℤ pos 0)
      × (n : ℕ) × (Pass.is_young out uc lease (out.now n) ≡ false)

  -- What must be the case when an event is added to a log.
  abbrev pub IsAllowed : Event → List Event → Type 0
  IsAllowed (torn_down lease o) log = IsListed lease × IsRead lease (some o) × HasEnded o
  IsAllowed (cleared lease) log = IsListed lease
  IsAllowed (released lease none) log =
      IsListed lease
      × IsRead lease none
      × (older : List Event) × (log ≡ since_cleared out.reclaimer lease older)
  IsAllowed (released lease (some o)) log =
      IsListed lease
      × IsRead lease (some o)
      × ((HasEnded o
            × (older : List Event) × (log
                ≡ since_cleared out.reclaimer lease (since_stopped out.booter lease o older)))
          ⊎ (NeverStarted lease o
              × (older : List Event) × (log ≡ since_cleared out.reclaimer lease older)))

  abbrev pub IsOrderly : List Event → Type 0
  IsOrderly [] = Unit
  IsOrderly (e ∷ log) = IsAllowed e log × IsOrderly log

  abbrev Orderly : State → Type 0
  Orderly s = IsOrderly s.log

  since_cleared-IsOrderly :
      (r : Option (ℕ → NetLease → Result (Unit {0}))) (lease : NetLease) (log : List Event)
      → IsListed lease
      → IsOrderly log
      → IsOrderly (since_cleared r lease log)
  since_cleared-IsOrderly none lease log held h = h
  since_cleared-IsOrderly (some r) lease log held h = (held, h)

  since_stopped-IsOrderly :
      (b : Option (ℕ → ImageDecommissionInput → Result (Unit {0}))) (lease : NetLease)
      (o : LeaseOwner) (log : List Event)
      → IsAllowed (torn_down lease o) log
      → IsOrderly log
      → IsOrderly (since_stopped b lease o log)
  since_stopped-IsOrderly none lease o log allowed h = h
  since_stopped-IsOrderly (some b) lease o log allowed h = (allowed, h)

  -- A release adds itself to what the clearing left.
  reclaim-IsOrderly :
      (lease : NetLease) (o : Option LeaseOwner) (s : State)
      → IsListed lease
      → IsAllowed (released lease o) (since_cleared out.reclaimer lease s.log)
      → Orderly s
      → Orderly (Pass.reclaim out uc lease o s).1
  unfolding Pass.reclaim Pass.release_row
  reclaim-IsOrderly lease o s held allowed h =
      let (done, log) = clear_by-log out.reclaimer lease s in
      let s' = (Pass.clear_by out.reclaimer lease s).1 in
      let after : IsOrderly (released lease o ∷ s'.log) =
        rw log (allowed, since_cleared-IsOrderly out.reclaimer lease s.log held h) in
      rw (done, ◌>>=◌)
        (elim (Result-cases (out.release s'.calls lease.owner_kind lease.owner_id)) [
          | inl (a, e) ↦ rw e after
          | inr (f, e) ↦ rw e after
        ])

  tear_down-IsOrderly :
      (lease : NetLease) (o : LeaseOwner) (s : State)
      → IsListed lease
      → IsRead lease (some o)
      → HasEnded o
      → Orderly s
      → Orderly (Pass.tear_down_and_reclaim out uc lease o s).1
  unfolding Pass.tear_down_and_reclaim
  tear_down-IsOrderly lease o s held read ended h =
      let (done, log) = stop_by-log out.booter lease o s in
      let s' = (Pass.stop_by out.booter lease o s).1 in
      let stopped : IsOrderly s'.log =
        rw log (since_stopped-IsOrderly out.booter lease o s.log (held, read, ended) h) in
      let s2 : State = record s' {
        report = record s'.report { torn_down = suc s'.report.torn_down };
      } in
      rw (done, ◌>>=◌)
        (reclaim-IsOrderly lease (some o) s2 held
          (held, read, inl (ended, s.log, ap (since_cleared out.reclaimer lease) log)) stopped)

  -- Each verdict on an owner acts within what was read.
  module _ (lease : NetLease) (held : IsListed lease) where
    judge_process-IsOrderly :
        (o : LeaseOwner) (n : ℕ) (alive : Bool)
        → IsRead lease (some o)
        → o.terminal ≡ false
        → pos 0 <ℤ o.pid
        → out.proc_alive n o.pid ≡ alive
        → Keeps Orderly (Pass.judge_process out uc lease o alive)
    unfolding Pass.judge_process Pass.adopt
    judge_process-IsOrderly o n false read runs has gone = record {
      at = λ s h. tear_down-IsOrderly lease o s held read (inr (runs, has, n, gone)) h;
    }
    judge_process-IsOrderly o n true read runs has gone =
        Keeps-bind (lift (Pass.assert_lease_matches_live_owner out uc lease o))
          (λ done. tally (λ r. record r { adopted = suc r.adopted })) (Keeps-lift _)
          λ done. record { at = λ s h. h }

    judge_age-IsOrderly :
        (o : LeaseOwner) (n : ℕ) (young : Bool)
        → IsRead lease (some o)
        → o.terminal ≡ false
        → o.pid ≤ℤ pos 0
        → Pass.is_young out uc lease (out.now n) ≡ young
        → Keeps Orderly (Pass.judge_age out uc lease o young)
    unfolding Pass.judge_age
    judge_age-IsOrderly o n true read runs has age = record { at = λ s h. h }
    judge_age-IsOrderly o n false read runs has age = record {
      at = λ s h.
          reclaim-IsOrderly lease (some o) s held
            (held, read, inr ((runs, has, n, age), s.log, refl)) h;
    }

    judge_owner-IsOrderly :
        (o : Option LeaseOwner) → IsRead lease o → Keeps Orderly (Pass.judge_owner out uc lease o)
    unfolding Pass.judge_owner
    judge_owner-IsOrderly none read = record {
      at = λ s h. reclaim-IsOrderly lease none s held (held, read, s.log, refl) h;
    }
    judge_owner-IsOrderly (some o) read =
        Keeps-test o.terminal _ _
          (λ over. record { at = λ s h. tear_down-IsOrderly lease o s held read (inl over) h })
          λ runs.
            Keeps-test (ltb_ℤ (pos 0) o.pid) _ _
              (λ has.
                Keeps-then (ask (λ n. out.proc_alive n o.pid)) _ (Keeps-query IsOrderly _)
                  λ alive s e.
                    judge_process-IsOrderly o s.calls alive read runs (ground arith) (cc))
              λ no_process. Keeps-then (ask out.now) _ (Keeps-query IsOrderly _) λ now s e.
                judge_age-IsOrderly o s.calls (Pass.is_young out uc lease now) read runs
                  (ground arith) (let same : out.now s.calls ≡ now = cc in rw same)

    reconcile_one-IsOrderly : Keeps Orderly (Pass.reconcile_one out uc lease)
    unfolding Pass.reconcile_one Pass.reconcile_lease Pass.load_owner
    reconcile_one-IsOrderly = Keeps-bind (lift (verify_lease uc lease)) _ (Keeps-lift _) λ verified.
        Keeps-then (Pass.load_owner out uc lease) _
          (find_owner-Keeps out uc (λ r. IsOrderly) lease.owner_kind lease.owner_id)
          λ o s e. judge_owner-IsOrderly o (s, e)

  reconcile-Orderly : Keeps Orderly (Pass.reconcile out uc)
  unfolding Pass.reconcile Pass.reconcile_at Pass.reconcile_held
  reconcile-Orderly = Keeps-bind (tally (λ r. no_report)) _ (Keeps-tally IsOrderly _) λ empty.
      Keeps-bind (lift (check_scope uc)) _ (Keeps-lift _) λ scoped.
        Keeps-bind (Pass.resolve_ordinal out uc) _ (resolve_ordinal-Keeps out uc (λ r. IsOrderly))
          λ ordinal.
            Keeps-bind (tally (λ r. record r { host_ordinal = ordinal })) _
              (Keeps-tally IsOrderly _)
              λ known.
                Keeps-then (Pass.list_held out uc) _ (list_held-Keeps out uc (λ r. IsOrderly))
                  λ held s e.
                    Keeps-bind (tally (λ r. record r { leases = length held })) _
                      (Keeps-tally IsOrderly _)
                      λ counted.
                        Keeps-bind (each (Pass.reconcile_one out uc) held) _
                          (Keeps-each (Pass.reconcile_one out uc) held λ lease m.
                            reconcile_one-IsOrderly lease
                              (s.calls, held, list_held_sound out uc s held e, m))
                          λ done.
                            assert_no_leaseless_owner-Keeps out uc (λ r. IsOrderly) ordinal held

-- Whatever the stores, the processes, the driver and the clock answer, and whether or not it fails: Reconcile
-- tears down and releases only for leases that it read as the host's own. It releases one only when the
-- owner's row was read as missing, or as ended (the row is terminal, or its process was found to be gone), or
-- as naming no process with the lease past its grace; the artifacts were cleared just before, and before that,
-- if the owner had ended, the driver was asked to tear it down, each if it is wired. The driver is asked for
-- nothing else: no owner whose row is not terminal and whose process is alive is torn down.
pub reconcile-IsOrderly :
    (out : Outside) (uc : Reconciler) (s : State)
    → IsOrderly out uc s.log
    → IsOrderly out uc (Pass.reconcile out uc s).1.log
reconcile-IsOrderly out uc s h = (reconcile-Orderly out uc).at s h
