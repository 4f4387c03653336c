-- ===== src/Net/Plane/Rest/Agrees.antt =====
-- At rest, Reconcile refuses only what Verify refuses.
use runtime_service.Base.{
  ℕ, suc, ◌≡◌, refl, ◌∙◌, inl, inr, Bool, true, false, not, ◌||◌, if◌then◌else◌, ℤ, pos, ltb_ℤ,
  leb_ℤ, eq_ℤ, List, [], ◌∷◌, Option, none, some,
}
use runtime_service.Errors.{Result-cases, ok}
use runtime_service.Fleet.Replica.{Replica, ReplicaState}
use runtime_service.Fleet.Volume.{points_to}
use runtime_service.Net.Lease.{NetLease, NetLeaseOwnerKind, replica, workload, unrecognized}
use runtime_service.Net.Plane.{
  Reconciler, LeaseOwner, State, M, ◌>>=◌, lift, pure, ask, each, or_unreconciled, no_report,
  occupying, verify_lease, check_scope, leased, in_block,
}
use runtime_service.Net.Plane.Pass
use runtime_service.Net.Plane.Rules.{bind_ok}
use runtime_service.Net.Plane.Orderly.{clear_by-ok, stop_by-ok}
use runtime_service.Net.Plane.Rest.{Facts, at_rest, IsFixed, IsFixed-bind, IsFixed-test, bind_then}

module _ (f : Facts) (uc : Reconciler) where
  pub resolve_ordinal-IsFixed : IsFixed (Pass.resolve_ordinal (at_rest f) uc)
  unfolding Pass.resolve_ordinal
  resolve_ordinal-IsFixed s t = elim (Result-cases (or_unreconciled f.host)) [
    | inl (h, e) ↦ rw e refl
    | inr (g, e) ↦ rw e refl
  ]

  pub find_owner-IsFixed :
      (kind : NetLeaseOwnerKind) (id : ℕ) → IsFixed (Pass.find_owner (at_rest f) uc kind id)
  unfolding Pass.find_owner
  find_owner-IsFixed replica id s t = refl
  find_owner-IsFixed workload id s t = refl
  find_owner-IsFixed (unrecognized kind) id s t = refl

  claims-IsFixed : (ordinal : ℤ) (r : Replica) → IsFixed (Pass.claims (at_rest f) uc ordinal r)
  unfolding Pass.claims
  claims-IsFixed ordinal r =
      IsFixed-test (in_block ordinal r.net_index) _ _ (λ s t. refl) (asks r.pid)
    where
      asks :
          (pid : Option ℤ)
          → IsFixed (elim pid [ none ↦ pure false | some p ↦ ask (λ n. f.alive p) ])
      asks none s t = refl
      asks (some p) s t = refl

  pub is_offender-IsFixed :
      (ordinal : ℤ) (held : List NetLease) (r : Replica)
      → IsFixed (Pass.is_offender (at_rest f) uc ordinal held r)
  unfolding Pass.is_offender
  is_offender-IsFixed ordinal held r =
      IsFixed-test (not (points_to uc.self_host r.host_id) || leb_ℤ r.net_index (pos 0)) _ _
        (λ s t. refl)
        (IsFixed-test (leased replica r.id held) _ _ (λ s t. refl) (claims-IsFixed ordinal r))

  offenders_among-IsFixed :
      (ordinal : ℤ) (held : List NetLease) (ids : List ℕ) (rs : List Replica)
      → IsFixed (Pass.offenders_among (at_rest f) uc ordinal held ids rs)
  unfolding Pass.offenders_among
  offenders_among-IsFixed ordinal held ids [] s t = refl
  offenders_among-IsFixed ordinal held ids (r ∷ rs) s t =
      IsFixed-bind (Pass.is_offender (at_rest f) uc ordinal held r)
        (λ bad.
          Pass.offenders_among (at_rest f) uc ordinal held (Pass.add_if (at_rest f) uc r.id ids bad)
            rs)
        (is_offender-IsFixed ordinal held r)
        (λ bad. offenders_among-IsFixed ordinal held (Pass.add_if (at_rest f) uc r.id ids bad) rs) s
        t

  replica_offenders-IsFixed :
      (ordinal : ℤ) (held : List NetLease) (ids : List ℕ) (states : List ReplicaState)
      → IsFixed (Pass.replica_offenders (at_rest f) uc ordinal held ids states)
  unfolding Pass.replica_offenders
  replica_offenders-IsFixed ordinal held ids [] s t = refl
  replica_offenders-IsFixed ordinal held ids (state ∷ states) s t =
      IsFixed-bind (Pass.offenders_among (at_rest f) uc ordinal held ids _)
        (λ ids'. Pass.replica_offenders (at_rest f) uc ordinal held ids' states)
        (offenders_among-IsFixed ordinal held ids _)
        (λ ids'. replica_offenders-IsFixed ordinal held ids' states)
        (record s { calls = suc s.calls }) (record t { calls = suc t.calls })

  workload_offenders-IsFixed :
      (ordinal : ℤ) (held : List NetLease) (ids : List ℕ)
      → IsFixed (Pass.workload_offenders (at_rest f) uc ordinal held ids)
  unfolding Pass.workload_offenders
  workload_offenders-IsFixed ordinal held ids =
      IsFixed-test (eq_ℤ ordinal (pos 0)) _ _ (λ s t. refl) (λ s t. refl)

  assert_no_leaseless_owner-IsFixed :
      (ordinal : ℤ) (held : List NetLease)
      → IsFixed (Pass.assert_no_leaseless_owner (at_rest f) uc ordinal held)
  unfolding Pass.assert_no_leaseless_owner
  assert_no_leaseless_owner-IsFixed ordinal held =
      IsFixed-bind (Pass.replica_offenders (at_rest f) uc ordinal held [] occupying)
        (λ ids. Pass.workload_offenders (at_rest f) uc ordinal held ids >>= λ ids'.
          lift (Pass.refuse_offenders (at_rest f) uc ids'))
        (replica_offenders-IsFixed ordinal held [] occupying)
        λ ids.
          IsFixed-bind (Pass.workload_offenders (at_rest f) uc ordinal held ids)
            (λ ids'. lift (Pass.refuse_offenders (at_rest f) uc ids'))
            (workload_offenders-IsFixed ordinal held ids) λ ids'. λ s t. refl

  -- Always succeeds.
  abbrev Always : M (Unit {0}) → Type 0
  Always m = (s : State) → (m s).0 ≡ ok tt

  reclaim-Always :
      (lease : NetLease) (o : Option LeaseOwner) → Always (Pass.reclaim (at_rest f) uc lease o)
  unfolding Pass.reclaim Pass.release_row
  reclaim-Always lease o s = rw ((clear_by-ok f.reclaimer lease s).0, ◌>>=◌) refl

  tear_down-Always :
      (lease : NetLease) (o : LeaseOwner)
      → Always (Pass.tear_down_and_reclaim (at_rest f) uc lease o)
  unfolding Pass.tear_down_and_reclaim
  tear_down-Always lease o s =
      rw ((stop_by-ok f.booter lease o s).0, ◌>>=◌) (reclaim-Always lease (some o) _)

  Always-test :
      (test : Bool) (m n : M (Unit {0}))
      → (test ≡ true → Always m)
      → (test ≡ false → Always n)
      → Always (if test then m else n)
  Always-test true m n km kn = km refl
  Always-test false m n km kn = kn refl

  judge_age-Always :
      (lease : NetLease) (o : LeaseOwner) (young : Bool)
      → Always (Pass.judge_age (at_rest f) uc lease o young)
  unfolding Pass.judge_age
  judge_age-Always lease o true s = refl
  judge_age-Always lease o false s = reclaim-Always lease (some o) s

  -- A live owner that Verify accepts matches its lease.
  pub verified_matches :
      (lease : NetLease) (o : LeaseOwner) (s : State)
      → ltb_ℤ (pos 0) o.pid ≡ true
      → f.alive o.pid ≡ true
      → (Pass.verify_owner (at_rest f) uc lease (some o) s).0 ≡ ok tt
      → Pass.assert_lease_matches_live_owner (at_rest f) uc lease o ≡ ok tt
  unfolding Pass.verify_owner
  verified_matches lease o s has lives h = rw (has, lives) at h

  judge_process-Always :
      (lease : NetLease) (o : LeaseOwner) (s : State)
      → ltb_ℤ (pos 0) o.pid ≡ true
      → (Pass.verify_owner (at_rest f) uc lease (some o) s).0 ≡ ok tt
      → (alive : Bool) → f.alive o.pid ≡ alive
      → Always (Pass.judge_process (at_rest f) uc lease o alive)
  unfolding Pass.judge_process Pass.adopt
  judge_process-Always lease o s has h false gone t = tear_down-Always lease o t
  judge_process-Always lease o s has h true lives t =
      rw (verified_matches lease o s has lives h, ◌>>=◌) refl

  judge_owner-Always :
      (lease : NetLease) (o : Option LeaseOwner) (s : State)
      → (Pass.verify_owner (at_rest f) uc lease o s).0 ≡ ok tt
      → Always (Pass.judge_owner (at_rest f) uc lease o)
  unfolding Pass.judge_owner
  judge_owner-Always lease none s h t = reclaim-Always lease none t
  judge_owner-Always lease (some o) s h t =
      Always-test o.terminal _ _ (λ over. tear_down-Always lease o)
        (λ runs.
          Always-test (ltb_ℤ (pos 0) o.pid) _ _
            (λ has t. judge_process-Always lease o s has h (f.alive o.pid) refl _)
            (λ has t. judge_age-Always lease o _ _))
        t

  reconcile_one-Always :
      (lease : NetLease) (s : State)
      → (Pass.verify_one (at_rest f) uc lease s).0 ≡ ok tt
      → Always (Pass.reconcile_one (at_rest f) uc lease)
  unfolding Pass.verify_one Pass.reconcile_one Pass.reconcile_lease Pass.load_owner
  reconcile_one-Always lease s h t =
      let owner = Pass.find_owner (at_rest f) uc lease.owner_kind lease.owner_id in
      let (u, verified, h1, p1) =
        bind_ok (lift (verify_lease uc lease))
          (λ _. owner >>= Pass.verify_owner (at_rest f) uc lease) s tt h in
      let (o, read, h2, p2) = bind_ok owner (Pass.verify_owner (at_rest f) uc lease) s tt h1 in
      bind_then (lift (verify_lease uc lease))
        (λ _. owner >>= Pass.judge_owner (at_rest f) uc lease) t tt (ok tt) verified
        (bind_then owner (Pass.judge_owner (at_rest f) uc lease) t o (ok tt)
          (find_owner-IsFixed lease.owner_kind lease.owner_id t s ∙ read)
          (judge_owner-Always lease o (owner s).1 h2 (owner t).1))

  each-Always :
      (held : List NetLease) (s : State)
      → (each (Pass.verify_one (at_rest f) uc) held s).0 ≡ ok tt
      → Always (each (Pass.reconcile_one (at_rest f) uc) held)
  unfolding each
  each-Always [] s h t = refl
  each-Always (lease ∷ held) s h t =
      let (u, first, rest, p) =
        bind_ok (Pass.verify_one (at_rest f) uc lease)
          (λ _. each (Pass.verify_one (at_rest f) uc) held) s tt h in
      bind_then (Pass.reconcile_one (at_rest f) uc lease)
        (λ _. each (Pass.reconcile_one (at_rest f) uc) held) t tt (ok tt)
        (reconcile_one-Always lease s first t)
        (each-Always held (Pass.verify_one (at_rest f) uc lease s).1 rest _)

  held-Always :
      (ordinal : ℤ) (held : List NetLease) (s : State)
      → (Pass.verify_held (at_rest f) uc ordinal held s).0 ≡ ok tt
      → Always (Pass.reconcile_held (at_rest f) uc ordinal held)
  unfolding Pass.verify_held Pass.reconcile_held
  held-Always ordinal held s h t =
      let claim_free = Pass.assert_no_leaseless_owner (at_rest f) uc ordinal held in
      let (u, verified, free, p) =
        bind_ok (each (Pass.verify_one (at_rest f) uc) held) (λ _. claim_free) s tt h in
      bind_then (each (Pass.reconcile_one (at_rest f) uc) held) (λ _. claim_free) _ tt (ok tt)
        (each-Always held s verified _) (assert_no_leaseless_owner-IsFixed ordinal held _ _ ∙ free)

-- If the tables and the processes stay as they are, and no call of a store fails: whenever Verify accepts,
-- Reconcile succeeds, whatever the driver, the reclaimer and the clock answer. So Reconcile fails closed on
-- nothing that Verify does not refuse too.
pub reconcile_agrees :
    (f : Facts) (uc : Reconciler) (s t : State)
    → (Pass.verify (at_rest f) uc s).0 ≡ ok tt
    → (Pass.reconcile (at_rest f) uc t).0 ≡ ok tt
unfolding Pass.verify Pass.verify_at Pass.reconcile Pass.reconcile_at Pass.list_held
reconcile_agrees f uc s t h =
    let t0 : State = record t { report = no_report } in
    let ordinal_read = Pass.resolve_ordinal (at_rest f) uc in
    let (u, scoped, h1, p1) =
      bind_ok (lift (check_scope uc)) (λ _. ordinal_read >>= Pass.verify_at (at_rest f) uc) s tt
        h in
    let (ordinal, found, h2, p2) = bind_ok ordinal_read (Pass.verify_at (at_rest f) uc) s tt h1 in
    bind_then (lift (check_scope uc)) (λ _. ordinal_read >>= Pass.reconcile_at (at_rest f) uc) t0 tt
      (ok tt) scoped
      (bind_then ordinal_read (Pass.reconcile_at (at_rest f) uc) t0 ordinal (ok tt)
        (resolve_ordinal-IsFixed f uc t0 s ∙ found) (held-Always f uc ordinal _ _ h2 _))
