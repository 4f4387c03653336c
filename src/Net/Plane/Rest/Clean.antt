-- ===== src/Net/Plane/Rest/Clean.antt =====
-- What the check for owners without a lease says of each row, at rest.
use runtime_service.Base.{
  ℕ, suc, ◌≡◌, refl, ◌∙◌, inl, inr, Bool, true, false, not, ◌||◌, ℤ, pos, leb_ℤ, eq_ℤ, List, [],
  ◌∷◌, Memᴰ, Bool-cases, select, select_complete,
}
use runtime_service.Errors.{ok}
use runtime_service.Fleet.Replica.{Replica, ReplicaState}
use runtime_service.Net.Lease.{NetLease, workload}
use runtime_service.Net.Plane.{Reconciler, ImageWorkload, State, ◌>>=◌, lift, occupying, leased}
use runtime_service.Net.Plane.Pass
use runtime_service.Net.Plane.Rules.{bind_ok}
use runtime_service.Net.Plane.Rest.{Facts, at_rest, in_state, is_active}
use runtime_service.Net.Plane.Rest.Agrees.{is_offender-IsFixed}

module _ (f : Facts) (uc : Reconciler) where
  add_if_blank :
      (id : ℕ) (ids : List ℕ) (bad : Bool)
      → Pass.add_if (at_rest f) uc id ids bad ≡ []
      → (ids ≡ []) × (bad ≡ false)
  unfolding Pass.add_if
  add_if_blank id ids false h = (h, refl)
  add_if_blank id [] true h = cc
  add_if_blank id (i ∷ ids) true h = cc

  -- The replica is no offender, whenever it is asked.
  abbrev pub IsClean : ℤ → List NetLease → Replica → Type 0
  IsClean ordinal held r =
      (s : State) → (Pass.is_offender (at_rest f) uc ordinal held r s).0 ≡ ok false

  module _ (ordinal : ℤ) (held : List NetLease) where
    offenders_among-IsClean :
        (ids ids' : List ℕ) (rs : List Replica) (s : State)
        → (Pass.offenders_among (at_rest f) uc ordinal held ids rs s).0 ≡ ok ids'
        → ids' ≡ []
        → (ids ≡ []) × ((r : Replica) → Memᴰ r rs → IsClean ordinal held r)
    unfolding Pass.offenders_among
    offenders_among-IsClean ids ids' [] s h blank = (cc, λ r m. elim m [ ])
    offenders_among-IsClean ids ids' (q ∷ rs) s h blank =
        let (bad, e, rest, p) =
          bind_ok (Pass.is_offender (at_rest f) uc ordinal held q)
            (λ b.
              Pass.offenders_among (at_rest f) uc ordinal held
                (Pass.add_if (at_rest f) uc q.id ids b) rs)
            s ids' h in
        let (none_yet, later) =
          offenders_among-IsClean (Pass.add_if (at_rest f) uc q.id ids bad) ids' rs _ rest blank in
        let (none_before, fine) = add_if_blank q.id ids bad none_yet in
        (
          none_before,
          λ r m.
              among q rs later (λ t. is_offender-IsFixed f uc ordinal held q t s ∙ rw fine at e) r
                m,
        )
      where
        among :
            (q : Replica) (rs : List Replica)
            → ((r : Replica) → Memᴰ r rs → IsClean ordinal held r)
            → IsClean ordinal held q
            → (r : Replica) → Memᴰ r (q ∷ rs)
            → IsClean ordinal held r
        among q rs later here r (Memᴰ.head same) = rw same here
        among q rs later here r (Memᴰ.tail m) = later r m

    replica_offenders-IsClean :
        (ids ids' : List ℕ) (states : List ReplicaState) (s : State)
        → (Pass.replica_offenders (at_rest f) uc ordinal held ids states s).0 ≡ ok ids'
        → ids' ≡ []
        → (ids ≡ [])
          × ((r : Replica) (state : ReplicaState)
              → Memᴰ r f.replicas
              → Memᴰ state states
              → in_state state r.state ≡ true
              → IsClean ordinal held r)
    unfolding Pass.replica_offenders
    replica_offenders-IsClean ids ids' [] s h blank = (cc, λ r st m k e. elim k [ ])
    replica_offenders-IsClean ids ids' (state ∷ states) s h blank =
        let rs = select (λ r. in_state state r.state) f.replicas in
        let (more, e, rest, p) =
          bind_ok (Pass.offenders_among (at_rest f) uc ordinal held ids rs)
            (λ i. Pass.replica_offenders (at_rest f) uc ordinal held i states)
            (record s { calls = suc s.calls }) ids' h in
        let (none_yet, later) = replica_offenders-IsClean more ids' states _ rest blank in
        let (none_before, fine) = offenders_among-IsClean ids more rs _ e none_yet in
        (none_before, among state states later fine)
      where
        among :
            (state : ReplicaState) (states : List ReplicaState)
            → ((r : Replica) (st : ReplicaState)
                → Memᴰ r f.replicas
                → Memᴰ st states
                → in_state st r.state ≡ true
                → IsClean ordinal held r)
            → ((r : Replica)
                → Memᴰ r (select (λ r. in_state state r.state) f.replicas)
                → IsClean ordinal held r)
            → (r : Replica) (st : ReplicaState) → Memᴰ r f.replicas
            → Memᴰ st (state ∷ states)
            → in_state st r.state ≡ true
            → IsClean ordinal held r
        among state states later fine r st m (Memᴰ.head same) e =
            fine r (select_complete (λ q. in_state state q.state) f.replicas r m (rw same at e))
        among state states later fine r st m (Memᴰ.tail k) e = later r st m k e

    workloads_without_blank :
        (ids : List ℕ) (ws : List ImageWorkload)
        → Pass.workloads_without (at_rest f) uc held ids ws ≡ []
        → ids ≡ []
    unfolding Pass.workloads_without
    workloads_without_blank ids [] h = h
    workloads_without_blank ids (w ∷ ws) h =
        let bad = not (leb_ℤ w.net_index (pos 0) || leased workload w.id held) in
        (add_if_blank w.id ids bad
          (workloads_without_blank (Pass.add_if (at_rest f) uc w.id ids bad) ws h)).0

    workload_offenders_blank :
        (ids ids' : List ℕ) (s : State)
        → (Pass.workload_offenders (at_rest f) uc ordinal held ids s).0 ≡ ok ids'
        → ids' ≡ []
        → ids ≡ []
    unfolding Pass.workload_offenders
    workload_offenders_blank ids ids' s h blank = elim (Bool-cases (eq_ℤ ordinal (pos 0))) [
      | inl e ↦
          let ws = select is_active f.workloads in
          let found : ok (Pass.workloads_without (at_rest f) uc held ids ws) ≡ ok ids' =
            (rw e at h) in
          workloads_without_blank ids ws (cc)
      | inr e ↦ let found : ok ids ≡ ok ids' = (rw e at h) in cc
    ]

    refuse_offenders_blank :
        (ids : List ℕ) → Pass.refuse_offenders (at_rest f) uc ids ≡ ok tt → ids ≡ []
    unfolding Pass.refuse_offenders
    refuse_offenders_blank [] h = refl
    refuse_offenders_blank (i ∷ ids) h = cc

    -- No replica in a state that occupies an index is an offender.
    pub assert-IsClean :
        (s : State)
        → (Pass.assert_no_leaseless_owner (at_rest f) uc ordinal held s).0 ≡ ok tt
        → (r : Replica) (state : ReplicaState) → Memᴰ r f.replicas
        → Memᴰ state occupying
        → in_state state r.state ≡ true
        → IsClean ordinal held r
    unfolding Pass.assert_no_leaseless_owner
    assert-IsClean s h r state m k e =
        let (ids, e1, h1, p1) =
          bind_ok (Pass.replica_offenders (at_rest f) uc ordinal held [] occupying)
            (λ i. Pass.workload_offenders (at_rest f) uc ordinal held i >>= λ i'.
              lift (Pass.refuse_offenders (at_rest f) uc i'))
            s tt h in
        let (ids', e2, h2, p2) =
          bind_ok (Pass.workload_offenders (at_rest f) uc ordinal held ids)
            (λ i'. lift (Pass.refuse_offenders (at_rest f) uc i')) _ tt h1 in
        let blank = workload_offenders_blank ids ids' _ e2 (refuse_offenders_blank ids' h2) in
        (replica_offenders-IsClean [] ids occupying s e1 blank).1 r state m k e
