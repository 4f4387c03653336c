-- ===== src/Net/Plane/Pass.antt =====
-- internal/usecase/fleet_net_lease_reconcile.go: Reconcile, which mends, and Verify, which only judges.
use runtime_service.Base.{
  ℕ, suc, Bool, true, false, not, ◌||◌, if◌then◌else◌, ℤ, pos, ◌-ℤ◌, ltb_ℤ, leb_ℤ, eq_ℤ, saturated,
  List, [], ◌∷◌, ◌++◌, length, Option, none, some,
}
use runtime_service.Errors.{Result, ok}
use runtime_service.Fleet.Replica.{Replica, ReplicaState}
use runtime_service.Fleet.Volume.{points_to}
use runtime_service.Net.Lease.{
  NetLease, NetLeaseOwnerKind, replica, workload, unrecognized, matches_addresses,
}
use runtime_service.Net.Plane.{
  ImageWorkload, ImageDecommissionInput, LeaseOwner, Reconciler, Outside, torn_down, cleared,
  released, M, ◌>>=◌, ◌>>◌, lift, pure, attempt, note, query, ask, tally, each, unreconciled,
  or_unreconciled, no_report, lease_adopt_grace, owner_of_replica, owner_of_workload, verify_lease,
  check_scope, ordinal_of, leased, occupying, in_block,
}

-- What the reclaimer and the driver refuse is only logged.
unfoldable pub clear_by : Option (ℕ → NetLease → Result (Unit {0})) → NetLease → M (Unit {0})
clear_by none lease = pure tt
clear_by (some reclaim_lease_artifacts) lease = do
  note (cleared lease)
  attempt (query (λ n. reclaim_lease_artifacts n lease))
  pure tt

unfoldable pub stop_by :
    Option (ℕ → ImageDecommissionInput → Result (Unit {0})) → NetLease → LeaseOwner → M (Unit {0})
stop_by none lease o = pure tt
stop_by (some decommission) lease o = do
  note (torn_down lease o)
  attempt (query (λ n. decommission n o.handle))
  pure tt

module _ (out : Outside) (uc : Reconciler) where
  unfoldable pub resolve_ordinal : M ℤ
  resolve_ordinal = do
    found ← attempt (query (λ n. out.find_host n uc.self_host))
    host ← lift (or_unreconciled found)
    lift (ordinal_of host.net_ordinal)

  unfoldable pub list_held : M (List NetLease)
  list_held = do
    read ← attempt (query (λ n. out.leases_of n uc.self_host))
    lift (or_unreconciled read)

  unfoldable pub find_owner : NetLeaseOwnerKind → ℕ → M (Option LeaseOwner)
  find_owner replica id = do
    found ← attempt (query (λ n. out.find_replica n id))
    lift (owner_of_replica found)
  find_owner workload id = do
    found ← attempt (query (λ n. out.find_workload n id))
    lift (owner_of_workload found)
  find_owner (unrecognized kind) id = lift unreconciled

  unfoldable pub load_owner : NetLease → M (Option LeaseOwner)
  load_owner lease = find_owner lease.owner_kind lease.owner_id

  unfoldable pub assert_lease_matches_live_owner : NetLease → LeaseOwner → Result (Unit {0})
  assert_lease_matches_live_owner lease o =
      if matches_addresses lease (out.address o.guest_ip) (out.device o.tap_name)
      then ok tt
      else unreconciled

  unfoldable pub release_row : NetLease → Option LeaseOwner → M (Unit {0})
  release_row lease o = do
    note (released lease o)
    done ← attempt (query (λ n. out.release n lease.owner_kind lease.owner_id))
    lift (or_unreconciled done)

  -- The artifacts of the host first, then the row.
  unfoldable pub reclaim : NetLease → Option LeaseOwner → M (Unit {0})
  reclaim lease o = do
    clear_by out.reclaimer lease
    release_row lease o
    tally (λ r. record r { reclaimed = suc r.reclaimed })

  unfoldable pub tear_down_and_reclaim : NetLease → LeaseOwner → M (Unit {0})
  tear_down_and_reclaim lease o = do
    stop_by out.booter lease o
    tally (λ r. record r { torn_down = suc r.torn_down })
    reclaim lease (some o)

  unfoldable pub adopt : NetLease → LeaseOwner → M (Unit {0})
  adopt lease o = do
    lift (assert_lease_matches_live_owner lease o)
    tally (λ r. record r { adopted = suc r.adopted })

  unfoldable pub judge_process : NetLease → LeaseOwner → Bool → M (Unit {0})
  judge_process lease o false = tear_down_and_reclaim lease o
  judge_process lease o true = adopt lease o

  unfoldable pub is_young : NetLease → ℤ → Bool
  is_young lease now = ltb_ℤ (saturated (now -ℤ pos lease.created_at)) lease_adopt_grace

  unfoldable pub judge_age : NetLease → LeaseOwner → Bool → M (Unit {0})
  judge_age lease o true = tally (λ r. record r { left = suc r.left })
  judge_age lease o false = reclaim lease (some o)

  unfoldable pub judge_owner : NetLease → Option LeaseOwner → M (Unit {0})
  judge_owner lease none = reclaim lease none
  judge_owner lease (some o) =
      if o.terminal
      then tear_down_and_reclaim lease o
      else if ltb_ℤ (pos 0) o.pid
      then (do alive ← ask (λ n. out.proc_alive n o.pid); judge_process lease o alive)
      else (do now ← ask out.now; judge_age lease o (is_young lease now))

  unfoldable pub reconcile_lease : NetLease → M (Unit {0})
  reconcile_lease lease = do o ← load_owner lease; judge_owner lease o

  unfoldable pub reconcile_one : NetLease → M (Unit {0})
  reconcile_one lease = do lift (verify_lease uc lease); reconcile_lease lease

  -- Whether a replica without a lease may be a second claim on an address of this host.
  unfoldable pub claims : ℤ → Replica → M Bool
  claims ordinal r =
      if in_block ordinal r.net_index
      then pure true
      else elim r.pid [ none ↦ pure false | some pid ↦ ask (λ n. out.proc_alive n pid) ]

  unfoldable pub is_offender : ℤ → List NetLease → Replica → M Bool
  is_offender ordinal held r =
      if not (points_to uc.self_host r.host_id) || leb_ℤ r.net_index (pos 0)
      then pure false
      else if leased replica r.id held
      then pure false
      else claims ordinal r

  unfoldable pub add_if : ℕ → List ℕ → Bool → List ℕ
  add_if id ids true = ids ++ id ∷ []
  add_if id ids false = ids

  unfoldable pub offenders_among : ℤ → List NetLease → List ℕ → List Replica → M (List ℕ)
  offenders_among ordinal held ids [] = pure ids
  offenders_among ordinal held ids (r ∷ rs) = do
    bad ← is_offender ordinal held r
    offenders_among ordinal held (add_if r.id ids bad) rs

  unfoldable pub replica_offenders : ℤ → List NetLease → List ℕ → List ReplicaState → M (List ℕ)
  replica_offenders ordinal held ids [] = pure ids
  replica_offenders ordinal held ids (state ∷ states) = do
    read ← attempt (query (λ n. out.replicas_in n state))
    rs ← lift (or_unreconciled read)
    ids' ← offenders_among ordinal held ids rs
    replica_offenders ordinal held ids' states

  unfoldable pub workloads_without : List NetLease → List ℕ → List ImageWorkload → List ℕ
  workloads_without held ids [] = ids
  workloads_without held ids (w ∷ ws) =
      workloads_without held
        (add_if w.id ids (not (leb_ℤ w.net_index (pos 0) || leased workload w.id held))) ws

  unfoldable pub workload_offenders : ℤ → List NetLease → List ℕ → M (List ℕ)
  workload_offenders ordinal held ids =
      if eq_ℤ ordinal (pos 0)
      then (do
        read ← attempt (query out.active_workloads)
        ws ← lift (or_unreconciled read)
        pure (workloads_without held ids ws))
      else pure ids

  unfoldable pub refuse_offenders : List ℕ → Result (Unit {0})
  refuse_offenders [] = ok tt
  refuse_offenders (id ∷ ids) = unreconciled

  unfoldable pub assert_no_leaseless_owner : ℤ → List NetLease → M (Unit {0})
  assert_no_leaseless_owner ordinal held = do
    ids ← replica_offenders ordinal held [] occupying
    ids' ← workload_offenders ordinal held ids
    lift (refuse_offenders ids')

  unfoldable pub reconcile_held : ℤ → List NetLease → M (Unit {0})
  reconcile_held ordinal held = do
    tally (λ r. record r { leases = length held })
    each reconcile_one held
    assert_no_leaseless_owner ordinal held

  unfoldable pub reconcile_at : ℤ → M (Unit {0})
  reconcile_at ordinal = do
    tally (λ r. record r { host_ordinal = ordinal })
    held ← list_held
    reconcile_held ordinal held

  -- The report of the state is the one that is returned, with an error too.
  unfoldable pub reconcile : M (Unit {0})
  reconcile = do
    tally (λ r. no_report)
    lift (check_scope uc)
    ordinal ← resolve_ordinal
    reconcile_at ordinal

  unfoldable pub verify_owner : NetLease → Option LeaseOwner → M (Unit {0})
  verify_owner lease none = pure tt
  verify_owner lease (some o) =
      if ltb_ℤ (pos 0) o.pid
      then (do
        alive ← ask (λ n. out.proc_alive n o.pid)
        if alive then lift (assert_lease_matches_live_owner lease o) else pure tt)
      else pure tt

  unfoldable pub verify_one : NetLease → M (Unit {0})
  verify_one lease = do lift (verify_lease uc lease); o ← load_owner lease; verify_owner lease o

  unfoldable pub verify_held : ℤ → List NetLease → M (Unit {0})
  verify_held ordinal held = do each verify_one held; assert_no_leaseless_owner ordinal held

  unfoldable pub verify_at : ℤ → M (Unit {0})
  verify_at ordinal = do held ← list_held; verify_held ordinal held

  unfoldable pub verify : M (Unit {0})
  verify = do lift (check_scope uc); ordinal ← resolve_ordinal; verify_at ordinal
