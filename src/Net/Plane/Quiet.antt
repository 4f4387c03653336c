-- ===== src/Net/Plane/Quiet.antt =====
-- The parts of a pass that only read.
use runtime_service.Base.{
  ℕ, ◌≡◌, inl, inr, false, not, ◌||◌, ℤ, pos, leb_ℤ, eq_ℤ, List, [], ◌∷◌, Option, none, some,
}
use runtime_service.Errors.{Result, Result-cases, ok}
use runtime_service.Fleet.Replica.{Replica, ReplicaState}
use runtime_service.Fleet.Volume.{points_to}
use runtime_service.Net.Lease.{NetLease, NetLeaseOwnerKind, replica, workload, unrecognized}
use runtime_service.Net.Plane.{
  Outside, Reconciler, NetLeaseReconcileReport, Event, State, M, ◌>>=◌, lift, pure, attempt, query,
  ask, or_unreconciled, occupying, ordinal_of, in_block, leased,
}
use runtime_service.Net.Plane.Pass
use runtime_service.Net.Plane.Rules.{Keeps, Keeps-lift, Keeps-bind, Keeps-test}

module _ (out : Outside) (uc : Reconciler) (Q : NetLeaseReconcileReport → List Event → Type 0) where
  pub find_owner-Keeps :
      (kind : NetLeaseOwnerKind) (id : ℕ)
      → Keeps (λ s. Q s.report s.log) (Pass.find_owner out uc kind id)
  unfolding Pass.find_owner
  find_owner-Keeps replica id = record { at = λ s h. h }
  find_owner-Keeps workload id = record { at = λ s h. h }
  find_owner-Keeps (unrecognized kind) id = record { at = λ s h. h }

  read-Keeps :
      {A B : Type 0} (f : ℕ → Result A) (g : A → M B)
      → ((a : A) → Keeps (λ s. Q s.report s.log) (g a))
      → Keeps (λ s. Q s.report s.log) (attempt (query f) >>= λ r. lift (or_unreconciled r) >>= g)
  read-Keeps f g k =
      Keeps-bind (attempt (query f)) (λ r. lift (or_unreconciled r) >>= g)
        (record { at = λ s h. h }) λ r. Keeps-bind (lift (or_unreconciled r)) g (Keeps-lift _) k

  pub resolve_ordinal-Keeps : Keeps (λ s. Q s.report s.log) (Pass.resolve_ordinal out uc)
  unfolding Pass.resolve_ordinal
  resolve_ordinal-Keeps =
      read-Keeps _ (λ host. lift (ordinal_of host.net_ordinal)) λ host. Keeps-lift _

  pub list_held-Keeps : Keeps (λ s. Q s.report s.log) (Pass.list_held out uc)
  unfolding Pass.list_held
  list_held-Keeps = record { at = λ s h. h }

  claims-Keeps :
      (ordinal : ℤ) (r : Replica) → Keeps (λ s. Q s.report s.log) (Pass.claims out uc ordinal r)
  unfolding Pass.claims
  claims-Keeps ordinal r =
      Keeps-test (in_block ordinal r.net_index) _ _ (λ inside. record { at = λ s h. h })
        λ outside. asks r.pid
    where
      asks :
          (pid : Option ℤ)
          → Keeps
              (λ s. Q s.report s.log)
              (elim pid [ none ↦ pure false | some p ↦ ask (λ n. out.proc_alive n p) ])
      asks none = record { at = λ s h. h }
      asks (some p) = record { at = λ s h. h }

  is_offender-Keeps :
      (ordinal : ℤ) (held : List NetLease) (r : Replica)
      → Keeps (λ s. Q s.report s.log) (Pass.is_offender out uc ordinal held r)
  unfolding Pass.is_offender
  is_offender-Keeps ordinal held r =
      Keeps-test (not (points_to uc.self_host r.host_id) || leb_ℤ r.net_index (pos 0)) _ _
        (λ elsewhere. record { at = λ s h. h })
        λ here.
          Keeps-test (leased replica r.id held) _ _ (λ fenced. record { at = λ s h. h })
            λ bare. claims-Keeps ordinal r

  offenders_among-Keeps :
      (ordinal : ℤ) (held : List NetLease) (ids : List ℕ) (rs : List Replica)
      → Keeps (λ s. Q s.report s.log) (Pass.offenders_among out uc ordinal held ids rs)
  unfolding Pass.offenders_among
  offenders_among-Keeps ordinal held ids [] = record { at = λ s h. h }
  offenders_among-Keeps ordinal held ids (r ∷ rs) =
      Keeps-bind (Pass.is_offender out uc ordinal held r) _ (is_offender-Keeps ordinal held r)
        λ bad. offenders_among-Keeps ordinal held (Pass.add_if out uc r.id ids bad) rs

  replica_offenders-Keeps :
      (ordinal : ℤ) (held : List NetLease) (ids : List ℕ) (states : List ReplicaState)
      → Keeps (λ s. Q s.report s.log) (Pass.replica_offenders out uc ordinal held ids states)
  unfolding Pass.replica_offenders
  replica_offenders-Keeps ordinal held ids [] = record { at = λ s h. h }
  replica_offenders-Keeps ordinal held ids (state ∷ states) =
      read-Keeps _
        (λ rs. Pass.offenders_among out uc ordinal held ids rs >>= λ ids'.
          Pass.replica_offenders out uc ordinal held ids' states)
        λ rs.
          Keeps-bind (Pass.offenders_among out uc ordinal held ids rs) _
            (offenders_among-Keeps ordinal held ids rs)
            λ ids'. replica_offenders-Keeps ordinal held ids' states

  workload_offenders-Keeps :
      (ordinal : ℤ) (held : List NetLease) (ids : List ℕ)
      → Keeps (λ s. Q s.report s.log) (Pass.workload_offenders out uc ordinal held ids)
  unfolding Pass.workload_offenders
  workload_offenders-Keeps ordinal held ids =
      Keeps-test (eq_ℤ ordinal (pos 0)) _ _
        (λ first.
          read-Keeps _ (λ ws. pure (Pass.workloads_without out uc held ids ws))
            λ ws. record { at = λ s h. h })
        λ later. record { at = λ s h. h }

  pub assert_no_leaseless_owner-Keeps :
      (ordinal : ℤ) (held : List NetLease)
      → Keeps (λ s. Q s.report s.log) (Pass.assert_no_leaseless_owner out uc ordinal held)
  unfolding Pass.assert_no_leaseless_owner
  assert_no_leaseless_owner-Keeps ordinal held =
      Keeps-bind (Pass.replica_offenders out uc ordinal held [] occupying) _
        (replica_offenders-Keeps ordinal held [] occupying)
        λ ids.
          Keeps-bind (Pass.workload_offenders out uc ordinal held ids) _
            (workload_offenders-Keeps ordinal held ids)
            λ ids'. Keeps-lift (Pass.refuse_offenders out uc ids')

module _ (out : Outside) (uc : Reconciler) where
  -- The list is one that was read.
  pub list_held_sound :
      (s : State) (held : List NetLease)
      → (Pass.list_held out uc s).0 ≡ ok held
      → out.leases_of s.calls uc.self_host ≡ ok held
  unfolding Pass.list_held
  list_held_sound s held h = elim (Result-cases (out.leases_of s.calls uc.self_host)) [
    | inl (rows, e) ↦ let same : ok rows ≡ ok held = (rw e at h) in rw e same
    | inr (f, e) ↦ let failed = (rw e at h) in cc
  ]
