-- ===== src/Net/Plane/Rest/Running.antt =====
-- A microVM that runs on the host, and what Verify finds of it, at rest.
use runtime_service.Base.{
  ◌==◌, ==_iff, ==_refl, ◌≡◌, refl, inl, inr, true, false, ℤ, pos, ltb_ℤ, eq_of_parts, leb_ℤ, ◌<ℤ◌,
  List, [], ◌∷◌, Memᴰ, some, Bool-cases, Option-cases, first, first_sound, first_absent, arith,
  eq_iff,
}
use runtime_service.Errors.{Result-cases, ok}
use runtime_service.Fleet.Replica.{Replica, ReplicaState}
use runtime_service.Fleet.Volume.{points_to}
use runtime_service.Fleet.Volume.Affinity.{points_to_iff}
use runtime_service.Net.Lease.{
  Address, dotted, other_text, address_eq, NetLease, replica, derive_net_lease, matches_addresses,
}
use runtime_service.Net.Plane.{
  Reconciler, LeaseOwner, State, M, ◌>>=◌, lift, each, occupying, leased, in_block, is_derived,
  check_derived, verify_lease, owner_of, owner_of_replica, no_report,
}
use runtime_service.Net.Plane.Pass
use runtime_service.Net.Plane.Rules.{bind_ok}
use runtime_service.Net.Plane.Rest.{Facts, at_rest, in_state}
use runtime_service.Net.Plane.Rest.Agrees.{verified_matches}
use runtime_service.Net.Plane.Rest.Clean.{IsClean}

address_eq→eq : (a b : Address) → address_eq a b ≡ true → a ≡ b
address_eq→eq (dotted a b c d) (dotted e f g h) same = ground arith
address_eq→eq (other_text s) (other_text t) same = ground (arith, eq_iff s t)
address_eq→eq (dotted a b c d) (other_text t) same = cc
address_eq→eq (other_text s) (dotted e f g h) same = cc

-- A microVM that runs here: a replica of the table that is placed on this host, in a state that
-- occupies an index, with an index and a live process.
pub record IsRunning (f : Facts) (uc : Reconciler) (r : Replica) : Type 0 where
  pub listed : Memᴰ r f.replicas
  pub placed : r.host_id ≡ some uc.self_host
  pub state : ReplicaState
  pub occupies : Memᴰ state occupying
  pub in_it : in_state state r.state ≡ true
  pub indexed : pos 0 <ℤ r.net_index
  pub pid : ℤ
  pub recorded : r.pid ≡ some pid
  pub started : pos 0 <ℤ pid
  pub lives : f.alive pid ≡ true

-- The ids of the rows are their own.
abbrev pub IsKeyed : List Replica → Type 0
IsKeyed rows = (q r : Replica) → Memᴰ q rows → Memᴰ r rows → q.id ≡ r.id → q ≡ r

module _ (f : Facts) (uc : Reconciler) where
  claims_live :
      (ordinal : ℤ) (r : Replica) (s : State) (pid : ℤ)
      → r.pid ≡ some pid
      → f.alive pid ≡ true
      → (Pass.claims (at_rest f) uc ordinal r s).0 ≡ ok true
  unfolding Pass.claims
  claims_live ordinal r s pid e lives = elim (Bool-cases (in_block ordinal r.net_index)) [
    | inl inside ↦ rw inside refl
    | inr outside ↦ rw outside (rw e (rw lives refl))
  ]

  -- A running replica that is no offender has a lease.
  pub leased_when_clean :
      (ordinal : ℤ) (held : List NetLease) (r : Replica)
      → IsRunning f uc r
      → IsClean f uc ordinal held r
      → leased replica r.id held ≡ true
  unfolding Pass.is_offender
  leased_when_clean ordinal held r k clean = elim (Bool-cases (leased replica r.id held)) [
    | inl e ↦ e
    | inr e ↦
        let s0 : State = record { calls = 0; report = no_report; log = [] } in
        let here : points_to uc.self_host r.host_id ≡ true =
          (points_to_iff uc.self_host r.host_id).1 k.placed in
        let positive : leb_ℤ r.net_index (pos 0) ≡ false = ground arith in
        let unclaimed : (Pass.claims (at_rest f) uc ordinal r s0).0 ≡ ok false =
          rw (here, positive, e) at (clean s0) in
        let claimed = claims_live ordinal r s0 k.pid k.recorded k.lives in cc
  ]

  pub each_passes :
      (g : NetLease → M (Unit {0})) (held : List NetLease) (s : State)
      → (each g held s).0 ≡ ok tt
      → (l : NetLease) → Memᴰ l held
      → (t : State) × ((g l t).0 ≡ ok tt)
  unfolding each
  each_passes g [] s h l m = elim m [ ]
  each_passes g (x ∷ held) s h l (Memᴰ.head e) =
      let (u, first_ok, rest, p) = bind_ok (g x) (λ _. each g held) s tt h in (s, rw e first_ok)
  each_passes g (x ∷ held) s h l (Memᴰ.tail m) =
      let (u, first_ok, rest, p) = bind_ok (g x) (λ _. each g held) s tt h in
      each_passes g held (g x s).1 rest l m

  -- The coordinates of a lease that Verify accepts.
  pub is_derived_sound :
      (d l : NetLease)
      → is_derived d l ≡ true
      → (d.net_index ≡ l.net_index) × (d.guest_ip ≡ l.guest_ip)
  unfolding is_derived
  is_derived_sound d l h = (
    eq_of_parts d.net_index l.net_index (ground arith),
    address_eq→eq d.guest_ip l.guest_ip (ground arith),
  )

  pub derived_of :
      (l : NetLease)
      → verify_lease uc l ≡ ok tt
      → (d : NetLease) × (derive_net_lease l.host_ordinal l.local_slot uc.uid_base ≡ ok d)
        × (is_derived d l ≡ true)
  unfolding verify_lease check_derived
  derived_of l h = elim (Result-cases (derive_net_lease l.host_ordinal l.local_slot uc.uid_base)) [
    | inr (g, e) ↦ let failed = (rw e at h) in cc
    | inl (d, e) ↦ elim (Bool-cases (is_derived d l)) [
      | inl same ↦ (d, e, same)
      | inr other ↦ let failed = (rw (e, check_derived, other) at h) in cc
    ]
  ]

  -- The row that the lease's owner is read as, when it is a replica of the table.
  owner_row :
      (r : Replica) (s : State)
      → IsKeyed f.replicas
      → Memᴰ r f.replicas
      → (Pass.find_owner (at_rest f) uc replica r.id s).0 ≡ owner_of_replica (ok r)
  unfolding Pass.find_owner
  owner_row r s keyed m = elim (Option-cases (first (λ q. q.id == r.id) f.replicas)) [
    | inl e ↦
        let missed = first_absent (λ q. q.id == r.id) f.replicas e r m in
        let hit = ==_refl r.id in cc
    | inr (q, e) ↦
        let (m', same) = first_sound (λ q. q.id == r.id) f.replicas q e in
        let q_is_r : q ≡ r = keyed q r m' m ((==_iff q.id r.id).0 same) in rw e (rw q_is_r refl)
  ]

  matches_guest :
      (l : NetLease) (o : LeaseOwner)
      → Pass.assert_lease_matches_live_owner (at_rest f) uc l o ≡ ok tt
      → l.guest_ip ≡ f.address o.guest_ip
  unfolding Pass.assert_lease_matches_live_owner matches_addresses
  matches_guest l o h =
      elim (Bool-cases (matches_addresses l (f.address o.guest_ip) (f.device o.tap_name))) [
        | inl e ↦ address_eq→eq l.guest_ip (f.address o.guest_ip) (ground arith)
        | inr e ↦ let failed = (rw e at h) in cc
      ]

  owned_row :
      (l : NetLease) (r : Replica) (s : State)
      → IsKeyed f.replicas
      → Memᴰ r f.replicas
      → l.owner_kind ≡ replica
      → l.owner_id ≡ r.id
      → (Pass.find_owner (at_rest f) uc l.owner_kind l.owner_id s).0 ≡ owner_of_replica (ok r)
  owned_row l r s keyed m kind own = rw (kind, own) (owner_row r s keyed m)

  -- A lease of a running replica that Verify accepts holds the replica's address.
  pub verified_guest :
      (l : NetLease) (r : Replica) (s : State)
      → IsKeyed f.replicas
      → IsRunning f uc r
      → l.owner_kind ≡ replica
      → l.owner_id ≡ r.id
      → (Pass.verify_one (at_rest f) uc l s).0 ≡ ok tt
      → (verify_lease uc l ≡ ok tt) × (l.guest_ip ≡ f.address r.guest_ip)
  unfolding Pass.verify_one Pass.load_owner owner_of_replica
  verified_guest l r s keyed k kind own h =
      let owner = Pass.find_owner (at_rest f) uc l.owner_kind l.owner_id in
      let (u, verified, h1, p1) =
        bind_ok (lift (verify_lease uc l)) (λ _. owner >>= Pass.verify_owner (at_rest f) uc l) s tt
          h in
      let (o, read, h2, p2) = bind_ok owner (Pass.verify_owner (at_rest f) uc l) s tt h1 in
      let row = owned_row l r s keyed k.listed kind own in
      let known : some (owner_of r) ≡ o = cc in
      let has : ltb_ℤ (pos 0) (owner_of r).pid ≡ true = rw k.recorded (ground arith) in
      let alive : f.alive (owner_of r).pid ≡ true = rw k.recorded k.lives in
      (
        verified,
        matches_guest l (owner_of r)
            (verified_matches f uc l (owner_of r) (owner s).1 has alive (rw (← known) at h2)),
      )
