-- ===== src/Net/Plane/Rest/Separate.antt =====
-- What Verify's acceptance says of the microVMs that run on the host, at rest.
use runtime_service.Base.{
  ◌==◌, ◌≡◌, sym, ap, ◌∙◌, inl, inr, ℤ, List, Memᴰ, select_sound, some_of_found, arith,
}
use runtime_service.Errors.{ok}
use runtime_service.Fleet.Replica.{Replica}
use runtime_service.Net.Lease.{NetLease, replica, derive_net_lease}
use runtime_service.Net.Lease.Coordinates.{derive_injective}
use runtime_service.Net.Table.{owned_by, list_by_host}
use runtime_service.Net.Table.Fences.{Fenced, kind_eq→eq, net_index_unique}
use runtime_service.Net.Plane.{Reconciler, State, ◌>>=◌, lift, each, leased, check_scope}
use runtime_service.Net.Plane.Pass
use runtime_service.Net.Plane.Rules.{bind_ok}
use runtime_service.Net.Plane.Rest.{Facts, at_rest}
use runtime_service.Net.Plane.Rest.Running.{
  IsRunning, IsKeyed, leased_when_clean, each_passes, is_derived_sound, derived_of, verified_guest,
}
use runtime_service.Net.Plane.Rest.Clean.{assert-IsClean}

-- The lease of the replica is in the list, and holds the address that the replica has.
record IsFencedBy (f : Facts) (uc : Reconciler) (held : List NetLease) (r : Replica) : Type 0 where
  lease : NetLease
  listed : Memᴰ lease held
  owner : lease.owner_id ≡ r.id
  derived : NetLease
  derives : derive_net_lease lease.host_ordinal lease.local_slot uc.uid_base ≡ ok derived
  index : derived.net_index ≡ lease.net_index
  guest : derived.guest_ip ≡ f.address r.guest_ip

module _ (f : Facts) (uc : Reconciler) where
  fenced_by :
      (ordinal : ℤ) (held : List NetLease) (r : Replica) (s : State)
      → IsKeyed f.replicas
      → IsRunning f uc r
      → (Pass.verify_held (at_rest f) uc ordinal held s).0 ≡ ok tt
      → IsFencedBy f uc held r
  unfolding Pass.verify_held leased
  fenced_by ordinal held r s keyed k h =
      let (u, passed, free, p) =
        bind_ok (each (Pass.verify_one (at_rest f) uc) held)
          (λ _. Pass.assert_no_leaseless_owner (at_rest f) uc ordinal held) s tt h in
      let clean = assert-IsClean f uc ordinal held _ free r k.state k.listed k.occupies k.in_it in
      let (l, m, own) =
        some_of_found (owned_by replica r.id) held
          (leased_when_clean f uc ordinal held r k clean) in
      let kind = kind_eq→eq l.owner_kind replica (ground arith) in
      let id : l.owner_id ≡ r.id = ground arith in
      let (t, ran) = each_passes f uc (Pass.verify_one (at_rest f) uc) held s passed l m in
      let (verified, guest) = verified_guest f uc l r t keyed k kind id ran in
      let (d, derives, same) = derived_of f uc l verified in
      let (index, address) = is_derived_sound f uc d l same in
      record {
        lease = l;
        listed = m;
        owner = id;
        derived = d;
        derives = derives;
        index = index;
        guest = address ∙ guest;
      }

-- If the tables and the processes stay as they are, no call of a store fails, the lease table's fences hold
-- and the replicas' ids are their own: when Verify accepts, no two replicas that run on the host have the same
-- guest address.
pub verify_separates :
    (f : Facts) (uc : Reconciler) (s : State) (q r : Replica)
    → Fenced f.leases
    → IsKeyed f.replicas
    → (Pass.verify (at_rest f) uc s).0 ≡ ok tt
    → IsRunning f uc q
    → IsRunning f uc r
    → f.address q.guest_ip ≡ f.address r.guest_ip
    → q ≡ r
unfolding Pass.verify Pass.verify_at Pass.list_held list_by_host
verify_separates f uc s q r fenced keyed h kq kr same =
    let ordinal_read = Pass.resolve_ordinal (at_rest f) uc in
    let (u, scoped, h1, p1) =
      bind_ok (lift (check_scope uc)) (λ _. ordinal_read >>= Pass.verify_at (at_rest f) uc) s tt
        h in
    let (ordinal, found, h2, p2) = bind_ok ordinal_read (Pass.verify_at (at_rest f) uc) s tt h1 in
    let held = list_by_host uc.self_host f.leases in
    let fq = fenced_by f uc ordinal held q _ keyed kq h2 in
    let fr = fenced_by f uc ordinal held r _ keyed kr h2 in
    let guests : fq.derived.guest_ip ≡ fr.derived.guest_ip = fq.guest ∙ same ∙ sym fr.guest in
    let coordinates =
      derive_injective fq.lease.host_ordinal fq.lease.local_slot uc.uid_base fr.lease.host_ordinal
        fr.lease.local_slot uc.uid_base fq.derived fr.derived fq.derives fr.derives
        (inr (inr (inl guests))) in
    let again : derive_net_lease fq.lease.host_ordinal fq.lease.local_slot uc.uid_base
        ≡ ok fr.derived =
      rw (coordinates.0, coordinates.1) fr.derives in
    let derived : fq.derived ≡ fr.derived = cc in
    let index : fq.lease.net_index ≡ fr.lease.net_index =
      sym fq.index ∙ ap (λ d. d.net_index) derived ∙ fr.index in
    let in_table = select_sound (λ (l : NetLease). l.host_id == uc.self_host) f.leases in
    let lease =
      net_index_unique f.leases fq.lease fr.lease fenced (in_table fq.lease fq.listed).0
        (in_table fr.lease fr.listed).0 index in
    keyed q r kq.listed kr.listed (sym fq.owner ∙ ap (λ l. l.owner_id) lease ∙ fr.owner)
