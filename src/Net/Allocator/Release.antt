-- ===== src/Net/Allocator/Release.antt =====
-- Release of internal/usecase/fleet_net_allocator.go while nothing else touches the table.
use runtime_service.Base.{
  ℕ, suc, ◌≡◌, ◌≢◌, refl, ap, ◌∙◌, inl, inr, true, false, not, ◌||◌, ◌==◌, ==_iff, List, Memᴰ,
  Bool-cases, ◌⊎◌,
}
use runtime_service.Errors.{Err, Result, ok, err, fence, net_lease_not_found}
use runtime_service.Net.Lease.{NetLease, NetLeaseOwnerKind, kind_is_valid}
use runtime_service.Net.Table.{owned_by}
use runtime_service.Net.Table
use runtime_service.Net.Table.Fences.{
  Fenced, owner_unique, find_by_owner-first, find-release, release-mem,
}
use runtime_service.Net.Allocator.{
  FleetNetAllocator, Outside, World, delete, is_not_found, look_up_and_release, release_held,
  release,
}
use runtime_service.Net.Allocator.Quiet.{IsQuiet, find-quiet, call-quiet}

is_not_found-eq : (e : Err) → is_not_found e ≡ true → e ≡ fence net_lease_not_found
is_not_found-eq (fence net_lease_not_found) h = refl
is_not_found-eq _ h = cc

module _ (out : Outside) (quiet : IsQuiet out) (a : FleetNetAllocator) (kind : NetLeaseOwnerKind)
    (owner : ℕ) where
  -- The table is left alone and the owner holds nothing if the call succeeded, or the owner's lease
  -- on this host is deleted.
  abbrev Outcome : World → Result (Unit {0}) × World → Type 0
  Outcome w r =
      ((r.1.rows ≡ w.rows)
        × (r.0 ≡ ok tt → Table.find_by_owner kind owner w.rows ≡ err (fence net_lease_not_found)))
      ⊎ ((l : NetLease) × (Table.find_by_owner kind owner w.rows ≡ ok l)
          × (l.host_id ≡ a.self_host)
          × (r.1.rows ≡ Table.release kind owner w.rows))

  delete-quiet : (w : World) → (delete out kind owner w).1.rows ≡ Table.release kind owner w.rows
  unfolding delete
  delete-quiet w =
      ap (λ r. r.1.rows) (call-quiet out quiet (λ rows. (ok tt, Table.release kind owner rows)) w)

  release_held-Outcome :
      (w : World) (r : Result NetLease)
      → Table.find_by_owner kind owner w.rows ≡ r
      → Outcome w (release_held out a kind owner r w)
  unfolding release_held
  release_held-Outcome w (ok l) found = elim (Bool-cases (l.host_id == a.self_host)) [
    | inl here ↦ rw here (inr (l, found, (==_iff _ _).0 here, delete-quiet w))
    | inr foreign ↦ rw foreign (inl (refl, λ h. cc))
  ]
  release_held-Outcome w (err e) missed = elim (Bool-cases (is_not_found e)) [
    | inl absent ↦ rw absent (inl (refl, λ h. rw (← is_not_found-eq e absent) missed))
    | inr other ↦ rw other (inl (refl, λ h. cc))
  ]

  release-Outcome : (w : World) → Outcome w (release out a kind owner w)
  unfolding release look_up_and_release
  release-Outcome w = elim (Bool-cases (not a.wired)) [
    | inl unwired ↦ rw unwired (inl (refl, λ h. cc))
    | inr wired ↦ rw wired (elim (Bool-cases (not (kind_is_valid kind) || owner == 0)) [
      | inl nobody ↦ rw nobody (inl (refl, λ h. cc))
      | inr somebody ↦
          rw (somebody, find-quiet out quiet kind owner w)
            (release_held-Outcome (record w { calls = suc w.calls }) _ refl)
    ])
  ]

  spared :
      {rows : List NetLease} (d l : NetLease)
      → Fenced rows
      → Table.find_by_owner kind owner rows ≡ ok d
      → d.host_id ≡ a.self_host
      → Memᴰ l rows
      → (l.host_id ≢ a.self_host) ⊎ (owned_by kind owner l ≡ false)
      → owned_by kind owner l ≡ false
  spared d l f found here m (inr other) = other
  spared {rows} d l f found here m (inl foreign) = elim (Bool-cases (owned_by kind owner l)) [
    | inr other ↦ other
    | inl own ↦
        let same =
          owner_unique kind owner rows l d f m own (find_by_owner-first kind owner rows d found) in
        absurd (foreign (ap (λ r. r.host_id) same ∙ here))
  ]

  -- While nothing else touches the table and no call fails: after a Release that succeeds the owner holds
  -- no lease, whether or not it held one.
  pub release_forgets :
      (w : World)
      → (release out a kind owner w).0 ≡ ok tt
      → Table.find_by_owner kind owner (release out a kind owner w).1.rows
        ≡ err (fence net_lease_not_found)
  release_forgets w h = elim (release-Outcome w) [
    | inl (same, absent) ↦ rw same (absent h)
    | inr (d, found, here, gone) ↦ rw gone (find-release kind owner w.rows)
  ]

  -- While nothing else touches the table, whose fences hold, and no call fails: no Release, refused or
  -- not, removes a row of another host or of another owner.
  pub release_spares :
      (w : World) (l : NetLease)
      → Fenced w.rows
      → Memᴰ l w.rows
      → (l.host_id ≢ a.self_host) ⊎ (owned_by kind owner l ≡ false)
      → Memᴰ l (release out a kind owner w).1.rows
  release_spares w l f m h = elim (release-Outcome w) [
    | inl (same, absent) ↦ rw same m
    | inr (d, found, here, gone) ↦
        rw gone (release-mem kind owner w.rows l m (spared d l f found here m h))
  ]
