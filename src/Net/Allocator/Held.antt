-- ===== src/Net/Allocator/Held.antt =====
-- Acquire and Release of internal/usecase/fleet_net_allocator.go among other processes and faults.
use runtime_service.Base.{
  ℕ, zero, suc, ◌≡◌, refl, inl, inr, ◌⊎◌, ◌==◌, ==_iff, List, [], ◌∷◌, ◌++◌, Memᴰ, ℤ, pos,
  Bool-cases,
}
use runtime_service.Errors.{Err, Result, ok, err, Result-cases}
use runtime_service.Net.Lease.{NetLease, NetLeaseOwnerKind}
use runtime_service.Net.Table.Fences.{Fenced}
use runtime_service.Net.Table.Distinct.{
  Differ, Distinct, Fenced-Distinct, Distinct-Fenced, pair_Differ,
}
use runtime_service.Net.Allocator.{
  FleetNetAllocator, Outside, World, M, find_by_owner, used_slots, insert, preconditions,
  lease_of_slot, is_conflict, is_not_found, stamp, reuse_held, after_insert, try_insert, claim,
  ◌>>=◌, attempts, adopt_or_allocate, look_up, acquire, lift, lowest_free,
}
use runtime_service.Net.Allocator.Calls.{
  find-Fenced, used_slots-Fenced, insert-Fenced, insert-mem, find_sound,
}

module _ (out : Outside) (a : FleetNetAllocator) (kind : NetLeaseOwnerKind) (owner : ℕ) where
  -- The row belongs to the owner, on the allocator's host.
  abbrev pub IsOwn : NetLease → Type 0
  IsOwn l = (l.owner_kind ≡ kind) × (l.owner_id ≡ owner) × (l.host_id ≡ a.self_host)

  -- The fences hold, and a lease that is returned is a row of the owner.
  abbrev pub IsGood : Result NetLease × World → Type 0
  IsGood r = Fenced r.1.rows × ((l : NetLease) → r.0 ≡ ok l → Memᴰ l r.1.rows × IsOwn l)

  refusal-IsGood : (e : Err) (w : World) → Fenced w.rows → IsGood (err e, w)
  refusal-IsGood e w f = (f, λ l h. cc)

  own-IsGood :
      (l : NetLease) (w : World) → Fenced w.rows → Memᴰ l w.rows → IsOwn l → IsGood (ok l, w)
  own-IsGood l w f m o = (f, λ k h. let same : l ≡ k = cc in rw (← same) (m, o))

  bind-IsGood :
      {A : Type 0} (m : M A) (f : A → M NetLease) (w : World)
      → Fenced (m w).1.rows
      → ((x : A) → (m w).0 ≡ ok x → IsGood (f x (m w).1))
      → IsGood ((m >>= f) w)
  bind-IsGood {A} m f w fenced next = elim (Result-cases (m w).0) [
    | inl (x, e) ↦ rw (e, ◌>>=◌) (next x e)
    | inr (e, bad) ↦ rw (bad, ◌>>=◌) (refusal-IsGood e (m w).1 fenced)
  ]

  reuse_held-IsGood :
      (retry : M NetLease) (r : Result NetLease) (w : World)
      → ((v : World) → Fenced v.rows → IsGood (retry v))
      → ((h : NetLease) → r ≡ ok h → Memᴰ h w.rows × (h.owner_kind ≡ kind) × (h.owner_id ≡ owner))
      → Fenced w.rows
      → IsGood (reuse_held out a kind owner retry r w)
  unfolding reuse_held
  reuse_held-IsGood retry (err e) w again found f = again w f
  reuse_held-IsGood retry (ok h) w again found f = elim (Bool-cases (h.host_id == a.self_host)) [
    | inr foreign ↦ rw foreign (again w f)
    | inl here ↦
        let (m, k, o) = found h refl in rw here (own-IsGood h w f m (k, o, (==_iff _ _).0 here))
  ]

  after_insert-IsGood :
      (l : NetLease) (retry : M NetLease) (r : Result (Unit {0})) (w : World)
      → ((v : World) → Fenced v.rows → IsGood (retry v))
      → (r ≡ ok tt → Memᴰ l w.rows)
      → IsOwn l
      → Fenced w.rows
      → IsGood (after_insert out a kind owner l retry r w)
  unfolding after_insert
  after_insert-IsGood l retry (ok _) w again held own f = own-IsGood l w f (held refl) own
  after_insert-IsGood l retry (err e) w again held own f = elim (Bool-cases (is_conflict e)) [
    | inr other ↦ rw other (refusal-IsGood e w f)
    | inl conflict ↦ rw conflict (
        reuse_held-IsGood retry _ _ again (find_sound out kind owner w)
          (find-Fenced out kind owner w f))
  ]

  try_insert-IsGood :
      (retry : M NetLease) (l : NetLease) (w : World)
      → ((v : World) → Fenced v.rows → IsGood (retry v))
      → Fenced w.rows
      → IsGood (try_insert out a kind owner retry l w)
  unfolding try_insert stamp
  try_insert-IsGood retry l w again f =
      let row : NetLease = stamp a kind owner (out.new_id w.calls) (out.now w.calls) l in
      let v : World = (insert out row w).1 in
      after_insert-IsGood row retry (insert out row w).0 v again (insert-mem out row w)
        (refl, refl, refl) (insert-Fenced out row w f)

  claim-IsGood :
      (retry : M NetLease) (slot : ℕ) (w : World)
      → ((v : World) → Fenced v.rows → IsGood (retry v))
      → Fenced w.rows
      → IsGood (claim out a kind owner retry slot w)
  unfolding claim
  claim-IsGood retry slot w again f = elim (Bool-cases (slot == 0)) [
    | inl z ↦ rw z (refusal-IsGood _ w f)
    | inr some_slot ↦ rw some_slot (
        bind-IsGood (lift (lease_of_slot a slot)) (try_insert out a kind owner retry) w f
          λ l good. try_insert-IsGood retry l w again f)
  ]

  attempts-IsGood :
      (n : ℕ) (tried : List ℤ) (w : World)
      → Fenced w.rows
      → IsGood (attempts out a kind owner n tried w)
  unfolding attempts
  attempts-IsGood zero tried w f = refusal-IsGood _ w f
  attempts-IsGood (suc n) tried w f =
      let v : World = (used_slots out a.self_host w).1 in
      let fv : Fenced v.rows = used_slots-Fenced out a.self_host w f in
      let slot : List ℤ → ℕ = λ used. lowest_free 1023 1 (used ++ tried) in
      let retry : List ℤ → M NetLease =
        λ used. λ u. attempts out a kind owner n (pos (slot used) ∷ tried) u in
      let k : List ℤ → M NetLease = λ used. claim out a kind owner (retry used) (slot used) in
      bind-IsGood (used_slots out a.self_host) k w fv λ used good.
        claim-IsGood (retry used) (slot used) v
          (λ u fu. attempts-IsGood n (pos (slot used) ∷ tried) u fu) fv

  adopt-IsGood :
      (r : Result NetLease) (w : World)
      → ((h : NetLease) → r ≡ ok h → Memᴰ h w.rows × (h.owner_kind ≡ kind) × (h.owner_id ≡ owner))
      → Fenced w.rows
      → IsGood (adopt_or_allocate out a kind owner r w)
  unfolding adopt_or_allocate
  adopt-IsGood (ok h) w found f = elim (Bool-cases (h.host_id == a.self_host)) [
    | inr foreign ↦ rw foreign (refusal-IsGood _ w f)
    | inl here ↦
        let (m, k, o) = found h refl in rw here (own-IsGood h w f m (k, o, (==_iff _ _).0 here))
  ]
  adopt-IsGood (err e) w found f = elim (Bool-cases (is_not_found e)) [
    | inl absent ↦ rw absent (attempts-IsGood 32 [] w f)
    | inr other ↦ rw other (refusal-IsGood e w f)
  ]

  acquire-IsGood : (w : World) → Fenced w.rows → IsGood (acquire out a kind owner w)
  unfolding acquire look_up
  acquire-IsGood w f =
      bind-IsGood (lift (preconditions a kind owner)) (λ u. look_up out a kind owner) w f
        λ u good.
          adopt-IsGood (find_by_owner out kind owner w).0 (find_by_owner out kind owner w).1
            (find_sound out kind owner w) (find-Fenced out kind owner w f)

  pub acquire_stays-Fenced :
      (w : World) → Fenced w.rows → Fenced (acquire out a kind owner w).1.rows
  acquire_stays-Fenced w f = (acquire-IsGood w f).0

  -- From a table in which no two rows share a net index or an owner, and no two rows of one host a slot, a
  -- uid or a device name: whatever other processes change and whichever calls fail, the table is such a one
  -- after Acquire, whether or not it succeeds, and every row of it other than the lease that Acquire returns
  -- differs from the lease in each of these.
  pub acquire_keeps-Distinct :
      (w : World)
      → Distinct w.rows
      → let (r, w') = acquire out a kind owner w in
        Distinct w'.rows × ((l m : NetLease) → r ≡ ok l → Memᴰ m w'.rows → (m ≡ l) ⊎ Differ l m)
  acquire_keeps-Distinct w d =
      let (fenced, good) = acquire-IsGood w (Distinct-Fenced w.rows d) in
      let apart = Fenced-Distinct _ fenced in
      (apart, λ l m h held. pair_Differ l m _ apart (good l h).0 held)

  -- From a table whose fences hold, whatever other processes change and whichever calls fail, a lease
  -- that Acquire returns is a row of the table then, with the owner asked for and the allocator's host.
  pub acquire-IsOwn :
      (w : World) (l : NetLease)
      → Fenced w.rows
      → (acquire out a kind owner w).0 ≡ ok l
      → Memᴰ l (acquire out a kind owner w).1.rows × IsOwn l
  acquire-IsOwn w l f h = (acquire-IsGood w f).1 l h
