-- ===== src/Net/Allocator/Calls.antt =====
-- What a database call of the allocator does to the table, among changes of other processes and faults.
use runtime_service.Base.{ℕ, ◌≡◌, inl, inr, List, Memᴰ, Bool-cases}
use runtime_service.Errors.{Result, ok}
use runtime_service.Net.Lease.{NetLease, NetLeaseOwnerKind}
use runtime_service.Net.Table.Fences.{
  Fenced, acquire-Fenced, apply_all-Fenced, find_by_owner_sound, acquire-mem, release-Fenced,
}
use runtime_service.Net.Allocator.{Outside, World, call, find_by_owner, used_slots, insert, delete}

module _ (out : Outside) where
  pub call-Fenced :
      {A : Type 0} (op : List NetLease → Result A × List NetLease) (w : World)
      → ((rows : List NetLease) → Fenced rows → Fenced (op rows).1)
      → Fenced w.rows
      → Fenced (call out op w).1.rows
  unfolding call
  call-Fenced op w keep f =
      let settled = apply_all-Fenced (out.changes w.calls) w.rows f in
      elim (Bool-cases (out.fails w.calls)) [ inl e ↦ rw e settled | inr e ↦ rw e (keep _ settled) ]

  pub find-Fenced :
      (kind : NetLeaseOwnerKind) (owner : ℕ) (w : World)
      → Fenced w.rows
      → Fenced (find_by_owner out kind owner w).1.rows
  unfolding find_by_owner
  find-Fenced kind owner w f = call-Fenced _ w (λ rows h. h) f

  pub used_slots-Fenced :
      (host : ℕ) (w : World) → Fenced w.rows → Fenced (used_slots out host w).1.rows
  unfolding used_slots
  used_slots-Fenced host w f = call-Fenced _ w (λ rows h. h) f

  pub insert-Fenced : (l : NetLease) (w : World) → Fenced w.rows → Fenced (insert out l w).1.rows
  unfolding insert
  insert-Fenced l w f = call-Fenced _ w (acquire-Fenced l) f

  pub delete-Fenced :
      (kind : NetLeaseOwnerKind) (owner : ℕ) (w : World)
      → Fenced w.rows
      → Fenced (delete out kind owner w).1.rows
  unfolding delete
  delete-Fenced kind owner w f = call-Fenced _ w (release-Fenced kind owner) f

  pub insert-mem :
      (l : NetLease) (w : World) → (insert out l w).0 ≡ ok tt → Memᴰ l (insert out l w).1.rows
  unfolding insert call
  insert-mem l w h = elim (Bool-cases (out.fails w.calls)) [
    | inl e ↦ let failed = (rw (e, insert, call) at h) in cc
    | inr e ↦ rw e (acquire-mem l _ (rw e at h))
  ]

  pub find_sound :
      (kind : NetLeaseOwnerKind) (owner : ℕ) (w : World) (l : NetLease)
      → (find_by_owner out kind owner w).0 ≡ ok l
      → Memᴰ l (find_by_owner out kind owner w).1.rows
        × (l.owner_kind ≡ kind)
        × (l.owner_id ≡ owner)
  unfolding find_by_owner call
  find_sound kind owner w l h = elim (Bool-cases (out.fails w.calls)) [
    | inl e ↦ let failed = (rw e at h) in cc
    | inr e ↦ rw e (find_by_owner_sound kind owner _ l (rw e at h))
  ]
