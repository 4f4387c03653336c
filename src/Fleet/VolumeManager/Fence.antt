-- ===== src/Fleet/VolumeManager/Fence.antt =====
-- The volume verbs act on volumes that are pinned to this host.
use runtime_service.Base.{
  ℕ, ◌≡◌, refl, subst, inl, inr, List, [], ◌∷◌, Option, none, some, All, All-trivial, Option-cases,
}
use runtime_service.Errors.{Err, Result, ok, err}
use runtime_service.Fleet.Volume.{Volume, require_owned, attached_to, detached, marked_degraded}
use runtime_service.Fleet.Volume.Affinity.{IsPinned, require_owned-All}
use runtime_service.Fleet.World.{
  Outside, World, Settings, Event, volume_updated, M, ◌>>=◌, ◌>>◌, lift, pure, ask, list_volumes,
  update_volume, each, attempt, Claim,
}
use runtime_service.Fleet.World.Keeps
use runtime_service.Fleet.World.Keeps.{
  Keeps, Logged, bind_ok, keeps_rules, Keeps-pure, Keeps-lift, Keeps-attempt, Keeps-bind,
  Keeps-bind_at, Keeps-bind_lift, Keeps-each,
}
use runtime_service.Fleet.World.Fence.{Permits}
use runtime_service.Fleet.VolumeManager

module _ (out : Outside) (cfg : Settings) {E : Event → Type 0} (p : Permits cfg.self_host E) where
  -- The volumes that the fence of the manager lets through.
  owned_volumes_sound :
      (app : ℕ) (w : World) (vs : List Volume)
      → (VolumeManager.owned_volumes out cfg app w).0 ≡ ok vs
      → All (IsPinned cfg.self_host) vs
  unfolding VolumeManager.owned_volumes
  owned_volumes_sound app w vs h =
      let (read, e, later) =
        bind_ok (list_volumes out app)
          (λ (read : List Volume). lift (require_owned cfg.self_host read) >> pure read) w vs h in
      let (done, owned, same) =
        bind_ok (lift (require_owned cfg.self_host read)) (λ _. pure read)
          (list_volumes out app w).1 vs later in
      let equal : read ≡ vs = cc in
      subst (All (IsPinned cfg.self_host)) equal (require_owned-All cfg.self_host read owned)

  owned_volumes-Logged : (app : ℕ) → Keeps (Logged E) (VolumeManager.owned_volumes out cfg app)
  unfolding VolumeManager.owned_volumes
  owned_volumes-Logged app = search (keeps_rules, Keeps.list_volumes-Logged)

  owned_volumes-bind :
      (app : ℕ) (f : List Volume → M (Unit {0}))
      → ((vs : List Volume) → All (IsPinned cfg.self_host) vs → Keeps (Logged E) (f vs))
      → Keeps (Logged E) (VolumeManager.owned_volumes out cfg app >>= f)
  owned_volumes-bind app f kf =
      Keeps-bind_at _ f (owned_volumes-Logged app)
        λ vs w h e. kf vs (owned_volumes_sound app w vs e)

  update_volumes-Logged :
      (Q : Volume → Type 0) (change : Volume → Volume) (vs : List Volume)
      → ((v : Volume) → Q v → E (volume_updated (change v)))
      → All Q vs
      → Keeps (Logged E) (VolumeManager.update_volumes out cfg change vs)
  unfolding VolumeManager.update_volumes
  update_volumes-Logged Q change vs allowed h =
      Keeps-each Q (λ v. update_volume out (change v)) vs
        (λ v q. Keeps.update_volume-Logged out (change v) (allowed v q)) h

  pub attach_to-Logged :
      (app replica : ℕ) → Keeps (Logged E) (VolumeManager.attach_to out cfg app replica)
  unfolding VolumeManager.attach_to attached_to
  attach_to-Logged app replica = owned_volumes-bind app _ λ vs pinned.
      Keeps-bind (ask out.now) _ (Keeps.ask-Logged out.now) λ now.
        update_volumes-Logged (IsPinned cfg.self_host) (attached_to replica now) vs
          (λ v h. p.change _ (inl h)) pinned

  pub detach_from-Logged : (app : ℕ) → Keeps (Logged E) (VolumeManager.detach_from out cfg app)
  unfolding VolumeManager.detach_from detached
  detach_from-Logged app = owned_volumes-bind app _ λ vs pinned.
      Keeps-bind (ask out.now) _ (Keeps.ask-Logged out.now) λ now.
        update_volumes-Logged (IsPinned cfg.self_host) (detached now) vs (λ v h. p.change _ (inl h))
          pinned

  pub mark_degraded-Logged : (app : ℕ) → Keeps (Logged E) (VolumeManager.mark_degraded out cfg app)
  unfolding VolumeManager.mark_degraded marked_degraded
  mark_degraded-Logged app =
      Keeps-bind (list_volumes out app) _ (Keeps.list_volumes-Logged out app) λ vs.
        Keeps-bind (ask out.now) _ (Keeps.ask-Logged out.now) λ now.
          update_volumes-Logged (λ v. Unit) (marked_degraded now) vs (λ v h. p.change _ (inr refl))
            (All-trivial vs)

  pub affinity_host-Logged : (app : ℕ) → Keeps (Logged E) (VolumeManager.affinity_host out cfg app)
  unfolding VolumeManager.affinity_host
  affinity_host-Logged app = search (keeps_rules, Keeps.list_volumes-Logged)

  pub primary_volume-Logged :
      (app : ℕ) → Keeps (Logged E) (VolumeManager.primary_volume out cfg app)
  unfolding VolumeManager.primary_volume
  primary_volume-Logged app = search (keeps_rules, Keeps.list_volumes-Logged)

  pub has_volumes-Logged : (app : ℕ) → Keeps (Logged E) (VolumeManager.has_volumes out cfg app)
  unfolding VolumeManager.has_volumes
  has_volumes-Logged app = search (keeps_rules, Keeps.list_volumes-Logged)

  retired-Logged : (read : Result Claim) → Keeps (Logged E) (VolumeManager.retired out cfg read)
  unfolding VolumeManager.retired
  retired-Logged (err e) = search keeps_rules
  retired-Logged (ok claim) = elim (Option-cases claim.decommissioned_at) [
    | inl e ↦ record { at = λ w h. rw (e, VolumeManager.retired) h }
    | inr (t, e) ↦ record { at = λ w h. rw (e, VolumeManager.retired) h }
  ]

  prove_retired-Logged : (r : Option ℕ) → Keeps (Logged E) (VolumeManager.prove_retired out cfg r)
  unfolding VolumeManager.prove_retired
  prove_retired-Logged none = Keeps-pure tt
  prove_retired-Logged (some resource) = search (keeps_rules, Keeps.query-Logged, retired-Logged)

  reclaim_volume-Logged :
      (v : Volume)
      → IsPinned cfg.self_host v
      → Keeps (Logged E) (VolumeManager.reclaim_volume out cfg v)
  unfolding VolumeManager.reclaim_volume VolumeManager.unlink_file
  reclaim_volume-Logged v h =
      search
        (
          keeps_rules, Keeps.note-Logged, Keeps.query-Logged, Keeps.delete_volume-Logged, p.drop,
          p.unlink,
        )
        depth 8

  reclaim_volumes-Logged :
      (failed : Option Err) (vs : List Volume)
      → All (IsPinned cfg.self_host) vs
      → Keeps (Logged E) (VolumeManager.reclaim_volumes out cfg failed vs)
  unfolding VolumeManager.reclaim_volumes
  reclaim_volumes-Logged failed [] h = Keeps-lift _
  reclaim_volumes-Logged failed (v ∷ vs) h =
      Keeps-bind (attempt (VolumeManager.reclaim_volume out cfg v)) _
        (Keeps-attempt _ (reclaim_volume-Logged v h.0))
        λ result. reclaim_volumes-Logged (VolumeManager.first_error failed result) vs h.1

  pub delete_app_volumes-Logged :
      (app : ℕ) → Keeps (Logged E) (VolumeManager.delete_app_volumes out cfg app)
  unfolding VolumeManager.delete_app_volumes
  delete_app_volumes-Logged app = owned_volumes-bind app _ λ vs pinned.
      Keeps-bind (each (λ v. VolumeManager.prove_retired out cfg v.resource_id) vs) _
        (Keeps-each (λ v. Unit) (λ v. VolumeManager.prove_retired out cfg v.resource_id) vs
          (λ v h. prove_retired-Logged v.resource_id) (All-trivial vs))
        λ done. reclaim_volumes-Logged none vs pinned
