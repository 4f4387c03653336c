-- ===== src/Fleet/Teardown/Fence.antt =====
-- The teardown and the probe act on replicas that are placed on this host.
use runtime_service.Base.{
  ℕ, ◌≡◌, refl, inl, inr, Bool, true, false, ℤ, Option, none, some, Bool-cases,
}
use runtime_service.Errors.{Result, ok, err}
use runtime_service.Fleet.Replica.{Replica}
use runtime_service.Fleet.Volume.{points_to}
use runtime_service.Fleet.Volume.Affinity.{points_to_iff}
use runtime_service.Fleet.World.{Outside, Settings, Event}
use runtime_service.Fleet.World.Keeps
use runtime_service.Fleet.World.Keeps.{
  Keeps, Logged, bind_ok, keeps_rules, Keeps-pure, Keeps-lift, Keeps-attempt, Keeps-bind,
  Keeps-bind_at, Keeps-bind_lift, Keeps-each,
}
use runtime_service.Fleet.World.Fence.{Permits, Tears}
use runtime_service.Fleet.VolumeManager.Fence.{detach_from-Logged}
use runtime_service.Fleet.Teardown

module _ (out : Outside) (cfg : Settings) where
  -- The check at the head of every verb.
  pub require_owned_sound :
      (r : Replica) (done : Unit {0})
      → Teardown.require_owned_replica out cfg r ≡ ok done
      → r.host_id ≡ some cfg.self_host
  unfolding Teardown.require_owned_replica
  require_owned_sound r done h = elim (Bool-cases (points_to cfg.self_host r.host_id)) [
    | inl e ↦ (points_to_iff cfg.self_host r.host_id).0 e
    | inr e ↦ let failed = (rw e at h) in cc
  ]

module _ (out : Outside) (cfg : Settings) {E : Event → Type 0} (p : Permits cfg.self_host E) where
  pub reclaim-Logged : (id : ℕ) → Keeps (Logged E) (Teardown.reclaim_staging_dir out cfg id)
  unfolding Teardown.reclaim_staging_dir
  reclaim-Logged id = search (keeps_rules, Keeps.note-Logged, p.reclaim)

  pub detach_volumes-Logged : (app : ℕ) → Keeps (Logged E) (Teardown.detach_volumes out cfg app)
  unfolding Teardown.detach_volumes
  detach_volumes-Logged app = search (keeps_rules, detach_from-Logged out cfg p)

  process_alive-Logged : (pid : Option ℤ) → Keeps (Logged E) (Teardown.process_alive out cfg pid)
  unfolding Teardown.process_alive
  process_alive-Logged none = Keeps-pure false
  process_alive-Logged (some pid) = search (Keeps.ask-Logged)

  probe-Logged :
      (r : Replica) → r.host_id ≡ some cfg.self_host → Keeps (Logged E) (Teardown.probe out cfg r)
  unfolding Teardown.probe Teardown.guest_alive
  probe-Logged r h =
      search (keeps_rules, Keeps.note-Logged, p.probe, Keeps.ask-Logged, process_alive-Logged)

  judged-Logged :
      (r : Replica) (alive : Bool)
      → r.host_id ≡ some cfg.self_host
      → Keeps (Logged E) (Teardown.judged out cfg r alive)
  unfolding Teardown.judged
  judged-Logged r true h = Keeps-pure _
  judged-Logged r false h =
      search (keeps_rules, Keeps.ask-Logged, Keeps.update_replica-Logged, p.update)

  refresh_owned-Logged :
      (r : Replica) (owned : Result (Unit {0}))
      → Teardown.require_owned_replica out cfg r ≡ owned
      → Keeps (Logged E) (Teardown.refresh_owned out cfg r owned)
  unfolding Teardown.refresh_owned
  refresh_owned-Logged r (err e) h = Keeps-pure _
  refresh_owned-Logged r (ok done) h =
      let here = require_owned_sound out cfg r done h in
      search (keeps_rules, probe-Logged, judged-Logged)

  pub refresh_health-Logged : (r : Replica) → Keeps (Logged E) (Teardown.refresh_health out cfg r)
  unfolding Teardown.refresh_health
  refresh_health-Logged r = refresh_owned-Logged r _ refl

module _ (out : Outside) (cfg : Settings) {E : Event → Type 0} (p : Permits cfg.self_host E)
    (t : Tears cfg.self_host E) where
  record_teardown-Logged :
      (r : Replica) (result : Result (Unit {0}))
      → r.host_id ≡ some cfg.self_host
      → Keeps (Logged E) (Teardown.record_teardown out cfg r result)
  unfolding Teardown.record_teardown
  record_teardown-Logged r (ok _) h = Keeps.note-Logged _ (t r true h)
  record_teardown-Logged r (err e) h = search (keeps_rules, Keeps.note-Logged, t)

  pub tear_down-Logged :
      (r : Replica)
      → r.host_id ≡ some cfg.self_host
      → Keeps (Logged E) (Teardown.tear_down out cfg r)
  unfolding Teardown.tear_down
  tear_down-Logged r h = search (keeps_rules, Keeps.query-Logged, record_teardown-Logged)

  tear_down_if_started-Logged :
      (r : Replica)
      → r.host_id ≡ some cfg.self_host
      → Keeps (Logged E) (Teardown.tear_down_if_started out cfg r)
  unfolding Teardown.tear_down_if_started
  tear_down_if_started-Logged r h = search (keeps_rules, tear_down-Logged)

  decommission_here-Logged :
      (r : Replica)
      → r.host_id ≡ some cfg.self_host
      → Keeps (Logged E) (Teardown.decommission_here out cfg r)
  unfolding Teardown.decommission_here
  decommission_here-Logged r h =
      search
        (
          keeps_rules,
          tear_down_if_started-Logged,
          detach_volumes-Logged out cfg p,
          reclaim-Logged out cfg p,
          Keeps.delete_replica-Logged,
          p.delete,
        )
        depth 10 fits 3000

  decommission_owned-Logged :
      (r : Replica) → Keeps (Logged E) (Teardown.decommission_owned out cfg r)
  unfolding Teardown.decommission_owned
  decommission_owned-Logged r =
      Keeps-bind_lift (Teardown.require_owned_replica out cfg r)
        (λ _. Teardown.decommission_here out cfg r)
        λ done owned. decommission_here-Logged r (require_owned_sound out cfg r done owned)

  decommission_found-Logged :
      (found : Result Replica) → Keeps (Logged E) (Teardown.decommission_found out cfg found)
  unfolding Teardown.decommission_found
  decommission_found-Logged (ok r) = decommission_owned-Logged r
  decommission_found-Logged (err e) = search keeps_rules

  pub decommission-Logged : (id : ℕ) → Keeps (Logged E) (Teardown.decommission_replica out cfg id)
  unfolding Teardown.decommission_replica
  decommission-Logged id =
      search (keeps_rules, Keeps.find_replica-Logged, decommission_found-Logged)
