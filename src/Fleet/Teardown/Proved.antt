-- ===== src/Fleet/Teardown/Proved.antt =====
-- A teardown that succeeds was proved by the driver, or there was nothing to tear down.
use runtime_service.Base.{ℕ, ◌≡◌, refl, true}
use runtime_service.Errors.{Result, ok, err}
use runtime_service.Fleet.Replica.{Replica}
use runtime_service.Fleet.World.{
  Outside, World, Settings, Event, ◌>>◌, lift, attempt, query, find_replica,
}
use runtime_service.Fleet.World.Keeps
use runtime_service.Fleet.World.Keeps.{
  Keeps, Logged, keeps_rules, Keeps-attempt, Keeps-lift, Keeps-pure,
}
use runtime_service.Fleet.World.Fence.{Permits, Only, Only-Permits}
use runtime_service.Fleet.World.Succeeds.{Succeeds, Succeeds-Keeps, Succeeds-if, Succeeds-bind}
use runtime_service.Fleet.Teardown
use runtime_service.Fleet.Teardown.Fence.{detach_volumes-Logged, reclaim-Logged}

-- No teardown that the driver could not prove.
abbrev pub IsProved : Event → Type 0
IsProved = Only (λ app r vol input. Unit) (λ r proved. proved ≡ true) (λ r. Unit)

pub IsProved-Permits : (self : ℕ) → Permits self IsProved
IsProved-Permits self = Only-Permits self _ _ _

abbrev pub Proved : World → Type 0
Proved = Logged IsProved

module _ (out : Outside) (cfg : Settings) where
  record_teardown-Succeeds :
      (r : Replica) (result : Result (Unit {0}))
      → Succeeds Proved (Teardown.record_teardown out cfg r result)
  unfolding Teardown.record_teardown
  record_teardown-Succeeds r (ok _) = Succeeds-Keeps _ (Keeps.note-Logged _ refl)
  record_teardown-Succeeds r (err e) = record { at = λ w a h k. cc }

  tear_down-Succeeds : (r : Replica) → Succeeds Proved (Teardown.tear_down out cfg r)
  unfolding Teardown.tear_down
  tear_down-Succeeds r =
      Succeeds-bind (attempt (query (λ n. out.tear_down n r))) (Teardown.record_teardown out cfg r)
        (Succeeds-Keeps _ (Keeps-attempt _ (Keeps.query-Logged _))) (record_teardown-Succeeds r)

  tear_down_if_started-Succeeds :
      (r : Replica) → Succeeds Proved (Teardown.tear_down_if_started out cfg r)
  unfolding Teardown.tear_down_if_started
  tear_down_if_started-Succeeds r =
      Succeeds-if _ _ _ (tear_down-Succeeds r) (Succeeds-Keeps _ (Keeps-pure tt))

  after_teardown :
      (r : Replica)
      → Keeps Proved (
          Teardown.detach_volumes out cfg r.app_id
          >> (Teardown.reclaim_staging_dir out cfg r.id >> Teardown.delete_replica out r))
  after_teardown r =
      let p = IsProved-Permits cfg.self_host in
      search (
        keeps_rules,
        detach_volumes-Logged out cfg p,
        reclaim-Logged out cfg p,
        Keeps.delete_replica-Logged,
      )

  decommission_here-Succeeds :
      (r : Replica) → Succeeds Proved (Teardown.decommission_here out cfg r)
  unfolding Teardown.decommission_here
  decommission_here-Succeeds r =
      Succeeds-bind (Teardown.tear_down_if_started out cfg r) _ (tear_down_if_started-Succeeds r)
        λ done. Succeeds-Keeps _ (after_teardown r)

  decommission_found-Succeeds :
      (found : Result Replica) → Succeeds Proved (Teardown.decommission_found out cfg found)
  unfolding Teardown.decommission_found Teardown.decommission_owned
  decommission_found-Succeeds (ok r) =
      Succeeds-bind (lift (Teardown.require_owned_replica out cfg r))
        (λ _. Teardown.decommission_here out cfg r) (Succeeds-Keeps _ (Keeps-lift _))
        λ done. decommission_here-Succeeds r
  decommission_found-Succeeds (err e) = Succeeds-Keeps _ (search keeps_rules)

  pub decommission-Succeeds : (id : ℕ) → Succeeds Proved (Teardown.decommission_replica out cfg id)
  unfolding Teardown.decommission_replica
  decommission-Succeeds id =
      Succeeds-bind (attempt (find_replica out id)) (Teardown.decommission_found out cfg)
        (Succeeds-Keeps _ (Keeps-attempt _ (Keeps.find_replica-Logged out id)))
        decommission_found-Succeeds
