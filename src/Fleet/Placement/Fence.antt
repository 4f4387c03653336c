-- ===== src/Fleet/Placement/Fence.antt =====
-- A placement only adds replicas that are scheduled.
use runtime_service.Base.{ℕ, zero, suc, ◌≡◌, refl, Bool, true, false, Option, none, some}
use runtime_service.Errors.{Err, Result, ok, err}
use runtime_service.Fleet.Replica.{FleetApp}
use runtime_service.Fleet.Volume.{Volume}
use runtime_service.Fleet.World.{Outside, Settings, Event, M, lift}
use runtime_service.Fleet.World.Keeps
use runtime_service.Fleet.World.Keeps.{
  Keeps, Logged, bind_ok, keeps_rules, Keeps-pure, Keeps-lift, Keeps-attempt, Keeps-bind,
  Keeps-bind_at, Keeps-bind_lift, Keeps-each,
}
use runtime_service.Fleet.World.Fence.{Permits, Adds}
use runtime_service.Fleet.VolumeManager.Fence.{affinity_host-Logged, primary_volume-Logged}
use runtime_service.Fleet.Placement
use runtime_service.Fleet.Placement.{Placed}

module _ (out : Outside) (cfg : Settings) {E : Event → Type 0} (p : Permits cfg.self_host E) where
  judge_file-Logged :
      (read : Result (Option Volume)) → Keeps (Logged E) (Placement.judge_file out cfg read)
  unfolding Placement.judge_file
  judge_file-Logged (err e) = Keeps-pure true
  judge_file-Logged (ok none) = Keeps-pure true
  judge_file-Logged (ok (some v)) = search (keeps_rules, Keeps.ask-Logged)

  pub gate-Logged : (app : ℕ) → Keeps (Logged E) (Placement.placeable_on_backing_file out cfg app)
  unfolding Placement.placeable_on_backing_file
  gate-Logged app = search (keeps_rules, judge_file-Logged, primary_volume-Logged out cfg p)

  pub pinned_host-Logged : (app : ℕ) → Keeps (Logged E) (Placement.pinned_host out cfg app)
  unfolding Placement.pinned_host
  pinned_host-Logged app = search (keeps_rules, affinity_host-Logged out cfg p)

module _ (out : Outside) (cfg : Settings) {E : Event → Type 0} (p : Permits cfg.self_host E)
    (a : Adds E) where
  place_on-Logged :
      (app : FleetApp) (pinned : Option ℕ) (host : ℕ)
      → Keeps (Logged E) (Placement.place_on out cfg app pinned host)
  unfolding Placement.place_on Placement.new_replica
  place_on-Logged app pinned host =
      search (keeps_rules, Keeps.ask-Logged, Keeps.create_replica-Logged, a) depth 8

  place_next-Logged :
      (rest : M Placed) (app : FleetApp) (pinned : Option ℕ) (selected : Result ℕ)
      → Keeps (Logged E) rest
      → Keeps (Logged E) (Placement.place_next out cfg rest app pinned selected)
  unfolding Placement.place_next
  place_next-Logged rest app pinned (err e) k = search keeps_rules
  place_next-Logged rest app pinned (ok host) k = search (keeps_rules, place_on-Logged)

  place-Logged :
      (app : FleetApp) (pinned : Option ℕ) (n : ℕ)
      → Keeps (Logged E) (Placement.place out cfg app pinned n)
  unfolding Placement.place
  place-Logged app pinned zero = Keeps-pure _
  place-Logged app pinned (suc n) =
      let rest = place-Logged app pinned n in
      search (keeps_rules, Keeps.query-Logged, place_next-Logged)

  place_gated-Logged :
      (app : FleetApp) (n : ℕ) (gate : Bool)
      → Keeps (Logged E) (Placement.place_gated out cfg app n gate)
  unfolding Placement.place_gated
  place_gated-Logged app n false = Keeps-pure _
  place_gated-Logged app n true = search (keeps_rules, pinned_host-Logged out cfg p, place-Logged)

  pub fill-Logged :
      (app : FleetApp) (n : ℕ) (failed : Option Err)
      → Keeps (Logged E) (Placement.fill out cfg app n failed)
  unfolding Placement.fill
  fill-Logged app n (some e) = Keeps-lift _
  fill-Logged app n none = search (keeps_rules, gate-Logged out cfg p, place_gated-Logged)

module _ (out : Outside) (cfg : Settings) where
  -- A shortfall is not filled after a failed teardown.
  pub fill_refused :
      (app : FleetApp) (n : ℕ) (e : Err) → Placement.fill out cfg app n (some e) ≡ lift (err e)
  unfolding Placement.fill
  fill_refused app n e = refl
