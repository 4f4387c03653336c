-- ===== src/Fleet/Idle.antt =====
-- internal/usecase/fleet_orchestrator.go: SweepIdle, which scales the apps without traffic to zero. The feed of
-- the access log answers at a number of calls, as the rest of what surrounds the process does.
pub mod Doubt
use runtime_service.Base.{
  ℕ, ◌*◌, Bool, true, false, not, ◌&&◌, ◌||◌, if◌then◌else◌, ℤ, pos, negsuc, pos_part, ◌-ℤ◌, wrap,
  saturated, ltb_ℤ, leb_ℤ, List, [], ◌∷◌, ◌++◌, Option, none, some, Text, some_of,
}
use runtime_service.Errors.{Result, ok, err}
use runtime_service.Fleet.Replica.{FleetApp, Replica}
use runtime_service.Fleet.World.{
  Outside, World, Settings, M, ◌>>=◌, ◌>>◌, lift, pure, attempt, ask, query, each, list_apps,
  update_app, list_replicas,
}
use runtime_service.Fleet.Teardown.{is_resident}
use runtime_service.Fleet.VolumeManager.{is_empty}
use runtime_service.Fleet.Orchestrator.{scale_app}

-- What appHosts reads of a route.
pub record Route : Type 0 where
  pub host_pattern : Text
  pub custom_domain : Text

-- The feed and the route repository, each `none` when it is not wired, and hostForApp.
pub record Feed : Type 0 where
  pub warm : ℕ → Bool
  pub last_activity : ℕ → Text → Option ℤ

pub record Edge : Type 0 where
  pub activity_feed : Option Feed
  pub routes : Option (ℕ → ℕ → Result (List Route))
  pub host_for_app : FleetApp → Text

abbrev filled : Text → List Text → List Text
filled t rest = if is_empty t then rest else t ∷ rest

unfoldable pub hosts_of : List Route → List Text
hosts_of [] = []
hosts_of (r ∷ rs) = filled r.host_pattern (filled r.custom_domain (hosts_of rs))

-- time.Time{}, the first of January of the year 1.
abbrev zero_time : ℤ
zero_time = negsuc 62135596799999999999

abbrev later : ℤ → ℤ → ℤ
later t latest = if ltb_ℤ latest t then t else latest

abbrev seen_later : Option ℤ → Option ℤ → Option ℤ
seen_later none latest = latest
seen_later (some t) none = some (later t zero_time)
seen_later (some t) (some latest) = some (later t latest)

abbrev seen_after : ℤ → Option ℤ → Bool
seen_after active none = false
seen_after active (some latest) = ltb_ℤ active latest

-- The app has been idle for longer than it asks for.
unfoldable pub is_idle : ℤ → FleetApp → Bool
is_idle now app =
    if not app.scale_to_zero || leb_ℤ app.idle_ttl_seconds (pos 0)
    then false
    else not (
        leb_ℤ (saturated (now -ℤ app.last_active_at))
          (wrap (pos (pos_part app.idle_ttl_seconds * 1000000000))))

module _ (out : Outside) (cfg : Settings) (edge : Edge) where
  unfoldable pub app_hosts : FleetApp → M (List Text)
  app_hosts app = elim edge.routes [
    | none ↦ pure (edge.host_for_app app ∷ [])
    | some listed ↦ (do rs ← query (λ n. listed n app.id); pure (hosts_of rs))
  ]

  unfoldable pub latest_activity : Feed → Option ℤ → List Text → M (Option ℤ)
  latest_activity feed latest [] = pure latest
  latest_activity feed latest (h ∷ hs) = do
    t ← ask (λ n. feed.last_activity n h)
    latest_activity feed (seen_later t latest) hs

  -- A failure is only logged.
  unfoldable pub stamp_swept : FleetApp → M (Unit {0})
  stamp_swept app = do
    now ← ask out.now
    attempt (update_app out (record app { last_active_at = now; updated_at = now }))
    pure tt

  unfoldable pub stamp_if : FleetApp → Bool → M Bool
  stamp_if app true = do stamp_swept app; pure true
  stamp_if app false = pure false

  unfoldable pub judge_hosts : Feed → FleetApp → Result (List Text) → M Bool
  judge_hosts feed app (err e) = pure true
  judge_hosts feed app (ok hosts) = do
    latest ← latest_activity feed none hosts
    stamp_if app (seen_after app.last_active_at latest)

  unfoldable pub judge_warmth : Feed → FleetApp → Bool → M Bool
  judge_warmth feed app false = pure true
  judge_warmth feed app true = do hosts ← attempt (app_hosts app); judge_hosts feed app hosts

  unfoldable pub sweep_blocked_by_activity : FleetApp → M Bool
  sweep_blocked_by_activity app = elim edge.activity_feed [
    | none ↦ pure false
    | some feed ↦ (do warm ← ask feed.warm; judge_warmth feed app warm)
  ]

  unfoldable pub scale_unless : FleetApp → Bool → M (Unit {0})
  scale_unless app true = pure tt
  scale_unless app false = do attempt (scale_app out cfg app.id (pos 0)); pure tt

  unfoldable pub sweep_listed : FleetApp → Result (List Replica) → M (Unit {0})
  sweep_listed app (err e) = pure tt
  sweep_listed app (ok rs) =
      if not (some_of (λ r. is_resident r.state) rs)
      then pure tt
      else (do blocked ← sweep_blocked_by_activity app; scale_unless app blocked)

  unfoldable pub sweep_one : ℤ → FleetApp → M (Unit {0})
  sweep_one now app =
      if is_idle now app
      then (do rs ← attempt (list_replicas out app.id); sweep_listed app rs)
      else pure tt

  unfoldable pub sweep_idle : M (Unit {0})
  sweep_idle = do apps ← list_apps out; now ← ask out.now; each (sweep_one now) apps
