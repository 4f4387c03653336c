-- ===== src/Fleet/Idle/Doubt.antt =====
-- Without an answer of the feed, no app is scaled to zero.
use runtime_service.Base.{
  ℕ, Bool, ◌≡◌, refl, ◌∙◌, inl, inr, true, false, not, ◌⊎◌, Bool-cases, List, some, ℤ, suc,
  All-trivial, some_of,
}
use runtime_service.Errors.{Err, Result, ok, err}
use runtime_service.Fleet.Replica.{FleetApp, Replica}
use runtime_service.Fleet.World.{
  Outside, World, Settings, Event, attempt, ask, list_apps, list_replicas,
}
use runtime_service.Fleet.World.Keeps.{
  Keeps, call-log, Keeps-pure, Keeps-attempt, Keeps-bind, Keeps-bind_at, Keeps-if, Keeps-each,
}
use runtime_service.Fleet.Teardown.{is_resident}
use runtime_service.Fleet.Idle
use runtime_service.Fleet.Idle.{Edge, Feed, Route}

-- The feed is cold whenever it is asked, or the routes of an app can never be listed.
abbrev pub IsDark : Edge → Feed → Type 0
IsDark edge feed =
    ((n : ℕ) → feed.warm n ≡ false)
    ⊎ ((listed : ℕ → ℕ → Result (List Route)) × (edge.routes ≡ some listed)
        × ((n app : ℕ) → (e : Err) × (listed n app ≡ err e)))

-- The process did nothing more.
abbrev IsStill : List Event → World → Type 0
IsStill log w = w.log ≡ log

module _ (out : Outside) (cfg : Settings) (edge : Edge) (feed : Feed)
    (wired : edge.activity_feed ≡ some feed) (dark : IsDark edge feed) where
  blocked_cold :
      (app : FleetApp) (w : World)
      → feed.warm w.calls ≡ false
      → ((Idle.sweep_blocked_by_activity out cfg edge app w).0 ≡ ok true)
        × ((Idle.sweep_blocked_by_activity out cfg edge app w).1.log ≡ w.log)
  unfolding Idle.sweep_blocked_by_activity Idle.judge_warmth
  blocked_cold app w cold = rw wired (rw (cold, Idle.judge_warmth) (refl, refl))

  blocked_unlisted :
      (app : FleetApp) (w : World) (listed : ℕ → ℕ → Result (List Route))
      → feed.warm w.calls ≡ true
      → edge.routes ≡ some listed
      → ((n a : ℕ) → (e : Err) × (listed n a ≡ err e))
      → ((Idle.sweep_blocked_by_activity out cfg edge app w).0 ≡ ok true)
        × ((Idle.sweep_blocked_by_activity out cfg edge app w).1.log ≡ w.log)
  unfolding Idle.sweep_blocked_by_activity Idle.judge_warmth Idle.app_hosts Idle.judge_hosts
  blocked_unlisted app w listed warm routed fails =
      let (f, failed) = fails (suc w.calls) app.id in
      rw wired (
        rw (warm, Idle.judge_warmth)
          (rw (routed, Idle.app_hosts) (rw (failed, Idle.judge_hosts) (refl, refl))))

  blocked_when_dark :
      (app : FleetApp) (w : World)
      → ((Idle.sweep_blocked_by_activity out cfg edge app w).0 ≡ ok true)
        × ((Idle.sweep_blocked_by_activity out cfg edge app w).1.log ≡ w.log)
  blocked_when_dark app w = elim (Bool-cases (feed.warm w.calls)) [
    | inr cold ↦ blocked_cold app w cold
    | inl warm ↦ elim dark [
      | inl never ↦ blocked_cold app w (never w.calls)
      | inr (listed, routed, fails) ↦ blocked_unlisted app w listed warm routed fails
    ]
  ]

  module _ (log : List Event) where
    blocked-IsStill :
        (app : FleetApp) → Keeps (IsStill log) (Idle.sweep_blocked_by_activity out cfg edge app)
    blocked-IsStill app = record { at = λ w h. (blocked_when_dark app w).1 ∙ h }

    scale_unless-IsStill :
        (app : FleetApp) (w : World) (blocked : Bool)
        → (Idle.sweep_blocked_by_activity out cfg edge app w).0 ≡ ok blocked
        → Keeps (IsStill log) (Idle.scale_unless out cfg edge app blocked)
    unfolding Idle.scale_unless
    scale_unless-IsStill app w true h = Keeps-pure tt
    scale_unless-IsStill app w false h = let is_true = (blocked_when_dark app w).0 in cc

    sweep_listed-IsStill :
        (app : FleetApp) (read : Result (List Replica))
        → Keeps (IsStill log) (Idle.sweep_listed out cfg edge app read)
    unfolding Idle.sweep_listed
    sweep_listed-IsStill app (err e) = Keeps-pure tt
    sweep_listed-IsStill app (ok rs) =
        Keeps-if (not (some_of (λ r. is_resident r.state) rs)) _ _ (λ none_runs. Keeps-pure tt)
          λ one_runs.
            Keeps-bind_at (Idle.sweep_blocked_by_activity out cfg edge app) _ (blocked-IsStill app)
              λ blocked w h asked. scale_unless-IsStill app w blocked asked

    list_replicas-IsStill : (app : ℕ) → Keeps (IsStill log) (list_replicas out app)
    unfolding list_replicas
    list_replicas-IsStill app = record { at = λ w h. call-log out _ w ∙ h }

    list_apps-IsStill : Keeps (IsStill log) (list_apps out)
    unfolding list_apps
    list_apps-IsStill = record { at = λ w h. call-log out _ w ∙ h }

    sweep_one-IsStill :
        (now : ℤ) (app : FleetApp) → Keeps (IsStill log) (Idle.sweep_one out cfg edge now app)
    unfolding Idle.sweep_one
    sweep_one-IsStill now app =
        Keeps-if (Idle.is_idle now app) _ _
          (λ idle.
            Keeps-bind (attempt (list_replicas out app.id)) _
              (Keeps-attempt _ (list_replicas-IsStill app.id)) (sweep_listed-IsStill app))
          λ busy. Keeps-pure tt

    sweep_idle-IsStill : Keeps (IsStill log) (Idle.sweep_idle out cfg edge)
    unfolding Idle.sweep_idle
    sweep_idle-IsStill = Keeps-bind (list_apps out) _ list_apps-IsStill λ apps.
        Keeps-bind (ask out.now) _ (record { at = λ w h. h })
          λ now.
            Keeps-each (λ a. Unit) (Idle.sweep_one out cfg edge now) apps
              (λ a h. sweep_one-IsStill now a) (All-trivial apps)

-- Whatever other processes do and whichever calls fail: if a feed is wired that is cold whenever it is asked,
-- or the routes of no app can ever be listed, a pass of SweepIdle does nothing to any app, replica or volume.
pub sweep_idle_spares :
    (out : Outside) (cfg : Settings) (edge : Edge) (feed : Feed) (w : World)
    → edge.activity_feed ≡ some feed
    → IsDark edge feed
    → (Idle.sweep_idle out cfg edge w).1.log ≡ w.log
sweep_idle_spares out cfg edge feed w wired dark =
    (sweep_idle-IsStill out cfg edge feed wired dark w.log).at w refl
