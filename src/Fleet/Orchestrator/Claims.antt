-- ===== src/Fleet/Orchestrator/Claims.antt =====
-- An app that a durable resource may claim is not ended.
use runtime_service.Base.{
  ◌==◌, ==_iff, subst, first, first_sound, Option-cases, ℕ, ◌≡◌, refl, ◌≢◌, ap, ◌∙◌, inl, inr, true,
  false, ◌⊎◌, Bool-cases, List,
}
use runtime_service.Errors.{
  Err, boot, resource_not_found, fleet, app_backs_durable_resource, Result, Result-cases, ok, err,
}
use runtime_service.Fleet.Replica.{FleetApp}
use runtime_service.Fleet.World.{
  Outside, World, Settings, Claim, Event, ◌>>=◌, lift, attempt, query, find_app, call,
}
use runtime_service.Fleet.World.Keeps.{
  Keeps, bind_ok, bind_failed, if_ok, keeps_rules, Keeps-attempt, Keeps-bind, Keeps-bind_at,
  Keeps-pure, Keeps-lift, Keeps-if, find_app-log,
}
use runtime_service.Fleet.VolumeManager.{is_resource_not_found}
use runtime_service.Fleet.Orchestrator

-- Whenever the ledger of claims is asked about the app, it does not say that there is no claim: it
-- names one, or it fails.
abbrev pub IsDoubted : Outside → ℕ → Type 0
IsDoubted out app = (n : ℕ) → out.live_claim n app ≢ err (boot resource_not_found)

not_found_sound : (e : Err) → is_resource_not_found e ≡ true → e ≡ boot resource_not_found
not_found_sound (boot resource_not_found) h = refl
not_found_sound _ h = cc

-- The process did nothing more.
abbrev IsIdle : List Event → World → Type 0
IsIdle log w = w.log ≡ log

module _ (out : Outside) (cfg : Settings) (id : ℕ)
    (doubted : (cfg.has_resources ≡ false) ⊎ IsDoubted out id) (log : List Event) where
  judge_fails :
      (read : Result Claim) (w : World)
      → read ≢ err (boot resource_not_found)
      → (done : Unit {0}) → (Orchestrator.judge_claim out cfg read w).0 ≢ ok done
  unfolding Orchestrator.judge_claim
  judge_fails (ok claim) w other done h = cc
  judge_fails (err e) w other done h = elim (Bool-cases (is_resource_not_found e)) [
    | inl missing ↦ other (ap err (not_found_sound e missing))
    | inr found ↦ let failed = (rw found at h) in cc
  ]

  refuse_fails :
      (app : ℕ) (w : World) (done : Unit {0})
      → app ≡ id
      → (Orchestrator.refuse_if_resource_backed out cfg app w).0 ≢ ok done
  unfolding Orchestrator.refuse_if_resource_backed
  refuse_fails app w done its h =
      let asked = attempt (query (λ n. out.live_claim n app)) in
      elim (if_ok cfg.has_resources (asked >>= Orchestrator.judge_claim out cfg)
        (lift (err (fleet app_backs_durable_resource))) w done h) [
          | inl (wired, e) ↦
              let (read, first, later) =
                bind_ok asked (Orchestrator.judge_claim out cfg) w done e in
              elim doubted [
                | inl unwired ↦ cc
                | inr never ↦
                    judge_fails (out.live_claim w.calls app) (asked w).1
                      (λ missing. never w.calls (
                        subst (λ a. out.live_claim w.calls a ≡ err (boot resource_not_found)) its
                          missing))
                      done (cc)
              ]
          | inr (bare, e) ↦ cc
        ]

  judge-IsIdle : (read : Result Claim) → Keeps (IsIdle log) (Orchestrator.judge_claim out cfg read)
  unfolding Orchestrator.judge_claim
  judge-IsIdle (ok claim) = Keeps-lift _
  judge-IsIdle (err e) = search keeps_rules

  refuse-IsIdle :
      (app : ℕ) → Keeps (IsIdle log) (Orchestrator.refuse_if_resource_backed out cfg app)
  unfolding Orchestrator.refuse_if_resource_backed
  refuse-IsIdle app =
      let asked = query (λ n. out.live_claim n app) in
      let silent : Keeps (IsIdle log) asked = record { at = λ w h. h } in
      Keeps-if cfg.has_resources (attempt asked >>= Orchestrator.judge_claim out cfg)
        (lift (err (fleet app_backs_durable_resource)))
        (λ e.
          Keeps-bind (attempt asked) (Orchestrator.judge_claim out cfg) (Keeps-attempt asked silent)
            judge-IsIdle)
        (λ e. Keeps-lift (err (fleet app_backs_durable_resource)))

  end_app-IsIdle :
      (app : FleetApp) → app.id ≡ id → Keeps (IsIdle log) (Orchestrator.end_app out cfg app)
  unfolding Orchestrator.end_app
  end_app-IsIdle app its = record {
    at = λ w h. elim (Result-cases (Orchestrator.refuse_if_resource_backed out cfg app.id w).0) [
      | inl (done, e) ↦ absurd (refuse_fails app.id w done its e)
      | inr (e, failed) ↦
          rw (bind_failed (Orchestrator.refuse_if_resource_backed out cfg app.id) _ w e failed)
            ((refuse-IsIdle app.id).at w h)
    ];
  }

  found-IsIdle :
      (found : Result FleetApp)
      → ((app : FleetApp) → found ≡ ok app → app.id ≡ id)
      → Keeps (IsIdle log) (Orchestrator.decommission_app_found out cfg found)
  unfolding Orchestrator.decommission_app_found
  found-IsIdle (err e) its = search keeps_rules
  found-IsIdle (ok app) its =
      Keeps-bind (Orchestrator.end_app out cfg app) _ (end_app-IsIdle app (its app refl))
        (λ done. Keeps-pure true)

  -- The app that a read by id answers has the id.
  found_id : (w : World) (app : FleetApp) → (find_app out id w).0 ≡ ok app → app.id ≡ id
  unfolding find_app call
  found_id w app h = elim (Bool-cases (out.fails w.calls)) [
    | inl failing ↦ let failed = (rw failing at h) in cc
    | inr fine ↦
        let apps = (out.others w.calls w.tables).apps in
        elim (Option-cases (first (λ (a : FleetApp). a.id == id) apps)) [
          | inl e ↦ let missed = (rw (fine, e) at h) in cc
          | inr (a, e) ↦
              let found : ok a ≡ ok app = rw (fine, e) at h in
              let same : a ≡ app = cc in
              rw (← same)
                ((==_iff a.id id).0 (first_sound (λ (a : FleetApp). a.id == id) apps a e).1)
        ]
  ]

  decommission-IsIdle : Keeps (IsIdle log) (Orchestrator.decommission_app out cfg id)
  unfolding Orchestrator.decommission_app
  decommission-IsIdle =
      let silent : Keeps (IsIdle log) (find_app out id) = record {
        at = λ w h. find_app-log out id w ∙ h;
      } in
      Keeps-bind_at (attempt (find_app out id)) (Orchestrator.decommission_app_found out cfg)
        (Keeps-attempt (find_app out id) silent)
        (λ found w h answered. found-IsIdle found (λ app e. found_id w app (cc)))

-- While the ledger of claims, whenever it is asked about the app, names a claim or fails, or no ledger is wired:
-- whatever other processes do and whichever calls fail, DecommissionApp does nothing to any replica,
-- volume, file, route or app.
pub decommission_app_refused :
    (out : Outside) (cfg : Settings) (id : ℕ) (w : World)
    → (cfg.has_resources ≡ false) ⊎ IsDoubted out id
    → (Orchestrator.decommission_app out cfg id w).1.log ≡ w.log
decommission_app_refused out cfg id w doubted =
    (decommission-IsIdle out cfg id doubted w.log).at w refl
