-- ===== src/Fleet/Reconcile/Held.antt =====
-- A pass of an app in which a teardown was not proved adds no replica.
use runtime_service.Base.{
  ℕ, ◌≡◌, refl, ◌⊎◌, inl, inr, Bool, true, false, ltb_ℤ, pos, pos_part, ◌-◌, length, List, [], ◌∷◌,
  Option, none, some, Bool-cases, if◌then◌else◌,
}
use runtime_service.Errors.{Err, Result, Result-cases, ok, err}
use runtime_service.Fleet.Replica.{FleetApp, Replica}
use runtime_service.Fleet.World.{
  Outside, World, Settings, Event, M, ◌>>=◌, pure, attempt, find_app, list_replicas,
}
use runtime_service.Fleet.World.Keeps
use runtime_service.Fleet.World.Keeps.{
  Keeps, Logged, bind_ok, bind_state, bind_failed, Keeps-if, keeps_rules, Keeps-attempt, Keeps-lift,
  Keeps-pure,
}
use runtime_service.Fleet.World.Fence.{Permits, Only, Only-Permits}
use runtime_service.Fleet.Teardown.{decommission_replica, refresh_health}
use runtime_service.Fleet.Teardown.Fence.{refresh_health-Logged}
use runtime_service.Fleet.Teardown.Proved.{
  IsProved, Proved, IsProved-Permits, decommission-Succeeds,
}
use runtime_service.Fleet.Placement.Fence.{fill-Logged, fill_refused}
use runtime_service.Fleet.Placement.{fill}
use runtime_service.Fleet.Reconcile
use runtime_service.Fleet.Reconcile.{Snapshot}
use runtime_service.Fleet.Reconcile.Fence.{
  is_stranded-Logged, clean_dead-Logged, refresh_residents-Logged, drain_surplus-Logged,
}

-- No replica is added.
abbrev pub AddsNone : Event → Type 0
AddsNone = Only (λ app r vol input. Unit) (λ r proved. Unit) (λ r. ⊥)

AddsNone-Permits : (self : ℕ) → Permits self AddsNone
AddsNone-Permits self = Only-Permits self _ _ _

-- Where the error that is carried before the action and the one after it are both absent, every
-- teardown was proved.
record Carries {A : Type 0} (failed : Option Err) (after : A → Option Err) (m : M A) : Type 0 where
  at :
      (w : World) (a : A)
      → (failed ≡ none → Proved w)
      → (m w).0 ≡ ok a
      → after a ≡ none
      → Proved (m w).1

Carries-bind :
    {A B : Type 0} (failed : Option Err) (between : A → Option Err) (after : B → Option Err)
    (m : M A) (f : A → M B)
    → Carries failed between m
    → ((a : A) → Carries (between a) after (f a))
    → Carries failed after (m >>= f)
Carries-bind failed between after m f cm cf = record {
  at = λ w b h e quiet.
      let (a, first, later) = bind_ok m f w b e in
      rw (bind_state m f w a first) ((cf a).at (m w).1 b (cm.at w a h first) later quiet);
}

Carries-pure :
    {A : Type 0} (failed : Option Err) (after : A → Option Err) (a : A)
    → failed ≡ after a
    → Carries failed after (pure a)
Carries-pure failed after a same = record { at = λ w b h e quiet. h (cc) }

Carries-if :
    {A : Type 0} (failed : Option Err) (after : A → Option Err) (b : Bool) (m n : M A)
    → Carries failed after m
    → Carries failed after n
    → Carries failed after (if b then m else n)
Carries-if failed after true m n cm cn = cm
Carries-if failed after false m n cm cn = cn

abbrev same : Option Err → Option Err
same failed = failed

abbrev of_pair : {A : Type 0} → Option Err × A → Option Err
of_pair pair = pair.0

none_is_some : (e : Err) → some e ≡ none → ⊥
none_is_some e h = cc

module _ (out : Outside) (cfg : Settings) where
  drain_one-Carries :
      (failed : Option Err) (id : ℕ) → Carries failed same (Reconcile.drain_one out cfg failed id)
  unfolding Reconcile.drain_one
  drain_one-Carries (some e) id = record { at = λ w a h k quiet. cc }
  drain_one-Carries none id = record {
    at = λ w a h k quiet. elim (Result-cases (decommission_replica out cfg id w).0) [
      | inl (done, e) ↦ (decommission-Succeeds out cfg id).at w done (h refl) e
      | inr (e, failed) ↦
          let carried : ok (some e) ≡ ok a = (rw failed at k) in absurd (none_is_some e (cc))
    ];
  }

  clean_one-Carries :
      (failed : Option Err) (r : Replica)
      → Carries failed same (Reconcile.clean_one out cfg failed r)
  unfolding Reconcile.clean_one
  clean_one-Carries failed r =
      Carries-if failed same _ _ _ (drain_one-Carries failed r.id)
        (Carries-pure failed same failed refl)

  clean_dead-Carries :
      (failed : Option Err) (rs : List Replica)
      → Carries failed same (Reconcile.clean_dead out cfg failed rs)
  unfolding Reconcile.clean_dead
  clean_dead-Carries failed [] = Carries-pure failed same failed refl
  clean_dead-Carries failed (r ∷ rs) =
      Carries-bind failed same same (Reconcile.clean_one out cfg failed r)
        (λ failed'. Reconcile.clean_dead out cfg failed' rs) (clean_one-Carries failed r)
        λ failed'. clean_dead-Carries failed' rs

  after_refresh-Carries :
      (failed : Option Err) (r : Replica) (answer : Result Bool)
      → Carries failed same (Reconcile.after_refresh out cfg failed r answer)
  unfolding Reconcile.after_refresh
  after_refresh-Carries failed r (ok true) = Carries-pure failed same failed refl
  after_refresh-Carries failed r (ok false) = drain_one-Carries failed r.id
  after_refresh-Carries failed r (err e) = Carries-pure failed same failed refl

  -- An action that tears nothing down.
  Carries-Keeps :
      {A : Type 0} (failed : Option Err) (m : M A) → Keeps Proved m → Carries failed (λ a. failed) m
  Carries-Keeps failed m k = record { at = λ w a h e quiet. k.at w (h quiet) }

  refresh_one-Carries :
      (failed : Option Err) (r : Replica)
      → Carries failed of_pair (Reconcile.refresh_one out cfg failed r)
  unfolding Reconcile.refresh_one
  refresh_one-Carries failed r =
      Carries-if failed of_pair _ _ _
        (Carries-bind failed (λ answer. failed) of_pair (refresh_health out cfg r) _
          (Carries-Keeps failed _
            (refresh_health-Logged out cfg (IsProved-Permits cfg.self_host) r))
          λ answer.
            Carries-bind failed same of_pair (Reconcile.after_refresh out cfg failed r answer.1)
              (λ failed'. pure (failed', answer.0)) (after_refresh-Carries failed r answer.1)
              λ failed'. Carries-pure failed' of_pair (failed', answer.0) refl)
        (Carries-pure failed of_pair (failed, r) refl)

  refresh_residents-Carries :
      (failed : Option Err) (rs : List Replica)
      → Carries failed of_pair (Reconcile.refresh_residents out cfg failed rs)
  unfolding Reconcile.refresh_residents
  refresh_residents-Carries failed [] = Carries-pure failed of_pair (failed, []) refl
  refresh_residents-Carries failed (r ∷ rs) =
      Carries-bind failed of_pair of_pair (Reconcile.refresh_one out cfg failed r) _
        (refresh_one-Carries failed r)
        λ one.
          Carries-bind one.0 of_pair of_pair (Reconcile.refresh_residents out cfg one.0 rs)
            (λ rest. pure (rest.0, one.1 ∷ rest.1)) (refresh_residents-Carries one.0 rs)
            λ rest. Carries-pure rest.0 of_pair (rest.0, one.1 ∷ rest.1) refl

  -- Either no replica was added, or every teardown was proved.
  abbrev IsHeld : World → Type 0
  IsHeld w = Logged AddsNone w ⊎ Proved w

  IsHeld-bind :
      {A B : Type 0} (m : M A) (f : A → M B) (w : World)
      → Keeps (Logged AddsNone) m
      → Logged AddsNone w
      → ((a : A) → (m w).0 ≡ ok a → IsHeld (f a (m w).1).1)
      → IsHeld ((m >>= f) w).1
  IsHeld-bind m f w k h hf = elim (Result-cases (m w).0) [
    | inl (a, e) ↦ rw (bind_state m f w a e) (hf a e)
    | inr (e, failed) ↦ rw (bind_failed m f w e failed) (inl (k.at w h))
  ]

  drain-AddsNone :
      (failed : Option Err) (n : ℕ) (rs : List Replica)
      → Keeps (Logged AddsNone) (Reconcile.drain out cfg failed n rs)
  unfolding Reconcile.drain
  drain-AddsNone failed n rs = search (
    keeps_rules,
    drain_surplus-Logged out cfg (AddsNone-Permits cfg.self_host) (λ r proved h. tt),
  )

  fill-IsHeld :
      (app : FleetApp) (n : ℕ) (failed : Option Err) (w : World)
      → (failed ≡ none → Proved w)
      → Logged AddsNone w
      → IsHeld (fill out cfg app n failed w).1
  fill-IsHeld app n (some e) w h k = rw (fill_refused out cfg app n e) (inl k)
  fill-IsHeld app n none w h k = inr (
      (fill-Logged out cfg (IsProved-Permits cfg.self_host) (λ r scheduled idle. tt) app n none).at
        w (h refl))

  balance-IsHeld :
      (app : FleetApp) (snapshot : Snapshot) (w : World)
      → (snapshot.0 ≡ none → Proved w)
      → Logged AddsNone w
      → IsHeld (Reconcile.balance out cfg app snapshot w).1
  unfolding Reconcile.balance
  balance-IsHeld app (failed, rs) w h k =
      let n = length (Reconcile.occupying rs) in
      elim (Bool-cases (ltb_ℤ (pos n) app.desired_replicas)) [
        | inl short ↦ rw short (fill-IsHeld app (pos_part app.desired_replicas - n) failed w h k)
        | inr e ↦ elim (Bool-cases (ltb_ℤ app.desired_replicas (pos n))) [
          | inl surplus ↦ rw (e, surplus) (inl ((drain-AddsNone failed _ _).at w k))
          | inr even ↦ rw (e, even) (inl k)
        ]
      ]

  reconcile_replicas-IsHeld :
      (app : FleetApp) (rs : List Replica) (w : World)
      → Proved w
      → Logged AddsNone w
      → IsHeld (Reconcile.reconcile_replicas out cfg app rs w).1
  unfolding Reconcile.reconcile_replicas
  reconcile_replicas-IsHeld app rs w h k =
      let p = AddsNone-Permits cfg.self_host in
      let clean = clean_dead-Logged out cfg p (λ r proved h. tt) none rs in
      IsHeld-bind (Reconcile.clean_dead out cfg none rs)
        (λ failed. Reconcile.refresh_residents out cfg failed rs >>= Reconcile.balance out cfg app)
        w clean k
        λ failed e.
          let w1 = (Reconcile.clean_dead out cfg none rs w).1 in
          let refresh = refresh_residents-Logged out cfg p (λ r proved h. tt) failed rs in
          IsHeld-bind (Reconcile.refresh_residents out cfg failed rs)
            (Reconcile.balance out cfg app) w1 refresh (clean.at w k)
            λ snapshot found.
              balance-IsHeld app snapshot _
                ((refresh_residents-Carries failed rs).at w1 snapshot
                  ((clean_dead-Carries none rs).at w failed (λ _. h) e) found)
                (refresh.at w1 (clean.at w k))

  unless_stranded-IsHeld :
      (app : FleetApp) (rs : List Replica) (stranded : Bool) (w : World)
      → Proved w
      → Logged AddsNone w
      → IsHeld (Reconcile.unless_stranded out cfg app rs stranded w).1
  unfolding Reconcile.unless_stranded
  unless_stranded-IsHeld app rs true w h k = inl k
  unless_stranded-IsHeld app rs false w h k = reconcile_replicas-IsHeld app rs w h k

  reconcile_found-IsHeld :
      (found : Result FleetApp) (w : World)
      → Proved w
      → Logged AddsNone w
      → IsHeld (Reconcile.reconcile_found out cfg found w).1
  unfolding Reconcile.reconcile_found
  reconcile_found-IsHeld (err e) w h k = inl (
      (Keeps-if {P = Logged AddsNone} (Reconcile.is_app_not_found e) _ _ (λ _. Keeps-pure tt)
          (λ _. Keeps-lift _)).at
        w k)
  reconcile_found-IsHeld (ok app) w h k =
      let idle = AddsNone-Permits cfg.self_host in
      let calm = IsProved-Permits cfg.self_host in
      IsHeld-bind (list_replicas out app.id)
        (λ rs. Reconcile.is_stranded out cfg app.id >>= Reconcile.unless_stranded out cfg app rs) w
        (Keeps.list_replicas-Logged out app.id) k
        λ rs e.
          let w1 = (list_replicas out app.id w).1 in
          let h1 : Proved w1 = (Keeps.list_replicas-Logged out app.id).at w h in
          let k1 : Logged AddsNone w1 = (Keeps.list_replicas-Logged out app.id).at w k in
          IsHeld-bind (Reconcile.is_stranded out cfg app.id)
            (Reconcile.unless_stranded out cfg app rs) w1 (is_stranded-Logged out cfg idle app.id)
            k1
            λ stranded found.
              unless_stranded-IsHeld app rs stranded _
                ((is_stranded-Logged out cfg calm app.id).at w1 h1)
                ((is_stranded-Logged out cfg idle app.id).at w1 k1)

  reconcile_app-IsHeld :
      (id : ℕ) (w : World)
      → Proved w
      → Logged AddsNone w
      → IsHeld (Reconcile.reconcile_app out cfg id w).1
  unfolding Reconcile.reconcile_app
  reconcile_app-IsHeld id w h k =
      IsHeld-bind (attempt (find_app out id)) (Reconcile.reconcile_found out cfg) w
        (Keeps-attempt _ (Keeps.find_app-Logged out id)) k
        λ found e.
          reconcile_found-IsHeld found _ ((Keeps.find_app-Logged out id).at w h)
            ((Keeps.find_app-Logged out id).at w k)

-- Whatever other processes do to the tables and whichever calls fail: in a pass of ReconcileApp of
-- which the log holds no addition and no teardown that failed when it starts, either no replica is
-- added, or the driver proved every teardown.
pub reconcile_app_held :
    (out : Outside) (cfg : Settings) (id : ℕ) (w : World)
    → Logged IsProved w
    → Logged AddsNone w
    → Logged AddsNone (Reconcile.reconcile_app out cfg id w).1
      ⊎ Logged IsProved (Reconcile.reconcile_app out cfg id w).1
reconcile_app_held out cfg id w h k = reconcile_app-IsHeld out cfg id w h k
