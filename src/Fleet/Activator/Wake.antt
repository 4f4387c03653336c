-- ===== src/Fleet/Activator/Wake.antt =====
-- Which apps a request without an identity wakes, and what it is answered.
use runtime_service.Base.{
  ℕ, zero, suc, ◌≡◌, refl, subst, ◌↔◌, inl, inr, Bool, true, false, ℤ, pos, List, [], ◌∷◌, Memᴰ,
  Option, none, some, Text, Bool-cases, eq_of_parts, eq_ℤ, ==_refl, arith,
}
use runtime_service.Errors.{Err, fleet, route_not_found, Result, ok, err}
use runtime_service.Fleet.Replica.{FleetApp, Replica}
use runtime_service.Fleet.World.{
  Outside, World, Settings, M, ◌>>=◌, ◌>>◌, lift, pure, attempt, ask, query, find_app,
  list_replicas,
}
use runtime_service.Fleet.World.Keeps.{bind_ok, if_ok, find_app-log}
use runtime_service.Fleet.VolumeManager.{is_empty}
use runtime_service.Fleet.Teardown.{is_resident}
use runtime_service.Fleet.Reconcile.{is_app_not_found}
use runtime_service.Fleet.Orchestrator.{scale_app, actuate_scheduled_owned}
use runtime_service.Fleet.Activator

eq_ℤ_iff : (a b : ℤ) → (eq_ℤ a b ≡ true) ↔ (a ≡ b)
eq_ℤ_iff a b = (λ h. eq_of_parts a b (ground arith), λ h. rw h (==_refl _))

-- The endpoint is that of a replica of a list that was read, which was resident and answered on its port.
abbrev pub IsReady : Outside → Settings → List Replica → Text → Type 0
IsReady out cfg rs endpoint =
    (r : Replica) × (n : ℕ) × Memᴰ r rs
    × (is_resident r.state ≡ true)
    × (out.dial n r.guest_ip r.port ≡ true)
    × (endpoint ≡ Activator.address out cfg r)

-- What is known of an endpoint that answers a request for a host.
pub record IsServed (out : Outside) (cfg : Settings) (host : Text) (w : World) (endpoint : Text)
    : Type 0 where
  pub app : FleetApp
  pub app_id : ℕ
  pub replicas : List Replica
  pub at_find : World
  pub at_list : World
  pub routed : out.route_of w.calls host ≡ ok app_id
  pub found : (find_app out app_id at_find).0 ≡ ok app
  pub admitted : Activator.wakeable_app app ≡ ok tt
  pub listed : (list_replicas out app_id at_list).0 ≡ ok replicas
  pub ready : IsReady out cfg replicas endpoint

module _ (out : Outside) (cfg : Settings) where
  later-IsReady :
      (r : Replica) (rs : List Replica) (endpoint : Text)
      → IsReady out cfg rs endpoint
      → IsReady out cfg (r ∷ rs) endpoint
  later-IsReady r rs endpoint (s, n, m, resident, dialed, same) =
      (s, n, Memᴰ.tail m, resident, dialed, same)

  answers_sound :
      (r : Replica) (w : World)
      → (Activator.answers out cfg r w).0 ≡ ok true
      → (is_resident r.state ≡ true) × (out.dial w.calls r.guest_ip r.port ≡ true)
  unfolding Activator.answers
  answers_sound r w h =
      elim (if_ok (is_resident r.state) (ask (λ n. out.dial n r.guest_ip r.port)) (pure false) w
        true h) [ inl (resident, dialed) ↦ (resident, cc) | inr (other, failed) ↦ cc ]

  pick_sound :
      (r : Replica) (rs : List Replica) (healthy : Bool) (endpoint : Text) (v w : World)
      → (Activator.answers out cfg r v).0 ≡ ok healthy
      → (Activator.pick out cfg r (λ u. Activator.first_ready out cfg rs u) healthy w).0
        ≡ ok (some endpoint)
      → ((Activator.first_ready out cfg rs w).0 ≡ ok (some endpoint) → IsReady out cfg rs endpoint)
      → IsReady out cfg (r ∷ rs) endpoint
  unfolding Activator.pick
  pick_sound r rs true endpoint v w h k later =
      let (resident, dialed) = answers_sound r v h in
      (r, v.calls, Memᴰ.head refl, resident, dialed, cc)
  pick_sound r rs false endpoint v w h k later = later-IsReady r rs endpoint (later k)

  first_ready_sound :
      (rs : List Replica) (endpoint : Text) (w : World)
      → (Activator.first_ready out cfg rs w).0 ≡ ok (some endpoint)
      → IsReady out cfg rs endpoint
  unfolding Activator.first_ready
  first_ready_sound [] endpoint w h = cc
  first_ready_sound (r ∷ rs) endpoint w h =
      let (healthy, first, later) =
        bind_ok (Activator.answers out cfg r)
          (Activator.pick out cfg r (λ u. Activator.first_ready out cfg rs u)) w (some endpoint)
          h in
      let next = (Activator.answers out cfg r w).1 in
      pick_sound r rs healthy endpoint w next first later (first_ready_sound rs endpoint next)

  -- A list of the app's replicas that was read, with one that is ready.
  abbrev IsAnswered : ℕ → Text → Type 0
  IsAnswered id endpoint =
      (v : World) × (rs : List Replica) × ((list_replicas out id v).0 ≡ ok rs)
      × IsReady out cfg rs endpoint

  after_poll_sound :
      (id : ℕ) (again : M Text) (found : Option Text) (endpoint : Text) (v w : World)
      → (Activator.resident_endpoint out cfg id v).0 ≡ ok found
      → (Activator.after_poll out cfg id again found w).0 ≡ ok endpoint
      → ((again w).0 ≡ ok endpoint → IsAnswered id endpoint)
      → IsAnswered id endpoint
  unfolding Activator.after_poll Activator.resident_endpoint
  after_poll_sound id again (some e) endpoint v w h k later =
      let (rs, listed, ready) =
        bind_ok (list_replicas out id) (Activator.first_ready out cfg) v (some e) h in
      let (done, stamped, answer) =
        bind_ok (Activator.stamp_active out cfg id) (λ _. pure e) w endpoint k in
      let same : e ≡ endpoint = cc in
      (v, rs, listed, subst (IsReady out cfg rs) same (first_ready_sound rs e _ ready))
  after_poll_sound id again none endpoint v w h k later = later k

  poll_sound :
      (id rounds : ℕ) (ended : Err) (endpoint : Text) (w : World)
      → (Activator.poll out cfg id rounds ended w).0 ≡ ok endpoint
      → IsAnswered id endpoint
  unfolding Activator.poll
  poll_sound id zero ended endpoint w h =
      let again : M Text = lift (err ended) in
      let (found, first, later) =
        bind_ok (Activator.resident_endpoint out cfg id) (Activator.after_poll out cfg id again) w
          endpoint h in
      after_poll_sound id again found endpoint w _ first later (λ failed. cc)
  poll_sound id (suc rounds) ended endpoint w h =
      let again : M Text = λ u. Activator.poll out cfg id rounds ended u in
      let next = (Activator.resident_endpoint out cfg id w).1 in
      let (found, first, later) =
        bind_ok (Activator.resident_endpoint out cfg id) (Activator.after_poll out cfg id again) w
          endpoint h in
      after_poll_sound id again found endpoint w next first later
        (poll_sound id rounds ended endpoint next)

  wake_sound :
      (id rounds : ℕ) (ended : Err) (endpoint : Text) (w : World)
      → (Activator.wake out cfg id rounds ended w).0 ≡ ok endpoint
      → IsAnswered id endpoint
  unfolding Activator.wake
  wake_sound id rounds ended endpoint w h =
      let rest = λ (u : Unit {0}).
        attempt (actuate_scheduled_owned out cfg) >> Activator.poll out cfg id rounds ended in
      let (is_app, scaled, go) =
        bind_ok (scale_app out cfg id (pos 1)) (λ is_app. lift (Activator.known is_app) >>= rest) w
          endpoint h in
      let w1 = (scale_app out cfg id (pos 1) w).1 in
      let (done, is_known, actuated) =
        bind_ok (lift (Activator.known is_app)) rest w1 endpoint go in
      let (result, ran, polled) =
        bind_ok (attempt (actuate_scheduled_owned out cfg))
          (λ _. Activator.poll out cfg id rounds ended) w1 endpoint actuated in
      poll_sound id rounds ended endpoint _ polled

  as_route_sound :
      (found : Result FleetApp) (app : FleetApp)
      → Activator.as_route found ≡ ok app
      → found ≡ ok app
  as_route_sound (ok a) app h = h
  as_route_sound (err e) app h = elim (Bool-cases (is_app_not_found e)) [
    | inl unknown ↦ let failed = (rw unknown at h) in cc
    | inr other ↦ let failed = (rw other at h) in cc
  ]

  find_routed_sound :
      (id : ℕ) (app : FleetApp) (w : World)
      → (Activator.find_routed out cfg id w).0 ≡ ok app
      → (find_app out id w).0 ≡ ok app
  unfolding Activator.find_routed
  find_routed_sound id app w h = as_route_sound (find_app out id w).0 app h

  routed_sound :
      (host : Text) (id rounds : ℕ) (ended : Err) (endpoint : Text) (w v : World)
      → out.route_of w.calls host ≡ ok id
      → (Activator.activate_routed out cfg rounds ended id v).0 ≡ ok endpoint
      → IsServed out cfg host w endpoint
  unfolding Activator.activate_routed Activator.gated
  routed_sound host id rounds ended endpoint w v route h =
      let (app, found, go) =
        bind_ok (Activator.find_routed out cfg id) (Activator.gated out cfg id rounds ended) v
          endpoint h in
      let v1 = (Activator.find_routed out cfg id v).1 in
      let (done, admitted, woken) =
        bind_ok (lift (Activator.wakeable_app app)) (λ _. Activator.wake out cfg id rounds ended) v1
          endpoint go in
      let (u, rs, listed, ready) = wake_sound id rounds ended endpoint v1 woken in
      record {
        app = app;
        app_id = id;
        replicas = rs;
        at_find = v;
        at_list = u;
        routed = route;
        found = find_routed_sound id app v found;
        admitted = admitted;
        listed = listed;
        ready = ready;
      }

-- Whatever other processes do and whichever calls fail, an endpoint that Activate answers is one for the app
-- that the host was routed to, which wakeableApp admitted as it was read; it is the address of a replica in
-- a list of that app's replicas that was read, which was resident and answered on its port.
pub activate-IsServed :
    (out : Outside) (cfg : Settings) (host : Text) (rounds : ℕ) (ended : Err) (w : World)
    (endpoint : Text)
    → (Activator.activate out cfg host rounds ended w).0 ≡ ok endpoint
    → IsServed out cfg host w endpoint
unfolding Activator.activate
activate-IsServed out cfg host rounds ended w endpoint h =
    let asked = query (λ n. out.route_of n host) in
    elim (if_ok (is_empty host) (lift (err (fleet route_not_found)))
      (asked >>= Activator.activate_routed out cfg rounds ended) w endpoint h) [
        | inl (blank, failed) ↦ cc
        | inr (named, e) ↦
            let (id, route, go) =
              bind_ok asked (Activator.activate_routed out cfg rounds ended) w endpoint e in
            routed_sound out cfg host id rounds ended endpoint w (asked w).1 route go
      ]

-- A request for a host that is routed to an app that wakeableApp refuses, as it is read then, is refused with
-- that error, and nothing is scaled, placed, booted or written.
pub activate_refused :
    (out : Outside) (cfg : Settings) (host : Text) (rounds : ℕ) (ended : Err) (w : World) (id : ℕ)
    (app : FleetApp) (refusal : Err)
    → is_empty host ≡ false
    → out.route_of w.calls host ≡ ok id
    → (find_app out id (record w { calls = suc w.calls })).0 ≡ ok app
    → Activator.wakeable_app app ≡ err refusal
    → ((Activator.activate out cfg host rounds ended w).0 ≡ err refusal)
      × ((Activator.activate out cfg host rounds ended w).1.log ≡ w.log)
unfolding Activator.activate Activator.activate_routed Activator.find_routed Activator.gated
activate_refused out cfg host rounds ended w id app refusal named route found refused =
    let w1 : World = record w { calls = suc w.calls } in
    let log = find_app-log out id w1 in
    rw (named, Activator.activate)
      (rw (route, ◌>>=◌, Activator.activate_routed)
        (rw (found, ◌>>=◌, Activator.find_routed)
          (rw (refused, ◌>>=◌, Activator.gated) (refl, log))))
