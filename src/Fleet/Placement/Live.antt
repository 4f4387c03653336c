-- ===== src/Fleet/Placement/Live.antt =====
-- The hosts on which a placement puts replicas.
use runtime_service.Base.{ℕ, zero, suc, ◌≡◌, refl, ap, ◌∙◌, sym, List, Memᴰ, Option, some}
use runtime_service.Errors.{Result, ok, err}
use runtime_service.Fleet.Host.{Host}
use runtime_service.Fleet.Replica.{FleetApp, Replica}
use runtime_service.Fleet.Scheduler.{Candidate, select_host}
use runtime_service.Fleet.Scheduler.Choice.{IsStrict}
use runtime_service.Fleet.Scheduler.Best.{Takes, candidate_id, select_host_best}
use runtime_service.Fleet.World.{Outside, World, Settings, M, attempt, ask, query}
use runtime_service.Fleet.World.Keeps
use runtime_service.Fleet.World.Keeps.{
  Keeps, Logged, keeps_rules, Keeps-pure, Keeps-lift, Keeps-attempt, Keeps-bind, Keeps-bind_at,
  Keeps-if,
}
use runtime_service.Fleet.World.Fence.{Only}
use runtime_service.Fleet.Placement
use runtime_service.Fleet.Placement.{Placed, request, strays, new_replica}

-- The replica is on a host that was live when the scheduler was asked, that is the pinned one if there is
-- one, and that had room for the app.
abbrev pub IsOnLive : Outside → FleetApp → Option ℕ → Replica → Type 0
IsOnLive out app pinned r =
    (n : ℕ) × (live : List Host) × (h : Host) × (c : Candidate) × ((out.reads n).list_live
      ≡ ok live)
    × Memᴰ h live
    × Takes (out.reads n) (request app pinned) h c
    × (r.host_id ≡ some h.id)

-- Every replica that is added is as Q says.
abbrev pub AddsOnly : (Replica → Type 0) → World → Type 0
AddsOnly Q = Logged (Only (λ a r vol input. Unit) (λ r proved. Unit) Q)

module _ (out : Outside) (cfg : Settings) (app : FleetApp) (pinned : Option ℕ)
    (strict : (n : ℕ) → IsStrict (out.reads n).id_before) {Q : Replica → Type 0}
    (q : (r : Replica) → IsOnLive out app pinned r → Q r) where
  -- What is known of a host that the scheduler answers.
  abbrev IsChosen : ℕ → Type 0
  IsChosen id = (r : Replica) → r.host_id ≡ some id → IsOnLive out app pinned r

  chosen : (n id : ℕ) → select_host (out.reads n) (request app pinned) ≡ ok id → IsChosen id
  chosen n id h r placed =
      let (live, c, listed, named, (host, held, takes), best) =
        select_host_best (out.reads n) (request app pinned) (strict n) id h in
      let (affine, labels, (rows, read, counted), vcpu, mem, disk) = takes in
      let its_id : c.host_id ≡ host.id =
        ap (λ (d : Candidate). d.host_id) counted
        ∙ candidate_id (out.reads n) (request app pinned) host rows in
      (n, live, host, c, listed, held, takes, placed ∙ ap some (sym named ∙ its_id))

  place_on-AddsOnly :
      (host : ℕ) → IsChosen host → Keeps (AddsOnly Q) (Placement.place_on out cfg app pinned host)
  unfolding Placement.place_on new_replica
  place_on-AddsOnly host h =
      Keeps-if (strays pinned host) _ _ (λ e. Keeps-lift _)
        λ e. Keeps-bind (ask out.now) _ (Keeps.ask-Logged out.now) λ now.
          Keeps-bind (ask out.new_id) _ (Keeps.ask-Logged out.new_id) λ id.
            let r = new_replica app host id now in
            Keeps.create_replica-Logged out r (q r (h r refl))

  place_next-AddsOnly :
      (rest : M Placed) (selected : Result ℕ)
      → Keeps (AddsOnly Q) rest
      → ((id : ℕ) → selected ≡ ok id → IsChosen id)
      → Keeps (AddsOnly Q) (Placement.place_next out cfg rest app pinned selected)
  unfolding Placement.place_next
  place_next-AddsOnly rest (err e) k h = search keeps_rules
  place_next-AddsOnly rest (ok id) k h =
      Keeps-bind (Placement.place_on out cfg app pinned id) _ (place_on-AddsOnly id (h id refl))
        λ done. k

  pub place-AddsOnly : (n : ℕ) → Keeps (AddsOnly Q) (Placement.place out cfg app pinned n)
  unfolding Placement.place
  place-AddsOnly zero = Keeps-pure _
  place-AddsOnly (suc n) =
      let asked = query (λ c. select_host (out.reads c) (request app pinned)) in
      Keeps-bind_at (attempt asked) _ (Keeps-attempt asked (Keeps.query-Logged _))
        λ selected w h answered.
          place_next-AddsOnly (λ v. Placement.place out cfg app pinned n v) selected
            (record { at = (place-AddsOnly n).at }) λ id e. chosen w.calls id (cc)
