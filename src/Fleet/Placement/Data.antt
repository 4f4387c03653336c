-- ===== src/Fleet/Placement/Data.antt =====
-- A shortfall is filled on the host of the app's data.
use runtime_service.Base.{
  ℕ, ◌≡◌, sym, ap, ◌∙◌, subst, inl, inr, Bool, true, false, List, [], ◌∷◌, All, Option, none, some,
}
use runtime_service.Errors.{Err, Result, Result-cases, ok, err}
use runtime_service.Fleet.Replica.{FleetApp, Replica}
use runtime_service.Fleet.Volume.{Volume, affinity_of}
use runtime_service.Fleet.Volume.Affinity.{affinity_of-All}
use runtime_service.Fleet.Scheduler.Choice.{IsStrict}
use runtime_service.Fleet.World.{Outside, World, Settings, M, ◌>>=◌, lift, list_volumes, pure}
use runtime_service.Fleet.World.Keeps.{bind_state, bind_failed, bind_ok}
use runtime_service.Fleet.World.Fence.{Only-Permits}
use runtime_service.Fleet.VolumeManager.{affinity_host}
use runtime_service.Fleet.Placement
use runtime_service.Fleet.Placement.Fence.{gate-Logged, pinned_host-Logged}
use runtime_service.Fleet.Placement.Live.{IsOnLive, AddsOnly, place-AddsOnly}

-- The replica is on the host of each of the volumes that were read; nothing is when the read fails.
abbrev pub IsOnData : Result (List Volume) → Replica → Type 0
IsOnData (err e) r = ⊥
IsOnData (ok vs) r = All (λ (v : Volume). v.host_affinity ≡ r.host_id) vs

-- On a live host with room for the app, that is also the host of the app's data.
abbrev pub IsWellPlaced : Outside → FleetApp → Result (List Volume) → Replica → Type 0
IsWellPlaced out app read r = ((pinned : Option ℕ) × IsOnLive out app pinned r) × IsOnData read r

All-map :
    {A : Type 0} {P Q : A → Type 0} (xs : List A) → ((x : A) → P x → Q x) → All P xs → All Q xs
All-map [] f h = tt
All-map (x ∷ xs) f h = (f x h.0, All-map xs f h.1)

on_data :
    (out : Outside) (app : FleetApp) (vs : List Volume) (pinned : Option ℕ) (r : Replica)
    → affinity_of vs ≡ ok pinned
    → IsOnLive out app pinned r
    → IsWellPlaced out app (ok vs) r
on_data out app vs pinned r h live = elim (affinity_of-All vs pinned h) [
  | inl empty ↦ (
    (pinned, live),
    subst (λ (xs : List Volume). All (λ v. v.host_affinity ≡ r.host_id) xs) (sym empty) tt,
  )
  | inr (host, is_host, all) ↦
      let there = subst (λ p. IsOnLive out app p r) is_host live in
      let (n, hosts, h, c, listed, held, takes, placed) = there in
      let at_host : r.host_id ≡ some host = placed ∙ ap some takes.0 in
      ((pinned, live), All-map vs (λ v e. e ∙ sym at_host) all)
]

ends_with : {A : Type 0} (m : M A) (w : World) → ((m >>= λ a. pure tt) w).1 ≡ (m w).1
ends_with m w = elim (Result-cases (m w).0) [
  | inl (a, e) ↦ bind_state m (λ b. pure tt) w a e
  | inr (e, failed) ↦ bind_failed m (λ b. pure tt) w e failed
]

module _ (out : Outside) (cfg : Settings) (app : FleetApp) (n : ℕ)
    (strict : (k : ℕ) → IsStrict (out.reads k).id_before) (wired : cfg.has_volumes ≡ true) where
  -- What a read of the app's volumes answers in a world.
  abbrev read_in : World → Result (List Volume)
  read_in w = (list_volumes out app.id w).0

  abbrev AddsWell : Result (List Volume) → World → Type 0
  AddsWell read = AddsOnly (IsWellPlaced out app read)

  pinned_read :
      (w : World) (pinned : Option ℕ)
      → (Placement.pinned_host out cfg app.id w).0 ≡ ok pinned
      → (vs : List Volume) × (read_in w ≡ ok vs) × (affinity_of vs ≡ ok pinned)
  unfolding Placement.pinned_host affinity_host
  pinned_read w pinned h =
      bind_ok (list_volumes out app.id) (λ vs. lift (affinity_of vs)) w pinned (rw wired at h)

  gated :
      (gate : Bool) (w : World)
      → AddsWell (read_in w) w
      → AddsWell (read_in w) (Placement.place_gated out cfg app n gate w).1
  unfolding Placement.place_gated
  gated false w h = h
  gated true w h =
      let m = Placement.pinned_host out cfg app.id in
      let k = λ (pinned : Option ℕ). Placement.place out cfg app pinned n in
      let kept = (pinned_host-Logged out cfg (Only-Permits cfg.self_host _ _ _) app.id).at w h in
      elim (Result-cases (m w).0) [
        | inr (e, failed) ↦ rw (bind_failed m k w e failed) kept
        | inl (pinned, got) ↦
            let (vs, read, agreed) = pinned_read w pinned got in
            rw (bind_state m k w pinned got) (
              (place-AddsOnly out cfg app pinned strict
                  (λ r live.
                    subst (λ x. IsWellPlaced out app x r) (sym read)
                      (on_data out app vs pinned r agreed live))
                  n).at
                (m w).1 kept)
      ]

  filled :
      (failed : Option Err) (w : World)
      → let read = read_in (Placement.placeable_on_backing_file out cfg app.id w).1 in
        AddsWell read w → AddsWell read (Placement.fill out cfg app n failed w).1
  unfolding Placement.fill
  filled (some e) w h = h
  filled none w h =
      let m = Placement.placeable_on_backing_file out cfg app.id in
      let k = λ (gate : Bool). Placement.place_gated out cfg app n gate >>= λ placed. pure tt in
      let kept = (gate-Logged out cfg (Only-Permits cfg.self_host _ _ _) app.id).at w h in
      elim (Result-cases (m w).0) [
        | inr (e, shut) ↦ rw (bind_failed m k w e shut) kept
        | inl (gate, got) ↦
            rw
              (
                bind_state m k w gate got,
                ends_with (Placement.place_gated out cfg app n gate) (m w).1,
              )
              (gated gate (m w).1 kept)
      ]

-- If the order of the ids' texts is strict and there is a store of volumes: whatever other processes do and
-- whichever calls fail, every replica that the filling of a shortfall adds is on a host that the scheduler
-- found live with room for the app, and on the host of every volume of the app that a read after the gate on
-- the backing file answers; when this read fails, none is added.
pub fill-IsOnData :
    (out : Outside) (cfg : Settings) (app : FleetApp) (n : ℕ) (failed : Option Err) (w : World)
    → ((k : ℕ) → IsStrict (out.reads k).id_before)
    → cfg.has_volumes ≡ true
    → let seen = (Placement.placeable_on_backing_file out cfg app.id w).1 in
      let read = (list_volumes out app.id seen).0 in
      AddsOnly (IsWellPlaced out app read) w
      → AddsOnly (IsWellPlaced out app read) (Placement.fill out cfg app n failed w).1
fill-IsOnData out cfg app n failed w strict wired h = filled out cfg app n strict wired failed w h
