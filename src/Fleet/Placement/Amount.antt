-- ===== src/Fleet/Placement/Amount.antt =====
-- How many replicas a placement adds.
use runtime_service.Base.{
  ℕ, zero, suc, ◌+◌, ◌≤◌, ◌≡◌, ◌≢◌, refl, ap, sym, subst, ◌⊎◌, inl, inr, List, [], ◌∷◌, Option,
  Bool-cases, arith,
}
use runtime_service.Errors.{Err, Result, Result-cases, ok, err}
use runtime_service.Fleet.Replica.{FleetApp, Replica}
use runtime_service.Fleet.Scheduler.{select_host}
use runtime_service.Fleet.World.{Outside, World, Settings, Event, created, M}
use runtime_service.Fleet.World.Keeps.{bind_eq, bind_err, create_replica-log}
use runtime_service.Fleet.Placement
use runtime_service.Fleet.Placement.{Placed, all_placed, deferred, request, strays, new_replica}

-- The replicas that the process added or tried to add.
abbrev pub additions : List Event → ℕ
additions [] = 0
additions (created r ∷ es) = suc (additions es)
additions (_ ∷ es) = additions es

-- At most n additions, and exactly n when all were placed.
abbrev pub IsWithin : ℕ → World → Result Placed × World → Type 0
IsWithin n w (r, w') =
    (additions w'.log ≤ additions w.log + n)
    × (r ≡ ok all_placed → additions w'.log ≡ additions w.log + n)

module _ (out : Outside) (cfg : Settings) (app : FleetApp) (pinned : Option ℕ) where
  -- One host: nothing is added and it fails, or one replica is added.
  place_on-log :
      (host : ℕ) (w : World)
      → (((Placement.place_on out cfg app pinned host w).1.log ≡ w.log)
          × ((Placement.place_on out cfg app pinned host w).0 ≢ ok tt))
        ⊎ ((r : Replica) × ((Placement.place_on out cfg app pinned host w).1.log
              ≡ created r ∷ w.log))
  unfolding Placement.place_on
  place_on-log host w = elim (Bool-cases (strays pinned host)) [
    | inl e ↦ rw e (inl (refl, λ h. cc))
    | inr e ↦ rw e (
        inr (
          new_replica app host (out.new_id (suc w.calls)) (out.now w.calls),
          create_replica-log out _ (record w { calls = suc (suc w.calls) }),
        ))
  ]

  after_one :
      (n host : ℕ) (w : World) (end : Result Placed × World) (done : Unit {0})
      → (Placement.place_on out cfg app pinned host w).0 ≡ ok done
      → IsWithin n (Placement.place_on out cfg app pinned host w).1 end
      → IsWithin (suc n) w end
  after_one n host w end done e h = elim (place_on-log host w) [
    | inl (same, fails) ↦ absurd (fails e)
    | inr (r, logged) ↦
        let grown : additions (Placement.place_on out cfg app pinned host w).1.log
            ≡ suc (additions w.log) =
          ap additions logged in
        (omega (arith, grown, h.0), λ k. omega (arith, grown, h.1 k))
  ]

  after_failure :
      (n host : ℕ) (w : World) (e : Err)
      → IsWithin (suc n) w (err e, (Placement.place_on out cfg app pinned host w).1)
  after_failure n host w e = elim (place_on-log host w) [
    | inl (same, fails) ↦ let kept = ap additions same in (omega (arith, kept), λ k. cc)
    | inr (r, logged) ↦
        let grown : additions (Placement.place_on out cfg app pinned host w).1.log
            ≡ suc (additions w.log) =
          ap additions logged in
        (omega (arith, grown), λ k. cc)
  ]

  place_next-IsWithin :
      (n : ℕ) (rest : M Placed) (selected : Result ℕ) (w : World)
      → ((v : World) → IsWithin n v (rest v))
      → IsWithin (suc n) w (Placement.place_next out cfg rest app pinned selected w)
  unfolding Placement.place_next
  place_next-IsWithin n rest (err e) w h = elim (Bool-cases (Placement.is_no_host e)) [
    | inl none_fits ↦ rw none_fits (omega arith, λ k. cc)
    | inr other ↦ rw other (omega arith, λ k. cc)
  ]
  place_next-IsWithin n rest (ok host) w h =
      let on : M (Unit {0}) = Placement.place_on out cfg app pinned host in
      elim (Result-cases (on w).0) [
        | inl (done, e) ↦
            subst (IsWithin (suc n) w) (sym (bind_eq on (λ _. rest) w done e))
              (after_one n host w (rest (on w).1) done e (h (on w).1))
        | inr (e, failed) ↦
            subst (IsWithin (suc n) w) (sym (bind_err on (λ _. rest) w e failed))
              (after_failure n host w e)
      ]

  place-IsWithin : (n : ℕ) (w : World) → IsWithin n w (Placement.place out cfg app pinned n w)
  unfolding Placement.place
  place-IsWithin zero w = (omega arith, λ k. omega arith)
  place-IsWithin (suc n) w =
      place_next-IsWithin n (λ v. Placement.place out cfg app pinned n v)
        (select_host (out.reads w.calls) (request app pinned)) (record w { calls = suc w.calls })
        (place-IsWithin n)

-- Whatever other processes do and whichever calls fail, a placement of n replicas adds, or tries to add, at
-- most n, and exactly n when it ends with all of them placed.
place_amount :
    (out : Outside) (cfg : Settings) (app : FleetApp) (pinned : Option ℕ) (n : ℕ) (w : World)
    → IsWithin n w (Placement.place out cfg app pinned n w)
place_amount out cfg app pinned n w = place-IsWithin out cfg app pinned n w
