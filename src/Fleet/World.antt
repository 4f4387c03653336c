-- ===== src/Fleet/World.antt =====
-- What the fleet's use cases run in: the tables that all hosts share, what the driver, the secret
-- resolver and the scheduler's reads answer, and the record of what this process did.
-- internal/repository/postgres/fleet_app_repository.go, fleet_replica_repository.go and
-- fleet_volume_repository.go are the operations on the tables.
mod Types
pub mod Keeps
pub mod Fence
pub mod Succeeds
use runtime_service.Base.{
  ℕ, suc, Bool, true, false, not, ◌==◌, if◌then◌else◌, ℤ, leb_ℤ, List, [], ◌∷◌, ◌++◌, Option, none,
  some, Text, first, select,
}
use runtime_service.Errors.{
  Err, fleet, fleet_app_not_found, replica_not_found, external, Result, ok, err,
}
use runtime_service.Fleet.Replica.{FleetApp, Replica, ReplicaState}
use runtime_service.Fleet.Volume.{Volume, points_to}
use runtime_service.Fleet.Scheduler.{Repositories}
pub use Types.*

abbrev pub M : Type 0 → Type 0
M A = World → Result A × World

infixl 5 ◌>>=◌ ◌>>◌
abbrev pub ◌>>=◌ : {A B : Type 0} → M A → (A → M B) → M B
◌>>=◌ m f w = let (r, w') = m w in elim r [ ok a ↦ f a w' | err e ↦ (err e, w') ]

abbrev pub ◌>>◌ : {A B : Type 0} → M A → M B → M B
m >> n = m >>= λ _. n

abbrev pub lift : {A : Type 0} → Result A → M A
lift r w = (r, w)

abbrev pub pure : {A : Type 0} → A → M A
pure a w = (ok a, w)

-- `x, err := m`: the error is a value that the code looks at.
abbrev pub attempt : {A : Type 0} → M A → M (Result A)
attempt m w = let (r, w') = m w in (ok r, w')

abbrev pub note : Event → M (Unit {0})
note e w = (ok tt, record w { log = e ∷ w.log })

-- A question to the world outside the tables.
abbrev pub ask : {A : Type 0} → (ℕ → A) → M A
ask f w = (ok (f w.calls), record w { calls = suc w.calls })

abbrev pub query : {A : Type 0} → (ℕ → Result A) → M A
query f w = (f w.calls, record w { calls = suc w.calls })

-- `for _, x := range xs { if err := f(x); err != nil { return err } }`.
unfoldable pub each : {A : Type 0} → (A → M (Unit {0})) → List A → M (Unit {0})
each f [] = pure tt
each f (x ∷ xs) = do f x; each f xs

-- ORDER BY created_at ASC.
unfoldable pub insert_by_age : Replica → List Replica → List Replica
insert_by_age r [] = r ∷ []
insert_by_age r (s ∷ ss) =
    let later = s ∷ insert_by_age r ss in
    if leb_ℤ r.created_at s.created_at then r ∷ s ∷ ss else later

unfoldable pub by_age : List Replica → List Replica
by_age [] = []
by_age (r ∷ rs) = insert_by_age r (by_age rs)

pub insert_volume : Volume → List Volume → List Volume
insert_volume v [] = v ∷ []
insert_volume v (u ∷ us) =
    let later = u ∷ insert_volume v us in
    if leb_ℤ v.created_at u.created_at then v ∷ u ∷ us else later

pub volumes_by_age : List Volume → List Volume
volumes_by_age [] = []
volumes_by_age (v ∷ vs) = insert_volume v (volumes_by_age vs)

-- Save of the ORM: the row with the id is replaced, or the row is added.
unfoldable pub save_replica : Replica → List Replica → List Replica
save_replica r [] = r ∷ []
save_replica r (s ∷ ss) = if s.id == r.id then r ∷ ss else s ∷ save_replica r ss

pub save_volume : Volume → List Volume → List Volume
save_volume v [] = v ∷ []
save_volume v (u ∷ us) = if u.id == v.id then v ∷ us else u ∷ save_volume v us

unfoldable pub save_app : FleetApp → List FleetApp → List FleetApp
save_app a [] = a ∷ []
save_app a (b ∷ bs) = if b.id == a.id then a ∷ bs else b ∷ save_app a bs

abbrev pub or_error : {A : Type 0} → Err → Option A → Result A
or_error e none = err e
or_error e (some a) = ok a

module _ (out : Outside) where
  -- A call of the database. The others come first; a call that fails changes nothing.
  unfoldable pub call : {A : Type 0} → (Tables → Result A × Tables) → M A
  call op w =
      let t = out.others w.calls w.tables in
      let (r, t') = op t in
      if out.fails w.calls
      then (err (external w.calls), record w { tables = t; calls = suc w.calls })
      else (r, record w { tables = t'; calls = suc w.calls })

  abbrev read : {A : Type 0} → (Tables → Result A) → M A
  read f = call (λ t. (f t, t))

  unfoldable pub find_app : ℕ → M FleetApp
  find_app id = read (λ t. or_error (fleet fleet_app_not_found) (first (λ a. a.id == id) t.apps))

  unfoldable pub list_apps : M (List FleetApp)
  list_apps = read (λ t. ok t.apps)

  unfoldable pub update_app : FleetApp → M (Unit {0})
  update_app a = do note (app_updated a); call (λ t. (ok tt, record t { apps = save_app a t.apps }))

  pub delete_app : ℕ → M (Unit {0})
  delete_app id = do
    note (app_deleted id)
    call (λ t. (ok tt, record t { apps = select (λ a. not (a.id == id)) t.apps }))

  pub find_replica : ℕ → M Replica
  find_replica id =
      read (λ t. or_error (fleet replica_not_found) (first (λ r. r.id == id) t.replicas))

  unfoldable pub list_replicas : ℕ → M (List Replica)
  list_replicas app = read (λ t. ok (by_age (select (λ r. r.app_id == app) t.replicas)))

  unfoldable pub list_by_host : ℕ → M (List Replica)
  list_by_host host = read (λ t. ok (by_age (select (λ r. points_to host r.host_id) t.replicas)))

  unfoldable pub create_replica : Replica → M (Unit {0})
  create_replica r = do
    note (created r)
    call (λ t. (ok tt, record t { replicas = t.replicas ++ r ∷ [] }))

  unfoldable pub update_replica : Replica → M (Unit {0})
  update_replica r = do
    note (updated r)
    call (λ t. (ok tt, record t { replicas = save_replica r t.replicas }))

  pub delete_replica : Replica → M (Unit {0})
  delete_replica r = do
    note (deleted r)
    call (λ t. (ok tt, record t { replicas = select (λ s. not (s.id == r.id)) t.replicas }))

  pub list_volumes : ℕ → M (List Volume)
  list_volumes app =
      read (λ t. ok (volumes_by_age (select (λ v. points_to app v.app_id) t.volumes)))

  pub update_volume : Volume → M (Unit {0})
  update_volume v = do
    note (volume_updated v)
    call (λ t. (ok tt, record t { volumes = save_volume v t.volumes }))

  pub delete_volume : Volume → M (Unit {0})
  delete_volume v = do
    note (volume_deleted v)
    call (λ t. (ok tt, record t { volumes = select (λ u. not (u.id == v.id)) t.volumes }))
