-- ===== src/Fleet/World/Fence.antt =====
-- What a host may do, of what the log can hold.
use runtime_service.Base.{ℕ, ◌≡◌, ◌⊎◌, Bool, Option, none, some}
use runtime_service.Fleet.Replica.{FleetApp, Replica, scheduled}
use runtime_service.Fleet.Volume.{Volume, degraded}
use runtime_service.Fleet.World.{
  World, Settings, BootInput, Event, created, updated, deleted, booted, torn_down, probed,
  reclaimed, volume_updated, volume_deleted, file_deleted, app_updated, app_deleted, routes_deleted,
}
use runtime_service.Fleet.World.Keeps.{Logged}

-- What a host may do: it writes, deletes, boots, tears down and probes only replicas that are placed on
-- it, writes only volumes that are pinned to it or marks them degraded, deletes only volumes that are
-- pinned to it, and adds only replicas that are scheduled and have no process.
abbrev pub IsFenced : ℕ → Event → Type 0
IsFenced self (created r) = (r.state ≡ scheduled) × (r.pid ≡ none)
IsFenced self (updated r) = r.host_id ≡ some self
IsFenced self (deleted r) = r.host_id ≡ some self
IsFenced self (booted app r vol input) = r.host_id ≡ some self
IsFenced self (torn_down r proved) = r.host_id ≡ some self
IsFenced self (probed r) = r.host_id ≡ some self
IsFenced self (reclaimed id) = Unit
IsFenced self (volume_updated v) = (v.host_affinity ≡ some self) ⊎ (v.status ≡ degraded)
IsFenced self (volume_deleted v) = v.host_affinity ≡ some self
IsFenced self (file_deleted v) = v.host_affinity ≡ some self
IsFenced self (app_updated app) = Unit
IsFenced self (app_deleted id) = Unit
IsFenced self (routes_deleted id) = Unit

-- What a predicate on events must allow for the acts of a host that is `self`: all but the adding, the
-- boot and the teardown of a replica.
pub record Permits (self : ℕ) (E : Event → Type 0) : Type 0 where
  pub update : (r : Replica) → r.host_id ≡ some self → E (updated r)
  pub delete : (r : Replica) → r.host_id ≡ some self → E (deleted r)
  pub probe : (r : Replica) → r.host_id ≡ some self → E (probed r)
  pub reclaim : (id : ℕ) → E (reclaimed id)
  pub change :
      (v : Volume) → (v.host_affinity ≡ some self) ⊎ (v.status ≡ degraded) → E (volume_updated v)
  pub drop : (v : Volume) → v.host_affinity ≡ some self → E (volume_deleted v)
  pub unlink : (v : Volume) → v.host_affinity ≡ some self → E (file_deleted v)
  pub save : (a : FleetApp) → E (app_updated a)
  pub remove : (id : ℕ) → E (app_deleted id)
  pub unroute : (id : ℕ) → E (routes_deleted id)

abbrev pub Tears : ℕ → (Event → Type 0) → Type 0
Tears self E = (r : Replica) (proved : Bool) → r.host_id ≡ some self → E (torn_down r proved)

abbrev pub Adds : (Event → Type 0) → Type 0
Adds E = (r : Replica) → r.state ≡ scheduled → r.pid ≡ none → E (created r)

pub IsFenced-Permits : (self : ℕ) → Permits self (IsFenced self)
IsFenced-Permits self = record {
  update = λ r h. h;
  delete = λ r h. h;
  probe = λ r h. h;
  reclaim = λ id. tt;
  change = λ v h. h;
  drop = λ v h. h;
  unlink = λ v h. h;
  save = λ a. tt;
  remove = λ id. tt;
  unroute = λ id. tt;
}

abbrev pub Fenced : Settings → World → Type 0
Fenced cfg = Logged (IsFenced cfg.self_host)

-- A predicate that says something only of the boot, the teardown and the adding of a replica.
abbrev pub Only :
    (FleetApp → Replica → Option Volume → BootInput → Type 0)
    → (Replica → Bool → Type 0)
    → (Replica → Type 0)
    → Event
    → Type 0
Only B T A (booted app r vol input) = B app r vol input
Only B T A (torn_down r proved) = T r proved
Only B T A (created r) = A r
Only B T A _ = Unit

pub Only-Permits :
    (self : ℕ) (B : FleetApp → Replica → Option Volume → BootInput → Type 0)
    (T : Replica → Bool → Type 0) (A : Replica → Type 0)
    → Permits self (Only B T A)
Only-Permits self B T A = record {
  update = λ r h. tt;
  delete = λ r h. tt;
  probe = λ r h. tt;
  reclaim = λ id. tt;
  change = λ v h. tt;
  drop = λ v h. tt;
  unlink = λ v h. tt;
  save = λ a. tt;
  remove = λ id. tt;
  unroute = λ id. tt;
}
