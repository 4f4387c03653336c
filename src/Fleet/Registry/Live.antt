-- ===== src/Fleet/Registry/Live.antt =====
-- The hosts that ListLive of internal/usecase/fleet_host_registry.go returns.
use runtime_service.Base.{
  ◌≡◌, refl, ◌↔◌, inl, inr, true, false, ℤ, ◌-ℤ◌, ◌≤ℤ◌, List, Option, none, some, Memᴰ, Bool-cases,
  select, select_sound, select_complete, arith,
}
use runtime_service.Errors.{ok}
use runtime_service.Fleet.Host.{HostHealth, healthy, active, Host}
use runtime_service.Fleet.Registry.{Stores, is_healthy, is_fresh, is_live, list_live}

-- Healthy, with a heartbeat at the cutoff or after it.
abbrev pub IsLive : ℤ → Host → Type 0
IsLive cutoff h = (h.health ≡ healthy) × ((t : ℤ) × (h.last_heartbeat ≡ some t) × (cutoff ≤ℤ t))

healthy_iff : (k : HostHealth) → (is_healthy k ≡ true) ↔ (k ≡ healthy)
healthy_iff k = ground arith

fresh_iff :
    (cutoff : ℤ) (o : Option ℤ)
    → (is_fresh cutoff o ≡ true) ↔ ((t : ℤ) × (o ≡ some t) × (cutoff ≤ℤ t))
fresh_iff cutoff none = (λ h. cc, λ (t, e, _). cc)
fresh_iff cutoff (some u) =
    (λ h. (u, refl, ground arith), λ (t, e, old). let same : u ≡ t = cc in rw same (ground arith))

is_live-IsLive : (cutoff : ℤ) (h : Host) → (is_live cutoff h ≡ true) ↔ IsLive cutoff h
unfolding is_live
is_live-IsLive cutoff h = (
  (λ live. elim (Bool-cases (is_healthy h.health)) [
    | inl good ↦
        ((healthy_iff h.health).0 good, (fresh_iff cutoff h.last_heartbeat).0 (rw good at live))
    | inr bad ↦ let no : false ≡ true = rw bad at live in cc
  ]),
  (λ (good, fresh).
      rw ((healthy_iff h.health).1 good) ((fresh_iff cutoff h.last_heartbeat).1 fresh)),
)

-- If the hosts of status active can be listed, ListLive succeeds, and a host is in its answer exactly
-- when it is one of them, is healthy, and has a heartbeat no older than the staleness.
list_live_exact :
    (stores : Stores) (now staleness : ℤ) (hosts : List Host)
    → stores.list_by_status active ≡ ok hosts
    → (live : List Host) × (list_live stores now staleness ≡ ok live)
      × ((h : Host) → Memᴰ h live ↔ (Memᴰ h hosts × IsLive (now -ℤ staleness) h))
unfolding list_live
list_live_exact stores now staleness hosts listed =
    let test = is_live (now -ℤ staleness) in
    (
      select test hosts,
      rw listed refl,
      λ h. (
        (λ m.
            let (from, live) = select_sound test hosts h m in
            (from, (is_live-IsLive (now -ℤ staleness) h).0 live)),
        (λ (from, live).
            select_complete test hosts h from ((is_live-IsLive (now -ℤ staleness) h).1 live)),
      ),
    )
