-- ===== src/Fleet/Scheduler.antt =====
-- internal/usecase/fleet_scheduler.go. The live hosts, the replicas of a host and the apps come from
-- the repositories, as values that a call may replace by an error.
pub mod Choice
mod Tests
mod Fit
pub mod Best
use runtime_service.Base.{
  ℕ, Bool, true, false, not, ◌&&◌, ◌||◌, ◌==◌, suc, ltb, if◌then◌else◌, ℤ, pos, ◌+ℤ◌, ◌-ℤ◌, ltb_ℤ,
  eq_ℤ, wrap, List, [], ◌∷◌, Option, none, some, Text, text_eq, some_of,
}
use runtime_service.Errors.{Err, fleet, no_schedulable_host, Result, ok, err, ◌>>=◌}
use runtime_service.Fleet.Host.{Host}
use runtime_service.Fleet.Replica.{
  ReplicaState, scheduled, booting, resident, paused, Replica, FleetApp, PlacementConstraint,
  bin_pack, spread, other_constraint,
}

pub record PlacementRequest : Type 0 where
  pub app_id : ℕ
  pub need_vcpu : ℤ
  pub need_mem_mb : ℤ
  pub need_disk_mb : ℤ
  pub constraint : PlacementConstraint
  pub affinity_host_id : Option ℕ
  pub affinity_labels : List (Text × Text)

unfoldable pub occupying_state : ReplicaState → Bool
occupying_state scheduled = true
occupying_state booting = true
occupying_state resident = true
occupying_state paused = true
occupying_state _ = false

pub record Candidate : Type 0 where
  pub host_id : ℕ
  pub free_vcpu : ℤ
  pub free_mem_mb : ℤ
  pub app_replica : ℕ

-- What the repositories answer, and the order of the ids' texts (uuid.UUID.String).
pub record Repositories : Type 0 where
  pub list_live : Result (List Host)
  pub list_by_host : ℕ → Result (List Replica)
  pub find_app : ℕ → Result FleetApp
  pub id_before : ℕ → ℕ → Bool

abbrev pub label_of : Text → List (Text × Text) → Option Text
label_of k [] = none
label_of k ((j, v) ∷ m) = if text_eq j k then some v else label_of k m

abbrev pub is_label : Text → Option Text → Bool
is_label v none = false
is_label v (some w) = text_eq w v

unfoldable pub labels_superset : List (Text × Text) → List (Text × Text) → Bool
labels_superset have [] = true
labels_superset have ((k, v) ∷ want) = is_label v (label_of k have) && labels_superset have want

-- The resources of one unit of an app; a missing app counts as 0.
abbrev pub resources_of : Result FleetApp → ℤ × ℤ
resources_of (err _) = (pos 0, pos 0)
resources_of (ok app) = (app.resources_vcpu, app.resources_mem_mb)

pub record Usage : Type 0 where
  pub used_vcpu : ℤ
  pub used_mem_mb : ℤ
  pub app_replicas : ℕ

abbrev pub is_affine : Option ℕ → ℕ → Bool
is_affine none id = true
is_affine (some h) id = id == h

-- The tie-breaks of the two strategies.
pub spread_before : (ℕ → ℕ → Bool) → Candidate → Candidate → Bool
spread_before before a b =
    if not (a.app_replica == b.app_replica)
    then ltb a.app_replica b.app_replica
    else if not (eq_ℤ a.free_vcpu b.free_vcpu)
    then ltb_ℤ b.free_vcpu a.free_vcpu
    else before a.host_id b.host_id

pub pack_before : (ℕ → ℕ → Bool) → Candidate → Candidate → Bool
pack_before before a b =
    if not (eq_ℤ a.free_vcpu b.free_vcpu)
    then ltb_ℤ a.free_vcpu b.free_vcpu
    else if not (eq_ℤ a.free_mem_mb b.free_mem_mb)
    then ltb_ℤ a.free_mem_mb b.free_mem_mb
    else before a.host_id b.host_id

-- sort.Slice, as an insertion sort; only the first element is read.
unfoldable pub insert_sorted :
    (Candidate → Candidate → Bool) → Candidate → List Candidate → List Candidate
insert_sorted less c [] = c ∷ []
insert_sorted less c (d ∷ ds) =
    let later = d ∷ insert_sorted less c ds in if less d c then later else c ∷ d ∷ ds

unfoldable pub sort_slice : (Candidate → Candidate → Bool) → List Candidate → List Candidate
sort_slice less [] = []
sort_slice less (c ∷ cs) = insert_sorted less c (sort_slice less cs)

abbrev pub strategy : PlacementConstraint → (ℕ → ℕ → Bool) → Candidate → Candidate → Bool
strategy spread = spread_before
strategy _ = pack_before

abbrev pub first_id : List Candidate → Result ℕ
first_id [] = err (fleet no_schedulable_host)
first_id (c ∷ _) = ok c.host_id

module _ (repos : Repositories) (req : PlacementRequest) where
  -- The occupying replicas placed on a host, added up in order.
  unfoldable pub usage : Usage → List Replica → Usage
  usage u [] = u
  usage u (r ∷ rs) =
      let (vcpu, mem) = resources_of (repos.find_app r.app_id) in
      let u' : Usage = record {
        used_vcpu = wrap (u.used_vcpu +ℤ vcpu);
        used_mem_mb = wrap (u.used_mem_mb +ℤ mem);
        app_replicas = if r.app_id == req.app_id then suc u.app_replicas else u.app_replicas;
      } in
      usage (if occupying_state r.state then u' else u) rs

  unfoldable pub candidate_of : Host → List Replica → Candidate
  candidate_of h placed =
      let u = usage (record { used_vcpu = pos 0; used_mem_mb = pos 0; app_replicas = 0 }) placed in
      record {
        host_id = h.id;
        free_vcpu = wrap (h.capacity_vcpu -ℤ u.used_vcpu);
        free_mem_mb = wrap (h.capacity_mem_mb -ℤ u.used_mem_mb);
        app_replica = u.app_replicas;
      }

  unfoldable pub fits : Host → Candidate → Bool
  fits h c = not (
      ltb_ℤ c.free_vcpu req.need_vcpu
      || ltb_ℤ c.free_mem_mb req.need_mem_mb
      || ltb_ℤ h.capacity_disk_mb req.need_disk_mb)

  unfoldable pub is_affine_host : Host → Bool
  is_affine_host h =
      is_affine req.affinity_host_id h.id && labels_superset h.labels req.affinity_labels

  -- The loop over the live hosts.
  unfoldable pub candidates : List Host → Result (List Candidate)
  candidates [] = ok []
  candidates (h ∷ hs) =
      let rest = candidates hs in
      let looked_up = do
        placed ← repos.list_by_host h.id
        cs ← rest
        let c = candidate_of h placed
        ok (if fits h c then c ∷ cs else cs)
      in if is_affine_host h then looked_up else rest

  unfoldable pub select_host : Result ℕ
  select_host = do
    live ← repos.list_live
    cs ← candidates live
    first_id (sort_slice (strategy req.constraint repos.id_before) cs)

pub is_host_live : Repositories → ℕ → Result Bool
is_host_live repos host = do live ← repos.list_live; ok (some_of (λ h. h.id == host) live)
