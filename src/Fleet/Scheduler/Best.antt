-- ===== src/Fleet/Scheduler/Best.antt =====
-- The host that SelectHost of internal/usecase/fleet_scheduler.go picks among the live hosts.
use runtime_service.Base.{
  ℕ, ◌≡◌, refl, ap, ◌↔◌, Bool, true, false, ==_iff, ◌≤ℤ◌, List, [], ◌∷◌, All, Memᴰ, Option, none,
  some, Text, text_eq→eq, text_eq_refl, arith,
}
use runtime_service.Errors.{Result, ok, bind-ok, ◌>>=◌}
use runtime_service.Fleet.Host.{Host}
use runtime_service.Fleet.Replica.{Replica}
use runtime_service.Fleet.Scheduler.{
  Candidate, Repositories, PlacementRequest, label_of, is_label, is_affine, labels_superset,
  is_affine_host, candidate_of, fits, candidates, select_host, sort_slice, strategy, first_id,
}
use runtime_service.Fleet.Scheduler.Choice.{
  IsStrict, IsLeastFirst, All-sort, sort-All, sort-IsLeastFirst, strategy-IsStrict,
}
use runtime_service.Fleet.Scheduler.Fit.{Passes, All-mem, candidates_sound, candidates_complete}

-- The pinned host, if one is pinned.
abbrev pub IsPinned : Option ℕ → ℕ → Type 0
IsPinned none id = Unit
IsPinned (some pinned) id = id ≡ pinned

-- Every label that is asked for, with its value.
abbrev pub HasLabels : List (Text × Text) → List (Text × Text) → Type 0
HasLabels have want = All (λ l. label_of l.0 have ≡ some l.1) want

module _ (repos : Repositories) (req : PlacementRequest) where
  -- The host meets the affinities, its replicas can be listed, and what they leave is enough.
  abbrev pub Takes : Host → Candidate → Type 0
  Takes h c =
      IsPinned req.affinity_host_id h.id
      × HasLabels h.labels req.affinity_labels
      × ((placed : List Replica) × (repos.list_by_host h.id ≡ ok placed)
          × (c ≡ candidate_of repos req h placed))
      × (req.need_vcpu ≤ℤ c.free_vcpu)
      × (req.need_mem_mb ≤ℤ c.free_mem_mb)
      × (req.need_disk_mb ≤ℤ h.capacity_disk_mb)

pub candidate_id :
    (repos : Repositories) (req : PlacementRequest) (h : Host) (placed : List Replica)
    → (candidate_of repos req h placed).host_id ≡ h.id
unfolding candidate_of
candidate_id repos req h placed = refl

affine_iff : (o : Option ℕ) (id : ℕ) → (is_affine o id ≡ true) ↔ IsPinned o id
affine_iff none id = (λ h. tt, λ h. refl)
affine_iff (some pinned) id = ==_iff id pinned

label_iff : (v : Text) (o : Option Text) → (is_label v o ≡ true) ↔ (o ≡ some v)
label_iff v none = (λ h. cc, λ h. cc)
label_iff v (some w) =
    (λ h. ap some (text_eq→eq w v h), λ h. let same : w ≡ v = cc in rw same (text_eq_refl v))

labels_iff :
    (have want : List (Text × Text)) → (labels_superset have want ≡ true) ↔ HasLabels have want
unfolding labels_superset
labels_iff have [] = (λ h. tt, λ h. refl)
labels_iff have ((k, v) ∷ want) =
    let one = label_iff v (label_of k have) in
    let rest = labels_iff have want in
    ((λ h. (one.0 (ground arith), rest.0 (ground arith))), (λ (h, hs). rw (one.1 h) (rest.1 hs)))

fits_iff :
    (repos : Repositories) (req : PlacementRequest) (h : Host) (c : Candidate)
    → (fits repos req h c ≡ true) ↔ (
        (req.need_vcpu ≤ℤ c.free_vcpu)
        × (req.need_mem_mb ≤ℤ c.free_mem_mb)
        × (req.need_disk_mb ≤ℤ h.capacity_disk_mb))
unfolding fits
fits_iff repos req h c = ground arith

taken_iff :
    (repos : Repositories) (req : PlacementRequest) (h : Host) (c : Candidate)
    → Passes repos req h c ↔ Takes repos req h c
unfolding is_affine_host
taken_iff repos req h c =
    let pin = affine_iff req.affinity_host_id h.id in
    let labels = labels_iff h.labels req.affinity_labels in
    let room = fits_iff repos req h c in
    (
      (λ (affine, from, fit).
          let (v, m, d) = room.0 fit in
          (pin.0 (ground arith), labels.0 (ground arith), from, v, m, d)),
      (λ (p, l, from, v, m, d). (rw (pin.1 p) (labels.1 l), from, room.1 (v, m, d))),
    )

select_parts :
    (repos : Repositories) (req : PlacementRequest) (id : ℕ)
    → select_host repos req ≡ ok id
    → (live : List Host) × (cs : List Candidate) × (repos.list_live ≡ ok live)
      × (candidates repos req live ≡ ok cs)
      × (first_id (sort_slice (strategy req.constraint repos.id_before) cs) ≡ ok id)
unfolding select_host
select_parts repos req id h =
    let pick : List Candidate → Result ℕ =
      λ cs. first_id (sort_slice (strategy req.constraint repos.id_before) cs) in
    let (live, listed, h') = bind-ok repos.list_live (λ l. candidates repos req l >>= pick) id h in
    let (cs, found, picked) = bind-ok (candidates repos req live) pick id h' in
    (live, cs, listed, found, picked)

first_of_sorted :
    (less : Candidate → Candidate → Bool) (cs : List Candidate) (id : ℕ)
    → first_id cs ≡ ok id
    → IsLeastFirst less cs
    → (c : Candidate) × (c.host_id ≡ id)
      × ((P : Candidate → Type 0) → All P cs → P c)
      × All (λ d. less d c ≡ false) cs
first_of_sorted less [] id h least = cc
first_of_sorted less (c ∷ cs) id h least = (c, cc, (λ P all. all.0), least)

module _ (repos : Repositories) (req : PlacementRequest) (strict : IsStrict repos.id_before) where
  abbrev less : Candidate → Candidate → Bool
  less = strategy req.constraint repos.id_before

  -- If the order of the ids' texts is strict, a host that SelectHost returns is a live host that meets
  -- the affinities and has room for the request, and no live host that does so is before it in the
  -- order of the request's strategy.
  pub select_host_best :
      (id : ℕ)
      → select_host repos req ≡ ok id
      → (live : List Host) × (c : Candidate) × (repos.list_live ≡ ok live)
        × (c.host_id ≡ id)
        × ((h : Host) × Memᴰ h live × Takes repos req h c)
        × ((k : Host) (d : Candidate) → Memᴰ k live → Takes repos req k d → less d c ≡ false)
  select_host_best id h =
      let (live, cs, listed, found, picked) = select_parts repos req id h in
      let sorted : List Candidate = sort_slice less cs in
      let (c, named, at_first, least) =
        first_of_sorted less sorted id picked
          (sort-IsLeastFirst less (strategy-IsStrict repos.id_before strict req.constraint) cs) in
      let (host, held, passes) =
        at_first _ (All-sort less _ cs (candidates_sound repos req live cs found)) in
      let none_before = sort-All less (λ d. less d c ≡ false) cs least in
      (
        live,
        c,
        listed,
        named,
        (host, held, (taken_iff repos req host c).0 passes),
        λ k d m t.
            All-mem (λ e. less e c ≡ false) cs none_before d
              (candidates_complete repos req live cs found k d m ((taken_iff repos req k d).1 t)),
      )
