-- ===== src/Fleet/Volume/Affinity.antt =====
-- The host of an app's volumes.
use runtime_service.Base.{
  refl, ◌⊎◌, ◌∙◌, ℕ, ◌≡◌, ◌↔◌, inl, inr, true, ap, sym, subst, List, [], ◌∷◌, Option, none, some,
  All, Bool-cases, ==_iff, ==_refl, Option-cases,
}
use runtime_service.Errors.{ok}
use runtime_service.Fleet.Volume.{Volume, points_to, require_owned, agree_on, affinity_of}

-- The volume is pinned to the host.
abbrev pub IsPinned : ℕ → Volume → Type 0
IsPinned host v = v.host_affinity ≡ some host

pub points_to_iff : (host : ℕ) (o : Option ℕ) → (points_to host o ≡ true) ↔ (o ≡ some host)
points_to_iff host none = (λ h. cc, λ h. cc)
points_to_iff host (some n) =
    (λ h. rw ((==_iff n host).0 h), λ h. let same : n ≡ host = cc in rw same (==_refl host))

pub agree_on_iff :
    (host found : ℕ) (vs : List Volume)
    → (agree_on host vs ≡ ok (some found)) ↔ ((host ≡ found) × All (IsPinned host) vs)
unfolding agree_on
agree_on_iff host found [] = (λ h. (cc, tt), λ h. rw h.0)
agree_on_iff host found (v ∷ vs) = elim (Bool-cases (points_to host v.host_affinity)) [
  | inl e ↦
      let pinned = (points_to_iff host v.host_affinity).0 e in
      let rest = agree_on_iff host found vs in
      (
        λ h. let both = rest.0 (rw e at h) in (both.0, (pinned, both.1)),
        λ h. rw e (rest.1 (h.0, h.1.1)),
      )
  | inr e ↦ (
    λ h. let failed = (rw e at h) in cc,
    λ h. let hit = (points_to_iff host v.host_affinity).1 h.1.0 in cc,
  )
]

-- AffinityHost answers a host exactly when there are volumes and all of them are pinned to that host.
pub affinity_of_iff :
    (host : ℕ) (v : Volume) (vs : List Volume)
    → (affinity_of (v ∷ vs) ≡ ok (some host)) ↔ All (IsPinned host) (v ∷ vs)
unfolding affinity_of
affinity_of_iff host v vs = elim (Option-cases v.host_affinity) [
  | inl e ↦ (λ h. let failed = (rw e at h) in cc, λ h. let found = h.0 in cc)
  | inr (n, e) ↦
      let rest = agree_on_iff n host vs in
      (
        λ h.
            let both = rest.0 (rw e at h) in
            (rw e (ap some both.0), subst (λ (k : ℕ). All (IsPinned k) vs) both.0 both.1),
        λ h.
            let same : n ≡ host = cc in
            rw e (rest.1 (same, subst (λ (k : ℕ). All (IsPinned k) vs) (sym same) h.1)),
      )
]

agree_on_host :
    (host : ℕ) (vs : List Volume) (pinned : Option ℕ)
    → agree_on host vs ≡ ok pinned
    → pinned ≡ some host
unfolding agree_on
agree_on_host host [] pinned h = cc
agree_on_host host (v ∷ vs) pinned h = elim (Bool-cases (points_to host v.host_affinity)) [
  | inl e ↦ agree_on_host host vs pinned (rw e at h)
  | inr e ↦ let failed = (rw e at h) in cc
]

-- An answer of AffinityHost is the host of every volume, and a host unless there is no volume.
pub affinity_of-All :
    (vs : List Volume) (pinned : Option ℕ)
    → affinity_of vs ≡ ok pinned
    → (vs ≡ []) ⊎ ((host : ℕ) × (pinned ≡ some host) × All (IsPinned host) vs)
unfolding affinity_of
affinity_of-All [] pinned h = inl refl
affinity_of-All (v ∷ vs) pinned h = elim (Option-cases v.host_affinity) [
  | inl e ↦ let failed = (rw e at h) in cc
  | inr (n, e) ↦
      let agreed = (rw e at h) in
      let is_n : pinned ≡ some n = agree_on_host n vs pinned agreed in
      let at_n : agree_on n vs ≡ ok (some n) = agreed ∙ ap ok is_n in
      inr (n, is_n, (e, ((agree_on_iff n n vs).0 at_n).1))
]

pub require_owned-All :
    (self : ℕ) (vs : List Volume) → require_owned self vs ≡ ok tt → All (IsPinned self) vs
unfolding require_owned
require_owned-All self [] h = tt
require_owned-All self (v ∷ vs) h = elim (Bool-cases (points_to self v.host_affinity)) [
  | inl e ↦ ((points_to_iff self v.host_affinity).0 e, require_owned-All self vs (rw e at h))
  | inr e ↦ let failed = (rw e at h) in cc
]
