-- ===== src/Fleet/Availability/Placement.antt =====
-- The maps that RequireHAPlacement of internal/domain/fleet_availability.go builds from the candidates.
use runtime_service.Base.{
  ◌≡◌, ◌≢◌, refl, sym, ap, ◌∙◌, ◌⊎◌, inl, inr, Bool, true, false, List, [], ◌∷◌, Memᴰ, some_of,
  length, Text, text_eq, text_eq→eq, text_eq_refl, contains_text, Bool-cases, leb, ltb,
  if◌then◌else◌, arith,
}
use runtime_service.Errors.{ok}
use runtime_service.Fleet.Host.{Host}
use runtime_service.Fleet.Availability.{
  add_text, add_domain, domains_by_region, has_two, place_candidates,
}

-- The domains recorded for a region.
domains_of : Text → List (Text × List Text) → List Text
domains_of r [] = []
domains_of r ((s, ds) ∷ m) = if text_eq s r then ds else domains_of r m

-- No text stands twice.
abbrev Distinct : List Text → Type 0
Distinct [] = Unit
Distinct (t ∷ ts) = (contains_text t ts ≡ false) × Distinct ts

add_text-Distinct : (t : Text) (ts : List Text) → Distinct ts → Distinct (add_text t ts)
unfolding add_text
add_text-Distinct t ts d = ground arith

contains-add_text :
    (t u : Text) (ts : List Text)
    → contains_text u (add_text t ts) ≡ true
    → (u ≡ t) ⊎ (contains_text u ts ≡ true)
unfolding add_text
contains-add_text t u ts h = ground (arith, text_eq→eq t u)

add_text-contains : (t : Text) (ts : List Text) → contains_text t (add_text t ts) ≡ true
unfolding add_text
add_text-contains t ts = ground (arith, text_eq_refl t)

add_text-keeps :
    (t u : Text) (ts : List Text)
    → contains_text u ts ≡ true
    → contains_text u (add_text t ts) ≡ true
unfolding add_text
add_text-keeps t u ts h = ground arith

-- Every domain of a set is that of a host in the list, in that region.
abbrev Known : List Host → Text → List Text → Type 0
Known hs r ds =
    (d : Text)
    → contains_text d ds ≡ true
    → (h : Host) × Memᴰ h hs × (h.region ≡ r) × (h.failure_domain ≡ d)

-- Every recorded domain is that of a host in the list, and no region records one twice.
abbrev Recorded : List Host → List (Text × List Text) → Type 0
Recorded hs [] = Unit
Recorded hs ((r, ds) ∷ m) = Distinct ds × Known hs r ds × Recorded hs m

add_text-Known :
    (hs : List Host) (h : Host) (r : Text) (ds : List Text)
    → Memᴰ h hs
    → h.region ≡ r
    → Known hs r ds
    → Known hs r (add_text h.failure_domain ds)
add_text-Known hs h r ds held here known d c = elim (contains-add_text h.failure_domain d ds c) [
  | inl e ↦ (h, held, here, sym e)
  | inr old ↦ known d old
]

add_domain-Recorded :
    (hs : List Host) (h : Host) (m : List (Text × List Text))
    → Memᴰ h hs
    → Recorded hs m
    → Recorded hs (add_domain h.region h.failure_domain m)
unfolding add_domain
add_domain-Recorded hs h [] held rec = (
  add_text-Distinct h.failure_domain [] tt,
  add_text-Known hs h h.region [] held refl (λ d c. cc),
  tt,
)
add_domain-Recorded hs h ((r, ds) ∷ m) held (dist, known, rest) =
    elim (Bool-cases (text_eq r h.region)) [
      | inl e ↦ rw e (
        add_text-Distinct h.failure_domain ds dist,
        add_text-Known hs h r ds held (sym (text_eq→eq r h.region e)) known,
        rest,
      )
      | inr e ↦ rw e (dist, known, add_domain-Recorded hs h m held rest)
    ]

domains_by_region-Recorded :
    (hs ks : List Host) (m : List (Text × List Text))
    → ((h : Host) → Memᴰ h ks → Memᴰ h hs)
    → Recorded hs m
    → Recorded hs (domains_by_region ks m)
unfolding domains_by_region
domains_by_region-Recorded hs [] m sub rec = rec
domains_by_region-Recorded hs (k ∷ ks) m sub rec =
    domains_by_region-Recorded hs ks _ (λ h i. sub h (Memᴰ.tail i))
      (add_domain-Recorded hs k m (sub k (Memᴰ.head refl)) rec)

-- Whether a domain is recorded for a region.
abbrev has : Text → Text → List (Text × List Text) → Bool
has r d m = contains_text d (domains_of r m)

add_domain-has : (r d : Text) (m : List (Text × List Text)) → has r d (add_domain r d m) ≡ true
unfolding add_domain domains_of
add_domain-has r d [] = rw (text_eq_refl r) (add_text-contains d [])
add_domain-has r d ((s, ds) ∷ m) = elim (Bool-cases (text_eq s r)) [
  | inl e ↦ rw (e, domains_of, e) (add_text-contains d ds)
  | inr e ↦ rw (e, domains_of, e) (add_domain-has r d m)
]

add_domain-keeps :
    (r d r' d' : Text) (m : List (Text × List Text))
    → has r d m ≡ true
    → has r d (add_domain r' d' m) ≡ true
unfolding add_domain domains_of
add_domain-keeps r d r' d' [] h = cc
add_domain-keeps r d r' d' ((s, ds) ∷ m) h = elim (Bool-cases (text_eq s r')) [
  | inl e ↦ elim (Bool-cases (text_eq s r)) [
    | inl k ↦ rw (e, domains_of, k) (add_text-keeps d' d ds (rw (k, domains_of) at h))
    | inr k ↦ rw (e, domains_of, k) (rw (k, domains_of) at h)
  ]
  | inr e ↦ elim (Bool-cases (text_eq s r)) [
    | inl k ↦ rw (e, domains_of, k) (rw (k, domains_of) at h)
    | inr k ↦ rw (e, domains_of, k) (add_domain-keeps r d r' d' m (rw (k, domains_of) at h))
  ]
]

domains_by_region-keeps :
    (r d : Text) (ks : List Host) (m : List (Text × List Text))
    → has r d m ≡ true
    → has r d (domains_by_region ks m) ≡ true
unfolding domains_by_region
domains_by_region-keeps r d [] m h = h
domains_by_region-keeps r d (k ∷ ks) m h =
    domains_by_region-keeps r d ks _ (add_domain-keeps r d k.region k.failure_domain m h)

domains_by_region-has :
    (ks : List Host) (m : List (Text × List Text)) (h : Host)
    → Memᴰ h ks
    → has h.region h.failure_domain (domains_by_region ks m) ≡ true
unfolding domains_by_region
domains_by_region-has [] m h held = elim held [ ]
domains_by_region-has (k ∷ ks) m h (Memᴰ.head e) =
    domains_by_region-keeps h.region h.failure_domain ks _
      (rw e (add_domain-has k.region k.failure_domain m))
domains_by_region-has (k ∷ ks) m h (Memᴰ.tail held) =
    domains_by_region-has ks (add_domain k.region k.failure_domain m) h held

two_of_contains :
    (d e : Text) (ds : List Text)
    → contains_text d ds ≡ true
    → contains_text e ds ≡ true
    → d ≢ e
    → leb 2 (length ds) ≡ true
two_of_contains d e [] c k apart = cc
two_of_contains d e (x ∷ []) c k apart = absurd (ground (arith, text_eq→eq x d, text_eq→eq x e))
two_of_contains d e (x ∷ y ∷ ds) c k apart = ground arith

two_recorded :
    (r : Text) (m : List (Text × List Text))
    → leb 2 (length (domains_of r m)) ≡ true
    → some_of has_two m ≡ true
unfolding domains_of has_two
two_recorded r [] h = h
two_recorded r ((s, ds) ∷ m) h = elim (Bool-cases (text_eq s r)) [
  | inl e ↦ ground arith
  | inr e ↦ ground (arith, two_recorded r m)
]

-- Two hosts of the list, both candidates, of one region and two failure domains.
abbrev pub HasPair : List Host → Type 0
HasPair hosts =
    (h : Host) × (k : Host) × Memᴰ h hosts
    × Memᴰ k hosts
    × (h.region ≡ k.region)
    × (h.failure_domain ≢ k.failure_domain)

once : (d e : Text) (ds : List Text) → Distinct (d ∷ e ∷ ds) → d ≢ e
once d e ds dist same =
    let twice : text_eq e d ≡ true = rw same (text_eq_refl e) in absurd (ground arith)

pair_of_two :
    (hs : List Host) (m : List (Text × List Text))
    → Recorded hs m
    → some_of has_two m ≡ true
    → HasPair hs
unfolding has_two
pair_of_two hs [] rec h = cc
pair_of_two hs ((r, []) ∷ m) (dist, known, rest) h = pair_of_two hs m rest h
pair_of_two hs ((r, d ∷ []) ∷ m) (dist, known, rest) h = pair_of_two hs m rest h
pair_of_two hs ((r, d ∷ e ∷ ds) ∷ m) (dist, known, rest) h =
    let (x, hx, rx, dx) = known d (ground (arith, text_eq_refl d)) in
    let (y, hy, ry, dy) = known e (ground (arith, text_eq_refl e)) in
    (x, y, hx, hy, rx ∙ sym ry, λ same. once d e ds dist (sym dx ∙ same ∙ dy))

two_members :
    (hs : List Host) (h k : Host)
    → Memᴰ h hs
    → Memᴰ k hs
    → h.failure_domain ≢ k.failure_domain
    → ltb (length hs) 2 ≡ false
two_members [] h k i j apart = elim i [ ]
two_members (x ∷ []) h k (Memᴰ.head e) (Memᴰ.head f) apart =
    absurd (apart (ap (λ r. r.failure_domain) (e ∙ sym f)))
two_members (x ∷ []) h k (Memᴰ.head e) (Memᴰ.tail j) apart = elim j [ ]
two_members (x ∷ []) h k (Memᴰ.tail i) j apart = elim i [ ]
two_members (x ∷ y ∷ hs) h k i j apart = ground arith

pub place-pair :
    (hosts candidates : List Host) → place_candidates hosts candidates ≡ ok tt → HasPair candidates
unfolding place_candidates
place-pair hosts candidates h =
    pair_of_two candidates (domains_by_region candidates [])
      (domains_by_region-Recorded candidates candidates [] (λ k i. i) tt) (ground arith)

pub pair-place :
    (hosts candidates : List Host) → HasPair candidates → place_candidates hosts candidates ≡ ok tt
unfolding place_candidates
pair-place hosts candidates (h, k, i, j, same, apart) =
    let m : List (Text × List Text) = domains_by_region candidates [] in
    let first = domains_by_region-has candidates [] h i in
    let second = domains_by_region-has candidates [] k j in
    let two =
      two_of_contains h.failure_domain k.failure_domain (domains_of h.region m) first
        (rw same second) apart in
    rw (two_members candidates h k i j apart, two_recorded h.region m two)
