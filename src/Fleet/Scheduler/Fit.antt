-- ===== src/Fleet/Scheduler/Fit.antt =====
-- What SelectHost of internal/usecase/fleet_scheduler.go answers.
use runtime_service.Base.{
  ◌≡◌, refl, sym, ◌∙◌, inl, inr, ◌⊎◌, true, false, List, [], ◌∷◌, All, Memᴰ, subst, Bool-cases,
  if◌then◌else◌,
}
use runtime_service.Errors.{Result, ok, Result-cases}
use runtime_service.Fleet.Host.{Host}
use runtime_service.Fleet.Replica.{Replica}
use runtime_service.Fleet.Scheduler.{
  Candidate, Repositories, PlacementRequest, candidate_of, fits, is_affine_host, candidates,
}

module _ (repos : Repositories) (req : PlacementRequest) where
  -- The host takes the request: it meets the affinities, its replicas can be listed, and it fits.
  abbrev pub Passes : Host → Candidate → Type 0
  Passes h c =
      (is_affine_host repos req h ≡ true)
      × ((placed : List Replica) × (repos.list_by_host h.id ≡ ok placed)
          × (c ≡ candidate_of repos req h placed))
      × (fits repos req h c ≡ true)

  abbrev IsFrom : List Host → Candidate → Type 0
  IsFrom live c = (h : Host) × Memᴰ h live × Passes h c

  -- One round of the loop over the live hosts: the host is passed over, or looked up and tested.
  abbrev Round : Host → Result (List Candidate) → List Candidate → Type 0
  Round h rest cs =
      ((is_affine_host repos req h ≡ false) × (rest ≡ ok cs))
      ⊎ ((placed : List Replica) × (ds : List Candidate) × (is_affine_host repos req h ≡ true)
          × (repos.list_by_host h.id ≡ ok placed)
          × (rest ≡ ok ds)
          × (cs ≡ (
              if fits repos req h (candidate_of repos req h placed)
              then candidate_of repos req h placed ∷ ds
              else ds)))

  round :
      (h : Host) (hs : List Host) (cs : List Candidate)
      → candidates repos req (h ∷ hs) ≡ ok cs
      → Round h (candidates repos req hs) cs
  unfolding candidates
  round h hs cs e = elim (Bool-cases (is_affine_host repos req h)) [
    | inr other ↦ inl (other, rw other at e)
    | inl affine ↦ elim (Result-cases (repos.list_by_host h.id)) [
      | inr (x, bad) ↦ let failed = (rw (affine, bad) at e) in cc
      | inl (placed, listed) ↦ elim (Result-cases (candidates repos req hs)) [
        | inr (x, bad) ↦ let failed = (rw (affine, listed, bad) at e) in cc
        | inl (ds, done) ↦
            let found : ok (
                  if fits repos req h (candidate_of repos req h placed)
                  then candidate_of repos req h placed ∷ ds
                  else ds)
                ≡ ok cs =
              rw (affine, listed, done) at e in
            inr (placed, ds, affine, listed, done, cc)
      ]
    ]
  ]

  later-All :
      (h : Host) (hs : List Host) (cs : List Candidate)
      → All (IsFrom hs) cs
      → All (IsFrom (h ∷ hs)) cs
  later-All h hs [] all = tt
  later-All h hs (c ∷ cs) ((k, m, t), all) = ((k, Memᴰ.tail m, t), later-All h hs cs all)

  pub candidates_sound :
      (live : List Host) (cs : List Candidate)
      → candidates repos req live ≡ ok cs
      → All (IsFrom live) cs
  unfolding candidates
  candidates_sound [] cs e = let none_left : [] ≡ cs = cc in rw (← none_left) tt
  candidates_sound (h ∷ hs) cs e = elim (round h hs cs e) [
    | inl (other, done) ↦ later-All h hs cs (candidates_sound hs cs done)
    | inr (placed, ds, affine, listed, done, found) ↦
        let rest = later-All h hs ds (candidates_sound hs ds done) in
        elim (Bool-cases (fits repos req h (candidate_of repos req h placed))) [
          | inl fit ↦
              rw (found, fit) ((h, Memᴰ.head refl, (affine, (placed, listed, refl), fit)), rest)
          | inr small ↦ rw (found, small) rest
        ]
  ]

  head_complete :
      (h : Host) (rest : Result (List Candidate)) (cs : List Candidate) (c : Candidate)
      → Passes h c
      → Round h rest cs
      → Memᴰ c cs
  head_complete h rest cs c (affine, (placed, listed, same), fit) (inl (other, _)) =
      let clash : true ≡ false = sym affine ∙ other in cc
  head_complete h rest cs c (affine, (placed, listed, same), fit)
        (inr (placed', ds, _, listed', done, found)) =
      let both : placed' ≡ placed = cc in
      let fit' : fits repos req h (candidate_of repos req h placed') ≡ true =
        rw (both, ← same) fit in
      rw (found, fit') (Memᴰ.head (rw both same))

  tail_complete :
      (h : Host) (rest : Result (List Candidate)) (cs : List Candidate) (c : Candidate)
      → ((ds : List Candidate) → rest ≡ ok ds → Memᴰ c ds)
      → Round h rest cs
      → Memᴰ c cs
  tail_complete h rest cs c held (inl (other, done)) = held cs done
  tail_complete h rest cs c held (inr (placed, ds, affine, listed, done, found)) =
      elim (Bool-cases (fits repos req h (candidate_of repos req h placed))) [
        | inl fit ↦ rw (found, fit) (Memᴰ.tail (held ds done))
        | inr small ↦ rw (found, small) (held ds done)
      ]

  pub candidates_complete :
      (live : List Host) (cs : List Candidate)
      → candidates repos req live ≡ ok cs
      → (h : Host) (c : Candidate) → Memᴰ h live
      → Passes h c
      → Memᴰ c cs
  candidates_complete [] cs e h c m t = elim m [ ]
  candidates_complete (k ∷ hs) cs e h c (Memᴰ.head same) t =
      head_complete k _ cs c (subst (λ x. Passes x c) same t) (round k hs cs e)
  candidates_complete (k ∷ hs) cs e h c (Memᴰ.tail m) t =
      tail_complete k _ cs c (λ ds done. candidates_complete hs ds done h c m t) (round k hs cs e)

pub All-mem :
    (P : Candidate → Type 0) (cs : List Candidate) → All P cs → (c : Candidate) → Memᴰ c cs → P c
All-mem P [] all c m = elim m [ ]
All-mem P (d ∷ ds) all c (Memᴰ.head e) = subst P (sym e) all.0
All-mem P (d ∷ ds) all c (Memᴰ.tail m) = All-mem P ds all.1 c m
