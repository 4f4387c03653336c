-- ===== src/Fleet/Scheduler/Choice.antt =====
-- The first element of the sorted candidates of internal/usecase/fleet_scheduler.go comes before no other.
use runtime_service.Base.{
  ℕ, ◌≡◌, inl, inr, All, Bool, true, false, List, [], ◌∷◌, Bool-cases, arith,
}
use runtime_service.Fleet.Replica.{
  PlacementConstraint, spread, bin_pack, affinity, other_constraint,
}
use runtime_service.Fleet.Scheduler.{
  Candidate, spread_before, pack_before, insert_sorted, sort_slice, strategy,
}

-- A strict order, in which what is not before goes on to what is not before.
pub record IsStrict {ℓ} {A : Type ℓ} (before : A → A → Bool) : Type ℓ where
  pub asymmetric : (a b : A) → before a b ≡ true → before b a ≡ false
  pub negative : (a b c : A) → before a b ≡ false → before b c ≡ false → before a c ≡ false

module _ (less : Candidate → Candidate → Bool) (P : Candidate → Type 0) where
  pub All-insert :
      (c : Candidate) (ds : List Candidate) → P c → All P ds → All P (insert_sorted less c ds)
  unfolding insert_sorted
  All-insert c [] h k = (h, tt)
  All-insert c (d ∷ ds) h k = elim (Bool-cases (less d c)) [
    | inl e ↦ rw e (k.0, All-insert c ds h k.1)
    | inr e ↦ rw e (h, k)
  ]

  pub All-sort : (cs : List Candidate) → All P cs → All P (sort_slice less cs)
  unfolding sort_slice
  All-sort [] h = tt
  All-sort (c ∷ cs) h = All-insert c _ h.0 (All-sort cs h.1)

  insert-All :
      (c : Candidate) (ds : List Candidate) → All P (insert_sorted less c ds) → P c × All P ds
  unfolding insert_sorted
  insert-All c [] h = h
  insert-All c (d ∷ ds) h = elim (Bool-cases (less d c)) [
    | inl e ↦
        let later : P d × All P (insert_sorted less c ds) = rw e at h in
        let rest = insert-All c ds later.1 in (rest.0, (later.0, rest.1))
    | inr e ↦ rw e at h
  ]

  pub sort-All : (cs : List Candidate) → All P (sort_slice less cs) → All P cs
  unfolding sort_slice
  sort-All [] h = tt
  sort-All (c ∷ cs) h = let both = insert-All c _ h in (both.0, sort-All cs both.1)

-- No element comes before the first.
abbrev pub IsLeastFirst : (Candidate → Candidate → Bool) → List Candidate → Type 0
IsLeastFirst less [] = Unit
IsLeastFirst less (c ∷ cs) = All (λ d. less d c ≡ false) (c ∷ cs)

module _ (less : Candidate → Candidate → Bool) (strict : IsStrict less) where
  irreflexive : (c : Candidate) → less c c ≡ false
  irreflexive c = elim (Bool-cases (less c c)) [ inl e ↦ strict.asymmetric c c e | inr e ↦ e ]

  after_least :
      (c d : Candidate) (ds : List Candidate)
      → less d c ≡ false
      → All (λ e. less e d ≡ false) ds
      → All (λ e. less e c ≡ false) ds
  after_least c d [] h k = tt
  after_least c d (e ∷ ds) h k = (strict.negative e d c k.0 h, after_least c d ds h k.1)

  insert-IsLeastFirst :
      (c : Candidate) (ds : List Candidate)
      → IsLeastFirst less ds
      → IsLeastFirst less (insert_sorted less c ds)
  unfolding insert_sorted
  insert-IsLeastFirst c [] h = (irreflexive c, tt)
  insert-IsLeastFirst c (d ∷ ds) h = elim (Bool-cases (less d c)) [
    | inl e ↦ rw e (h.0, All-insert less (λ e. less e d ≡ false) c ds (strict.asymmetric d c e) h.1)
    | inr e ↦ rw e (irreflexive c, (e, after_least c d ds e h.1))
  ]

  pub sort-IsLeastFirst : (cs : List Candidate) → IsLeastFirst less (sort_slice less cs)
  unfolding sort_slice
  sort-IsLeastFirst [] = tt
  sort-IsLeastFirst (c ∷ cs) = insert-IsLeastFirst c _ (sort-IsLeastFirst cs)

module _ (before : ℕ → ℕ → Bool) (strict : IsStrict before) where
  spread-IsStrict : IsStrict (spread_before before)
  unfolding spread_before
  spread-IsStrict = record {
    asymmetric = λ a b h. ground (arith, strict.asymmetric a.host_id b.host_id);
    negative = λ a b c h k. ground (arith, strict.negative a.host_id b.host_id c.host_id);
  }

  pack-IsStrict : IsStrict (pack_before before)
  unfolding pack_before
  pack-IsStrict = record {
    asymmetric = λ a b h. ground (arith, strict.asymmetric a.host_id b.host_id);
    negative = λ a b c h k. ground (arith, strict.negative a.host_id b.host_id c.host_id);
  }

  -- Both strategies are strict orders if the order of the ids' texts is one.
  pub strategy-IsStrict : (c : PlacementConstraint) → IsStrict (strategy c before)
  strategy-IsStrict spread = spread-IsStrict
  strategy-IsStrict bin_pack = pack-IsStrict
  strategy-IsStrict affinity = pack-IsStrict
  strategy-IsStrict (other_constraint _) = pack-IsStrict
