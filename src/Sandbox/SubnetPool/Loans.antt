-- ===== src/Sandbox/SubnetPool/Loans.antt =====
-- The blocks on loan of internal/usecase/subnet_pool.go, after any history of the pool.
use runtime_service.Base.{
  ℕ, suc, ◌-◌, ◌≤◌, ◌<◌, ◌≡◌, refl, ◌∙◌, inl, inr, true, false, leb, List, [], ◌∷◌, All, ℤ, pos,
  negsuc, Option, none, some, Bool-cases, arith,
}
use native.Mathlib.Nat.{one-le-pow}
use runtime_service.Errors.{ok}
use runtime_service.Sandbox.SubnetPool.{
  Prefix, ip4, ip6, Subnet, SubnetPool, new_subnet_pool, slice, same, held, pick, acquire_new,
  reuse, acquire_from, acquire, release, Step, acquires, releases, step, run,
}
use runtime_service.Sandbox.SubnetPool.Blocks.{IsSized, IsParsed, slice-IsApart, new-IsSized}
use runtime_service.Sandbox.SubnetPool.Moves.{
  IsSplit, move-IsSplit, swap-IsSplit, held-pick, All-drop, All-put, All-held, disjoint-cons,
}

-- One of the blocks handed out so far.
abbrev pub IsBlock : SubnetPool → Subnet → Type 0
IsBlock p s = (i : ℕ) × (i < p.next) × (s ≡ slice p i)

-- The free blocks and the blocks on loan are the blocks handed out so far, each once.
abbrev pub IsValid : SubnetPool → Type 0
IsValid p =
    IsSized p
    × (p.next ≤ p.total)
    × All (IsBlock p) p.free
    × All (IsBlock p) p.taken
    × IsSplit p.free p.taken p.next

new_fields :
    (parsed : Option Prefix) (n : ℤ) (p : SubnetPool)
    → new_subnet_pool parsed n ≡ ok p
    → (p.next ≡ 0) × (p.free ≡ []) × (p.taken ≡ [])
unfolding new_subnet_pool
new_fields none n p h = cc
new_fields (some ip6) n p h = cc
new_fields (some (ip4 a b)) (negsuc n) p h = cc
new_fields (some (ip4 a b)) (pos n) p h = ground arith

pub new-IsValid :
    (parsed : Option Prefix) (n : ℤ) (p : SubnetPool)
    → IsParsed parsed
    → new_subnet_pool parsed n ≡ ok p
    → IsValid p
unfolding new_subnet_pool
new-IsValid parsed n p i h =
    let (next, free, taken) = new_fields parsed n p h in
    (
      new-IsSized parsed n p i h,
      rw next (omega arith),
      rw free tt,
      rw taken tt,
      rw (next, free, taken) (tt, tt, λ s. refl, refl),
    )

release-IsValid : (s : Subnet) (p : SubnetPool) → IsValid p → IsValid (release s p)
unfolding release slice
release-IsValid s p (sized, most, free, taken, split) = elim (Bool-cases (held s p.taken)) [
  | inr absent ↦ rw absent (sized, most, free, taken, split)
  | inl there ↦ rw there (
    sized,
    most,
    All-put (IsBlock p) s p.free (All-held (IsBlock p) s p.taken taken there) free,
    All-drop (IsBlock p) s p.taken taken,
    swap-IsSplit _ _ _ (move-IsSplit s p.taken p.free p.next (swap-IsSplit _ _ _ split) there),
  )
]

reuse-IsValid :
    (s : Subnet) (p : SubnetPool) → held s p.free ≡ true → IsValid p → IsValid (reuse p s).1
unfolding slice
reuse-IsValid s p there (sized, most, free, taken, split) = (
  sized,
  most,
  All-drop (IsBlock p) s p.free free,
  All-put (IsBlock p) s p.taken (All-held (IsBlock p) s p.free free there) taken,
  move-IsSplit s p.free p.taken p.next split there,
)

slice_other :
    (p : SubnetPool) (i : ℕ)
    → IsSized p
    → p.next < p.total
    → i < p.next
    → same (slice p p.next) (slice p i) ≡ false
slice_other p i sized room h =
    let apart = slice-IsApart p i p.next sized h room in
    let some_address = one-le-pow (32 - p.prefix) 2 (omega arith) in ground arith

pub slice_fresh :
    (p : SubnetPool) (ts : List Subnet)
    → IsSized p
    → p.next < p.total
    → All (IsBlock p) ts
    → held (slice p p.next) ts ≡ false
slice_fresh p [] sized room all = refl
slice_fresh p (t ∷ ts) sized room ((i, below, e), all) =
    rw (e, slice_other p i sized room below) (slice_fresh p ts sized room all)

later-All :
    (p q : SubnetPool) (ts : List Subnet)
    → ((i : ℕ) → slice p i ≡ slice q i)
    → p.next ≤ q.next
    → All (IsBlock p) ts
    → All (IsBlock q) ts
later-All p q [] h k all = tt
later-All p q (t ∷ ts) h k ((i, below, e), all) =
    ((i, omega arith, e ∙ h i), later-All p q ts h k all)

new_block-IsValid : (p : SubnetPool) → IsValid p → IsValid (acquire_new p).1
unfolding slice
new_block-IsValid p (sized, most, free, taken, (df, dt, apart, count)) =
    elim (Bool-cases (leb p.total p.next)) [
      | inl full ↦ rw full (sized, most, free, taken, (df, dt, apart, count))
      | inr room ↦
          let below : p.next < p.total = ground arith in
          let new_free = slice_fresh p p.free sized below free in
          let new_taken = slice_fresh p p.taken sized below taken in
          let q : SubnetPool = record p { next = suc p.next; taken = slice p p.next ∷ p.taken } in
          let q' : IsValid q = (
            sized,
            below,
            later-All p q p.free (λ i. refl) (omega arith) free,
            ((p.next, omega arith, refl), later-All p q p.taken (λ i. refl) (omega arith) taken),
            (
              df,
              (new_taken, dt),
              disjoint-cons (slice p p.next) p.free p.taken new_free apart,
              omega arith,
            ),
          ) in
          rw (room, new_taken) q'
    ]

acquire_from-IsValid :
    (order : ℕ) (p : SubnetPool) (ts : List Subnet)
    → p.free ≡ ts
    → IsValid p
    → IsValid (acquire_from order p ts).1
acquire_from-IsValid order p [] e v = new_block-IsValid p v
acquire_from-IsValid order p (s ∷ ts) e v =
    reuse-IsValid (pick order s ts) p (rw e (held-pick order s ts)) v

step-IsValid : (s : Step) (p : SubnetPool) → IsValid p → IsValid (step s p)
unfolding step acquire
step-IsValid (acquires order) p v = acquire_from-IsValid order p p.free refl v
step-IsValid (releases s) p v = release-IsValid s p v

pub run-IsValid : (ss : List Step) (p : SubnetPool) → IsValid p → IsValid (run ss p)
unfolding run
run-IsValid [] p v = v
run-IsValid (s ∷ ss) p v = run-IsValid ss (step s p) (step-IsValid s p v)
