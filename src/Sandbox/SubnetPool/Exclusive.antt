-- ===== src/Sandbox/SubnetPool/Exclusive.antt =====
-- What Acquire of internal/usecase/subnet_pool.go hands out, after any history of the pool.
use runtime_service.Base.{
  ap, sym, subst, ◌∙◌, ◌^◌, ◌-◌, ◌||◌, ltb, pos, some, ℕ, suc, ◌+◌, ◌*◌, ◌≤◌, ◌<◌, ◌≡◌, refl, ◌↔◌,
  ◌⊎◌, inl, inr, true, false, leb, List, [], ◌∷◌, length, All, ℤ, Option, Bool-cases, arith, dec_lt,
}
use native.Mathlib.Nat.{mul-le-mul_right}
use runtime_service.Errors.{domain, node_runner_busy, Result, ok, err}
use runtime_service.Sandbox.SubnetPool.{
  Prefix, Subnet, SubnetPool, new_subnet_pool, slice, same, held, pick, acquire_new, acquire_from,
  acquire, release, ip4, Step, acquires, releases, step, run,
}
use runtime_service.Sandbox.SubnetPool.Blocks.{
  block_size, IsSized, IsApart, IsParsed, slice_addr, slice-IsApart,
}
use runtime_service.Sandbox.SubnetPool.Moves.{held-pick, All-held}
use runtime_service.Sandbox.SubnetPool.Loans.{
  IsBlock, IsValid, slice_fresh, new-IsValid, run-IsValid,
}

-- The block lies in the base range.
abbrev pub IsInside : SubnetPool → Subnet → Type 0
IsInside p s =
    (p.base.addr ≤ s.addr) × (s.addr + block_size p ≤ p.base.addr + p.total * block_size p)

abbrev IsOf : SubnetPool → Subnet → Type 0
IsOf p s = (i : ℕ) × (i < p.total) × (s ≡ slice p i)

step_up : (i n m : ℕ) → i < n → i * m + m ≤ n * m
step_up i n m h = omega (arith, mul-le-mul_right m h)

of-IsInside : (p : SubnetPool) (s : Subnet) → IsSized p → IsOf p s → IsInside p s
of-IsInside p s sized (i, h, e) =
    let at = slice_addr p i sized h in
    rw e (omega arith, omega (arith, step_up i p.total (block_size p) h))

order_cases :
    (p : SubnetPool) (i j : ℕ)
    → IsSized p
    → i < p.total
    → j < p.total
    → IsApart (block_size p) (slice p i) (slice p j) ⊎ (i ≡ j)
order_cases p i j sized h k = elim (dec_lt i j) [
  | yes low ↦ inl (slice-IsApart p i j sized low k)
  | no high ↦ elim (dec_lt j i) [
    | yes up ↦ let apart = slice-IsApart p j i sized up h in inl (ground arith)
    | no level ↦ inr (omega arith)
  ]
]

same_refl : (s : Subnet) → same s s ≡ true
same_refl s = ground arith

different-IsApart :
    (p : SubnetPool) (s t : Subnet)
    → IsSized p
    → IsOf p s
    → IsOf p t
    → same s t ≡ false
    → IsApart (block_size p) s t
different-IsApart p s t sized (i, h, e) (j, k, d) other = elim (order_cases p i j sized h k) [
  | inl apart ↦ rw (e, d) apart
  | inr level ↦
      let equal : s ≡ t = rw (e, d, level) refl in
      let clash : same s t ≡ true = rw equal (same_refl t) in cc
]

blocks-IsApart :
    (p : SubnetPool) (s : Subnet) (ts : List Subnet)
    → IsSized p
    → p.next ≤ p.total
    → IsOf p s
    → held s ts ≡ false
    → All (IsBlock p) ts
    → All (IsApart (block_size p) s) ts
blocks-IsApart p s [] sized most b h all = tt
blocks-IsApart p s (t ∷ ts) sized most b h ((i, below, e), all) = (
  different-IsApart p s t sized b (i, omega arith, e) (ground arith),
  blocks-IsApart p s ts sized most b (ground arith) all,
)

-- In the base range, and apart from every block on loan.
abbrev pub IsExclusive : SubnetPool → Subnet → Type 0
IsExclusive p s = IsInside p s × All (IsApart (block_size p) s) p.taken

of-IsExclusive :
    (p : SubnetPool) (s : Subnet) → IsValid p → IsOf p s → held s p.taken ≡ false → IsExclusive p s
of-IsExclusive p s (sized, most, free, taken, split) b h =
    (of-IsInside p s sized b, blocks-IsApart p s p.taken sized most b h taken)

new-IsExclusive :
    (p : SubnetPool) (s : Subnet) → IsValid p → (acquire_new p).0 ≡ ok s → IsExclusive p s
new-IsExclusive p s v h = elim (Bool-cases (leb p.total p.next)) [
  | inl full ↦ let refused = (rw full at h) in cc
  | inr room ↦
      let made : ok (slice p p.next) ≡ ok s = rw room at h in
      let below : p.next < p.total = ground arith in
      let e : slice p p.next ≡ s = cc in
      rw (← e) (
        of-IsExclusive p (slice p p.next) v (p.next, below, refl)
          (slice_fresh p p.taken v.0 below v.3))
]

from-IsExclusive :
    (order : ℕ) (p : SubnetPool) (ts : List Subnet) (s : Subnet)
    → p.free ≡ ts
    → IsValid p
    → (acquire_from order p ts).0 ≡ ok s
    → IsExclusive p s
from-IsExclusive order p [] s e v h = new-IsExclusive p s v h
from-IsExclusive order p (t ∷ ts) s e v h =
    let picked : pick order t ts ≡ s = cc in
    let there : held s p.free ≡ true = rw (← picked, e) (held-pick order t ts) in
    let (sized, most, free, taken, (df, dt, apart, count)) = v in
    let (i, below, block) = All-held (IsBlock p) s p.free free there in
    of-IsExclusive p s v (i, omega arith, block) (ground (arith, apart s))

busy_from :
    (order : ℕ) (p : SubnetPool) (ts : List Subnet)
    → p.free ≡ ts
    → IsValid p
    → ((acquire_from order p ts).0 ≡ err (domain node_runner_busy)) ↔ (length p.taken ≡ p.total)
busy_from order p [] e (sized, most, free, taken, (df, dt, apart, count)) =
    let count' : length p.taken ≡ p.next = let c = (rw e at count) in omega arith in ground arith
busy_from order p (t ∷ ts) e (sized, most, free, taken, (df, dt, apart, count)) =
    let count' : suc (length ts) + length p.taken ≡ p.next = rw e at count in
    (λ h. cc, λ h. absurd (omega arith))

-- After any history of a new pool of a parsed range, in any order of its free map: a subnet that Acquire hands out lies in
-- the pool's range and has no address in common with any subnet that is on loan.
pub acquire-IsExclusive :
    (parsed : Option Prefix) (n : ℤ) (p : SubnetPool) (ss : List Step) (order : ℕ) (s : Subnet)
    → IsParsed parsed
    → new_subnet_pool parsed n ≡ ok p
    → (acquire order (run ss p)).0 ≡ ok s
    → IsExclusive (run ss p) s
unfolding acquire
acquire-IsExclusive parsed n p ss order s i made h =
    let q : SubnetPool = run ss p in
    from-IsExclusive order q q.free s refl (run-IsValid ss p (new-IsValid parsed n p i made)) h

acquire_total :
    (order : ℕ) (p : SubnetPool) (ts : List Subnet) → (acquire_from order p ts).1.total ≡ p.total
acquire_total order p [] = elim (Bool-cases (leb p.total p.next)) [
  | inl full ↦ rw full refl
  | inr room ↦ rw room refl
]
acquire_total order p (t ∷ ts) = refl

step_total : (s : Step) (p : SubnetPool) → (step s p).total ≡ p.total
unfolding step acquire release
step_total (acquires order) p = acquire_total order p p.free
step_total (releases s) p = elim (Bool-cases (held s p.taken)) [
  | inl ours ↦ rw ours refl
  | inr other ↦ rw other refl
]

run_total : (ss : List Step) (p : SubnetPool) → (run ss p).total ≡ p.total
unfolding run
run_total [] p = refl
run_total (s ∷ ss) p = run_total ss (step s p) ∙ step_total s p

made_size : Result SubnetPool → ℕ
made_size (ok p) = p.total
made_size (err e) = 0

-- A pool that is made counts the blocks of its length in the range.
made_total :
    (addr bits k : ℕ) (p : SubnetPool)
    → new_subnet_pool (some (ip4 addr bits)) (pos k) ≡ ok p
    → p.total ≡ 2 ^ (k - bits)
unfolding new_subnet_pool made_size
made_total addr bits k p made = elim (Bool-cases (ltb k bits || ltb 32 k)) [
  | inl bad ↦ let failed = (rw bad at made) in cc
  | inr good ↦ let e = (rw good at made) in sym (ap made_size e)
]

-- After any history of a new pool of subnets of length k in an IPv4 range of prefix length bits, Acquire
-- refuses exactly when 2 ^ (k - bits) subnets are on loan: all the subnets of that length in the range.
pub acquire_busy_iff :
    (addr bits k : ℕ) (p : SubnetPool) (ss : List Step) (order : ℕ)
    → IsParsed (some (ip4 addr bits))
    → new_subnet_pool (some (ip4 addr bits)) (pos k) ≡ ok p
    → ((acquire order (run ss p)).0 ≡ err (domain node_runner_busy))
      ↔ (length (run ss p).taken ≡ 2 ^ (k - bits))
unfolding acquire
acquire_busy_iff addr bits k p ss order i made =
    let q : SubnetPool = run ss p in
    let counted : q.total ≡ 2 ^ (k - bits) = run_total ss p ∙ made_total addr bits k p made in
    subst
      (λ n.
        ((acquire_from order q q.free).0 ≡ err (domain node_runner_busy)) ↔ (length q.taken ≡ n))
      counted
      (busy_from order q q.free refl
        (run-IsValid ss p (new-IsValid (some (ip4 addr bits)) (pos k) p i made)))
