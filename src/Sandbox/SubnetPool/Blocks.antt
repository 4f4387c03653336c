-- ===== src/Sandbox/SubnetPool/Blocks.antt =====
-- The blocks of the base range: they lie side by side, so different ones have no address in common.
use runtime_service.Base.{
  ℕ, zero, suc, ◌+◌, ◌-◌, ◌*◌, ◌/◌, ◌%◌, ◌^◌, ◌≤◌, ◌<◌, ◌≡◌, ◌∙◌, sym, ap, subst, [], ◌⊎◌, inl, inr,
  ltb, ◌||◌, ℤ, pos, negsuc, Option, none, some, arith, Bool-cases, dec_lt,
}
use native.Mathlib.Nat.{
  pow-suc, one-le-pow, mul-le-mul_right, one-mul, mul-le-mul_left, mod-eq_of_lt, div-add-mod',
}
use runtime_service.Errors.{ok}
use runtime_service.Sandbox.SubnetPool.{
  Prefix, ip4, ip6, Subnet, SubnetPool, new_subnet_pool, slice, masked,
}

-- The number of addresses of a block of the pool.
abbrev pub block_size : SubnetPool → ℕ
block_size p = 2 ^ (32 - p.prefix)

-- The blocks fit in the address space.
abbrev pub IsSized : SubnetPool → Type 0
IsSized p = p.base.addr + p.total * block_size p ≤ 4294967296

-- No address is in both blocks.
abbrev pub IsApart : ℕ → Subnet → Subnet → Type 0
IsApart size s t = (s.addr + size ≤ t.addr) ⊎ (t.addr + size ≤ s.addr)

pow-add : (a b : ℕ) → 2 ^ (a + b) ≡ 2 ^ a * 2 ^ b
pow-add zero b = ap (λ k. 2 ^ k) (let e : 0 + b ≡ b = omega arith in e) ∙ sym (one-mul (2 ^ b))
pow-add (suc a) b =
    let e : suc a + b ≡ suc (a + b) = omega arith in
    rw (e, pow-suc 2 (a + b), pow-suc 2 a, pow-add a b) (omega arith)

step_up : (i n m : ℕ) → i < n → i * m + m ≤ n * m
step_up i n m h = omega (arith, mul-le-mul_right m h)

in_32_bits :
    (b i t m : ℕ)
    → b + t * m ≤ 4294967296
    → i < t
    → 1 ≤ m
    → (b + i % 4294967296 * m % 4294967296) % 4294967296 ≡ b + i * m
in_32_bits b i t m sized h one =
    let room : i * m + m ≤ t * m = step_up i t m h in
    let small : i < 4294967296 = omega (arith, mul-le-mul_left i one) in
    rw (mod-eq_of_lt small) (
      let inner : i * m < 4294967296 = omega arith in
      rw (mod-eq_of_lt inner) (mod-eq_of_lt (omega arith)))

pub slice_addr :
    (p : SubnetPool) (i : ℕ)
    → IsSized p
    → i < p.total
    → (slice p i).addr ≡ p.base.addr + i * block_size p
unfolding slice
slice_addr p i sized h =
    in_32_bits p.base.addr i p.total (block_size p) sized h
      (one-le-pow (32 - p.prefix) 2 (omega arith))

pub slice-IsApart :
    (p : SubnetPool) (i j : ℕ)
    → IsSized p
    → i < j
    → j < p.total
    → IsApart (block_size p) (slice p i) (slice p j)
slice-IsApart p i j sized h k = inl (
    omega (
      arith,
      step_up i j (block_size p) h,
      slice_addr p i sized (omega arith),
      slice_addr p j sized k,
    ))

-- What netip.ParsePrefix answers for an IPv4 range.
abbrev pub IsParsed : Option Prefix → Type 0
IsParsed none = Unit
IsParsed (some ip6) = Unit
IsParsed (some (ip4 addr bits)) = (addr < 4294967296) × (bits ≤ 32)

not_below : (q c : ℕ) → ¬ (q < c) → c ≤ q
not_below q c h = omega arith

masked_room : (a c m : ℕ) → 1 ≤ m → a < c * m → a - a % m + m ≤ c * m
masked_room a c m one h =
    let split = div-add-mod' a m in
    let low : a / m < c = elim (dec_lt (a / m) c) [
      | yes p ↦ p
      | no p ↦ absurd (omega (arith, mul-le-mul_right m (not_below (a / m) c p)))
    ] in
    omega (arith, step_up (a / m) c m low)

pub new-IsSized :
    (parsed : Option Prefix) (n : ℤ) (p : SubnetPool)
    → IsParsed parsed
    → new_subnet_pool parsed n ≡ ok p
    → IsSized p
unfolding new_subnet_pool
new-IsSized none n p i h = cc
new-IsSized (some ip6) n p i h = cc
new-IsSized (some (ip4 a b)) (negsuc n) p i h = cc
new-IsSized (some (ip4 a b)) (pos n) p i h = elim (Bool-cases (ltb n b || ltb 32 n)) [
  | inl bad ↦ let refused = (rw bad at h) in cc
  | inr good ↦
      let fields : SubnetPool = record {
        base = record { addr = masked a b; bits = b };
        prefix = n;
        next = 0;
        total = 2 ^ (n - b);
        free = [];
        taken = [];
      } in
      let made : ok fields ≡ ok p = rw good at h in
      let same : fields ≡ p = cc in
      let halves : b + (32 - b) ≡ 32 = omega arith in
      let whole : 2 ^ b * 2 ^ (32 - b) ≡ 4294967296 =
        sym (pow-add b (32 - b)) ∙ ap (λ k. 2 ^ k) halves in
      let room =
        masked_room a (2 ^ b) (2 ^ (32 - b)) (one-le-pow (32 - b) 2 (omega arith))
          (omega (arith, whole)) in
      let parts : n - b + (32 - n) ≡ 32 - b = ground arith in
      let sizes : 2 ^ (n - b) * 2 ^ (32 - n) ≡ 2 ^ (32 - b) =
        sym (pow-add (n - b) (32 - n)) ∙ ap (λ k. 2 ^ k) parts in
      subst IsSized same (omega (arith, room, sizes, whole))
]
