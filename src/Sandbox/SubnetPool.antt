-- ===== src/Sandbox/SubnetPool.antt =====
-- internal/usecase/subnet_pool.go. An IPv4 block is its first address and its prefix length, for the
-- text of a CIDR; the mutex makes each operation one step. A map with the value true for its keys is a
-- list of keys without repetition.
mod Blocks
mod Moves
mod Loans
mod Exclusive
mod Tests
use runtime_service.Base.{
  ℕ, zero, suc, ◌+◌, ◌-◌, ◌*◌, ◌%◌, ◌^◌, Bool, true, false, not, ◌&&◌, ◌||◌, ltb, leb, ◌==◌,
  if◌then◌else◌, ℤ, pos, negsuc, List, [], ◌∷◌, Option, none, some, some_of, select,
}
use runtime_service.Errors.{Err, domain, invalid_data, node_runner_busy, Result, ok, err}

-- What netip.ParsePrefix answers.
pub data Prefix : Type 0 where
  ip4 : ℕ → ℕ → Prefix
  ip6 : Prefix

pub record Subnet : Type 0 where
  pub addr : ℕ
  pub bits : ℕ

pub record SubnetPool : Type 0 where
  pub base : Subnet
  pub prefix : ℕ
  pub next : ℕ
  pub total : ℕ
  pub free : List Subnet
  pub taken : List Subnet

-- netip.Prefix.Masked.
abbrev pub masked : ℕ → ℕ → ℕ
masked addr bits = addr - addr % 2 ^ (32 - bits)

abbrev refused : Result SubnetPool
refused = err (domain invalid_data)

pub new_subnet_pool : Option Prefix → ℤ → Result SubnetPool
new_subnet_pool none prefix_len = refused
new_subnet_pool (some ip6) prefix_len = refused
new_subnet_pool (some (ip4 addr bits)) (negsuc _) = refused
new_subnet_pool (some (ip4 addr bits)) (pos n) =
    if ltb n bits || ltb 32 n
    then refused
    else ok (record {
      base = record { addr = masked addr bits; bits = bits };
      prefix = n;
      next = 0;
      total = 2 ^ (n - bits);
      free = [];
      taken = [];
    })

-- The i-th block of the base range, in 32-bit arithmetic.
pub slice : SubnetPool → ℕ → Subnet
slice p i = record {
  addr = (p.base.addr + i % 2 ^ 32 * 2 ^ (32 - p.prefix) % 2 ^ 32) % 2 ^ 32;
  bits = p.prefix;
}

abbrev pub same : Subnet → Subnet → Bool
same s t = s.addr == t.addr && s.bits == t.bits

-- A key of a map, its deletion and its assignment.
abbrev pub held : Subnet → List Subnet → Bool
held s ts = some_of (same s) ts

abbrev pub drop : Subnet → List Subnet → List Subnet
drop s ts = select (λ t. not (same s t)) ts

abbrev pub put : Subnet → List Subnet → List Subnet
put s ts = if held s ts then ts else s ∷ ts

-- The key that a range over a map that is not empty yields first: any of them, by a number.
abbrev pub pick : ℕ → Subnet → List Subnet → Subnet
pick zero s ts = s
pick (suc n) s [] = s
pick (suc n) s (t ∷ ts) = pick n t ts

abbrev pub acquire_new : SubnetPool → Result Subnet × SubnetPool
acquire_new p =
    if leb p.total p.next
    then (err (domain node_runner_busy), p)
    else (ok (slice p p.next), record p { next = suc p.next; taken = put (slice p p.next) p.taken })

abbrev pub reuse : SubnetPool → Subnet → Result Subnet × SubnetPool
reuse p s = (ok s, record p { free = drop s p.free; taken = put s p.taken })

abbrev pub acquire_from : ℕ → SubnetPool → List Subnet → Result Subnet × SubnetPool
acquire_from order p [] = acquire_new p
acquire_from order p (s ∷ ts) = reuse p (pick order s ts)

pub acquire : ℕ → SubnetPool → Result Subnet × SubnetPool
acquire order p = acquire_from order p p.free

pub release : Subnet → SubnetPool → SubnetPool
release s p =
    if not (held s p.taken) then p else record p { taken = drop s p.taken; free = put s p.free }

-- A history of the pool: acquisitions, each with its order of the free map, and releases.
pub data Step : Type 0 where
  acquires : ℕ → Step
  releases : Subnet → Step

pub step : Step → SubnetPool → SubnetPool
unfolding acquire release
step (acquires order) p = (acquire order p).1
step (releases s) p = release s p

pub run : List Step → SubnetPool → SubnetPool
unfolding step
run [] p = p
run (s ∷ ss) p = run ss (step s p)
