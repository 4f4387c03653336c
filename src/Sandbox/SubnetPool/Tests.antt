-- ===== src/Sandbox/SubnetPool/Tests.antt =====
-- A pool of the four /26 blocks of 10.0.0.0/24 after two acquisitions and a release.
use runtime_service.Base.{
  ℕ, ◌+◌, ◌*◌, ◌≡◌, refl, ◌↔◌, pos, List, [], ◌∷◌, length, Option, some, arith,
}
use runtime_service.Errors.{ok, err, domain, node_runner_busy}
use runtime_service.Sandbox.SubnetPool.{
  Prefix, ip4, Subnet, SubnetPool, new_subnet_pool, slice, acquire, release, Step, acquires,
  releases, step, run,
}
use runtime_service.Sandbox.SubnetPool.Blocks.{IsParsed}
use runtime_service.Sandbox.SubnetPool.Exclusive.{
  IsExclusive, acquire-IsExclusive, acquire_busy_iff,
}

abbrev range : Option Prefix
range = some (ip4 167772160 24)

abbrev made : SubnetPool
made = record {
  base = record { addr = 167772160; bits = 24 };
  prefix = 26;
  next = 0;
  total = 4;
  free = [];
  taken = [];
}

makes : new_subnet_pool range (pos 26) ≡ ok made
unfolding new_subnet_pool
makes = refl

range-IsParsed : IsParsed range
range-IsParsed = (omega arith, omega arith)

abbrev block : ℕ → Subnet
block i = record { addr = 167772160 + i * 64; bits = 26 }

abbrev history : List Step
history = acquires 0 ∷ acquires 0 ∷ releases (block 0) ∷ acquires 0 ∷ []

acquires_third : (acquire 0 (run history made)).0 ≡ ok (block 2)
unfolding run step acquire release slice
acquires_third = refl

acquire-IsExclusive_example : IsExclusive (run history made) (block 2)
acquire-IsExclusive_example =
    acquire-IsExclusive range (pos 26) made history 0 (block 2) range-IsParsed makes acquires_third

acquire_busy_iff_example :
    ((acquire 0 (run history made)).0 ≡ err (domain node_runner_busy))
    ↔ (length (run history made).taken ≡ 4)
acquire_busy_iff_example = acquire_busy_iff 167772160 24 26 made history 0 range-IsParsed makes
