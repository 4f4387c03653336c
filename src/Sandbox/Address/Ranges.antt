-- ===== src/Sandbox/Address/Ranges.antt =====
-- The IPv4 addresses that disallowedAddr of cmd/node-sidecar/netguard.go lets through.
use runtime_service.Base.{ℕ, ◌≡◌, ◌≤◌, ◌<◌, ◌⊎◌, ◌↔◌, ◌+◌, ◌*◌, true, arith}
use runtime_service.Sandbox.Address.{v4, disallowed_prefixes, disallowed_addr}

-- The address of four octets.
abbrev pub octets : ℕ → ℕ → ℕ → ℕ → ℕ
octets a b c d = a * 16777216 + b * 65536 + c * 256 + d

-- 0/8, 10/8, 127/8, 224/4 and above, 100.64/10, 169.254/16, 172.16/12, 192.0.0/24, 192.168/16 and
-- 198.18/15, by the first three octets.
abbrev pub IsListed : ℕ → ℕ → ℕ → Type 0
IsListed a b c =
    (a ≡ 0)
    ⊎ (a ≡ 10)
    ⊎ (a ≡ 127)
    ⊎ (224 ≤ a)
    ⊎ ((a ≡ 100) × (64 ≤ b) × (b < 128))
    ⊎ ((a ≡ 169) × (b ≡ 254))
    ⊎ ((a ≡ 172) × (16 ≤ b) × (b < 32))
    ⊎ ((a ≡ 192) × (b ≡ 0) × (c ≡ 0))
    ⊎ ((a ≡ 192) × (b ≡ 168))
    ⊎ ((a ≡ 198) × (18 ≤ b) × (b < 20))

-- The IPv4 address of four octets is disallowed exactly when its first octet is 0, 10, 127, or 224 and
-- above, or it is in 100.64.0.0/10, 169.254.0.0/16, 172.16.0.0/12, 192.0.0.0/24, 192.168.0.0/16 or
-- 198.18.0.0/15.
pub disallowed_v4_iff :
    (a b c d : ℕ)
    → a < 256
    → b < 256
    → c < 256
    → d < 256
    → (disallowed_addr (v4 (octets a b c d)) ≡ true) ↔ IsListed a b c
unfolding disallowed_addr disallowed_prefixes
disallowed_v4_iff a b c d ha hb hc hd = ground arith
