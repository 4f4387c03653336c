-- ===== src/Sandbox/Address.antt =====
-- cmd/node-sidecar/netguard.go, disallowedAddr. An address is a 32-bit number, or a 128-bit number with
-- a zone; the zero netip.Addr is not valid.
mod Ranges
mod Tests
use runtime_service.Base.{
  ℕ, ◌+◌, ◌-◌, ◌*◌, ◌/◌, ◌%◌, ◌^◌, Bool, true, false, not, ◌&&◌, ◌||◌, leb, ltb, ◌==◌,
  if◌then◌else◌, List, [], ◌∷◌, Text, text_eq, some_of,
}

pub data Addr : Type 0 where
  zero_addr : Addr
  v4 : ℕ → Addr
  v6 : ℕ → Text → Addr

abbrev pub addr_eq : Addr → Addr → Bool
addr_eq zero_addr zero_addr = true
addr_eq (v4 m) (v4 n) = m == n
addr_eq (v6 m y) (v6 n z) = m == n && text_eq y z
addr_eq _ _ = false

-- netip.Addr.Unmap: ::ffff:0:0/96 holds the IPv4 addresses.
abbrev pub unmap : Addr → Addr
unmap (v6 n z) = if n / 4294967296 == 0xffff then v4 (n % 4294967296) else v6 n z
unmap a = a

abbrev is_no_zone : Text → Bool
is_no_zone [] = true
is_no_zone (_ ∷ _) = false

-- Loopback, unspecified, multicast, and unicast on the link, of an unmapped address.
abbrev pub is_special : Addr → Bool
is_special zero_addr = false
is_special (v4 n) =
    n / 16777216 == 127
    || n == 0
    || n / 268435456 == 14
    || n / 65536 == 0xa9fe
    || n / 256 == 0xe00000
is_special (v6 n z) =
    n == 1 || (n == 0 && is_no_zone z) || n / 2 ^ 120 == 0xff || n / 2 ^ 118 == 0x3fa

-- A range of netip.Prefix: its first bits and the size of what they leave.
pub data Range : Type 0 where
  range4 range6 : ℕ → ℕ → Range

abbrev pub range_contains : Addr → Range → Bool
range_contains (v4 n) (range4 first size) = n / size == first
range_contains (v6 n z) (range6 first size) = is_no_zone z && n / size == first
range_contains _ _ = false

unfoldable pub disallowed_prefixes : List Range
disallowed_prefixes =
    range4 0 16777216
    ∷ range4 10 16777216
    ∷ range4 0x191 4194304
    ∷ range4 0xac1 1048576
    ∷ range4 0xc00000 256
    ∷ range4 0xc0a8 65536
    ∷ range4 0x6309 131072
    ∷ range4 15 268435456
    ∷ range6 0x7e (2 ^ 121)
    ∷ []

abbrev is_valid : Addr → Bool
is_valid zero_addr = false
is_valid _ = true

abbrev in_some_range : Addr → Bool
in_some_range a = some_of (range_contains a) disallowed_prefixes

unfoldable pub disallowed_addr : Addr → Bool
disallowed_addr ip =
    if not (is_valid ip)
    then true
    else if is_special (unmap ip)
    then true
    else in_some_range (unmap ip)
