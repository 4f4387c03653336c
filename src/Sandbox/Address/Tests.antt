-- ===== src/Sandbox/Address/Tests.antt =====
-- The metadata address 169.254.169.254.
use runtime_service.Base.{◌≡◌, ◌↔◌, true, arith}
use runtime_service.Sandbox.Address.{v4, disallowed_addr}
use runtime_service.Sandbox.Address.Ranges.{octets, IsListed, disallowed_v4_iff}

disallowed_v4_iff_example :
    (disallowed_addr (v4 (octets 169 254 169 254)) ≡ true) ↔ IsListed 169 254 169
disallowed_v4_iff_example =
    disallowed_v4_iff 169 254 169 254 (omega arith) (omega arith) (omega arith) (omega arith)
