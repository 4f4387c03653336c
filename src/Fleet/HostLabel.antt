-- ===== src/Fleet/HostLabel.antt =====
-- internal/usecase/fleet_orchestrator.go: the platform's host name of an app, hostForApp. Texts are runes; a
-- label is ASCII, so its octets are its runes. The lower case of a rune and the hex digits of SHA-256 are the
-- standard library's and parameters.
pub mod Legal
use runtime_service.Base.{
  ℕ, zero, suc, Bool, true, false, not, ◌&&◌, ◌||◌, ◌==◌, if◌then◌else◌, leb, List, [], ◌∷◌, ◌++◌,
  length, map, Text, is_space,
}
use runtime_service.Fleet.Replica.{FleetApp}

-- [a-z0-9].
abbrev pub is_slug_rune : ℕ → Bool
is_slug_rune c = (leb 97 c && leb c 122) || (leb 48 c && leb c 57)

abbrev pub is_dash : ℕ → Bool
is_dash c = c == 45

abbrev pub is_empty : Text → Bool
is_empty [] = true
is_empty (c ∷ cs) = false

unfoldable pub trim_left : (ℕ → Bool) → Text → Text
trim_left p [] = []
trim_left p (c ∷ cs) = if p c then trim_left p cs else c ∷ cs

unfoldable pub trim_right : (ℕ → Bool) → Text → Text
trim_right p [] = []
trim_right p (c ∷ cs) = let rest = trim_right p cs in if p c && is_empty rest then [] else c ∷ rest

-- The first n runes, or all.
unfoldable pub prefix : ℕ → Text → Text
prefix zero cs = []
prefix (suc n) [] = []
prefix (suc n) (c ∷ cs) = c ∷ prefix n cs

pub record Builder : Type 0 where
  pub written : Text
  pub prev_dash : Bool

-- One rune of the loop of sanitizeSlug.
unfoldable pub write_rune : Builder → ℕ → Builder
write_rune b c =
    if is_slug_rune c
    then record { written = b.written ++ c ∷ []; prev_dash = false }
    else if not b.prev_dash && not (is_empty b.written)
    then record { written = b.written ++ 45 ∷ []; prev_dash = true }
    else b

unfoldable pub write_runes : Builder → Text → Builder
write_runes b [] = b
write_runes b (c ∷ cs) = write_runes (write_rune b c) cs

abbrev pub empty_builder : Builder
empty_builder = record { written = []; prev_dash = false }

unfoldable pub sanitize_slug : (ℕ → ℕ) → Text → Text
sanitize_slug lower s =
    let lowered = map lower (trim_right is_space (trim_left is_space s)) in
    trim_right is_dash (trim_left is_dash (write_runes empty_builder lowered).written)

unfoldable pub dns_label : (Text → Text) → Text → Text
dns_label sha256_hex label =
    if leb (length label) 63
    then label
    else trim_right is_dash (prefix 54 label) ++ 45 ∷ prefix 8 (sha256_hex label)

-- The first label of the host.
unfoldable pub label_for_app : (ℕ → ℕ) → (Text → Text) → FleetApp → Text
label_for_app lower sha256_hex app =
    dns_label sha256_hex (sanitize_slug lower app.component_id ++ 45 ∷ sanitize_slug lower app.env)

pub host_for_app : (ℕ → ℕ) → (Text → Text) → Text → FleetApp → Text
host_for_app lower sha256_hex ingress_domain app =
    label_for_app lower sha256_hex app ++ 46 ∷ ingress_domain
