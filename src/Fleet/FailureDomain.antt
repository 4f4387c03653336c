-- ===== src/Fleet/FailureDomain.antt =====
-- internal/domain/fleet_failure_domain.go.
mod RoundTrip
mod Tests
use runtime_service.Base.{
  ℕ, Bool, true, false, not, ◌&&◌, ◌||◌, leb, ◌==◌, if◌then◌else◌, List, [], ◌∷◌, ◌++◌, some_of,
  Text, codes, is_blank, split,
}
use runtime_service.Errors.{
  Err, fleet, host_failure_domain_required, host_failure_domain_invalid, Result, ok, err, is_ok,
}
use runtime_service.Fleet.Host.{Host}

abbrev pub host_failure_domain_unattested : Text
host_failure_domain_unattested = codes "unattested"

abbrev pub failure_domain_segments : ℕ
failure_domain_segments = 3

abbrev pub slash : ℕ
slash = b'/'

-- [a-z0-9] and [a-z0-9-].
pub is_segment_start : ℕ → Bool
is_segment_start c = (leb b'a' c && leb c b'z') || (leb b'0' c && leb c b'9')

pub is_segment_char : ℕ → Bool
is_segment_char c = is_segment_start c || c == b'-'

-- ^[a-z0-9][a-z0-9-]*$
pub segment_matches : Text → Bool
unfolding is_segment_start is_segment_char
segment_matches [] = false
segment_matches (c ∷ s) = is_segment_start c && not (some_of (λ d. not (is_segment_char d)) s)

pub record FailureDomain : Type 0 where
  pub site : Text
  pub power : Text
  pub network : Text

abbrev invalid : Result FailureDomain
invalid = err (fleet host_failure_domain_invalid)

-- The parts of a split: anything but three of them is refused, and so is a part that does not match.
pub of_parts : List Text → Result FailureDomain
of_parts (s ∷ p ∷ n ∷ []) =
    if segment_matches s && (segment_matches p && segment_matches n)
    then ok (record { site = s; power = p; network = n })
    else invalid
of_parts _ = invalid

unfoldable pub parse_failure_domain : Text → Result FailureDomain
unfolding of_parts segment_matches
parse_failure_domain s =
    if is_blank s then err (fleet host_failure_domain_required) else of_parts (split slash s)

pub to_string : FailureDomain → Text
to_string d = d.site ++ slash ∷ (d.power ++ slash ∷ d.network)

unfoldable pub has_attested_failure_domain : Host → Bool
has_attested_failure_domain h = is_ok (parse_failure_domain h.failure_domain)
