-- ===== src/Fleet/FailureDomain/Tests.antt =====
-- The failure domain ber/a/x.
use runtime_service.Base.{◌≡◌, refl, codes, Text}
use runtime_service.Errors.{ok}
use runtime_service.Fleet.FailureDomain.{
  FailureDomain, parse_failure_domain, to_string, of_parts, segment_matches, is_segment_start,
  is_segment_char,
}
use runtime_service.Fleet.FailureDomain.RoundTrip.{IsLegal, parse-to_string, to_string-parse}

abbrev text : Text
text = codes "ber/a/x"

abbrev parsed : FailureDomain
parsed = record { site = codes "ber"; power = codes "a"; network = codes "x" }

parsed-IsLegal : IsLegal parsed
unfolding segment_matches is_segment_start is_segment_char
parsed-IsLegal = (refl, refl, refl)

parses : parse_failure_domain text ≡ ok parsed
unfolding parse_failure_domain of_parts segment_matches is_segment_start is_segment_char
parses = refl

parse-to_string_example : parse_failure_domain (to_string parsed) ≡ ok parsed
parse-to_string_example = parse-to_string parsed parsed-IsLegal

to_string-parse_example : (to_string parsed ≡ text) × IsLegal parsed
to_string-parse_example = to_string-parse text parsed parses
