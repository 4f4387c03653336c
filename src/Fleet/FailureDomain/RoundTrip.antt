-- ===== src/Fleet/FailureDomain/RoundTrip.antt =====
-- ParseFailureDomain and String of internal/domain/fleet_failure_domain.go undo each other.
use runtime_service.Base.{
  ◌≡◌, refl, inl, inr, true, false, not, ◌==◌, List, [], ◌∷◌, ◌++◌, some_of, Text, is_blank, split,
  join, join-split, split-join_cons, split_single, Bool-cases, arith,
}
use runtime_service.Errors.{ok}
use runtime_service.Fleet.FailureDomain.{
  FailureDomain, is_segment_start, is_segment_char, segment_matches, of_parts, parse_failure_domain,
  to_string, slash,
}

no_slash_in_rest :
    (s : Text)
    → not (some_of (λ d. not (is_segment_char d)) s) ≡ true
    → some_of (λ c. c == slash) s ≡ false
unfolding is_segment_char is_segment_start
no_slash_in_rest [] h = refl
no_slash_in_rest (c ∷ s) h = ground (arith, no_slash_in_rest s)

no_slash : (s : Text) → segment_matches s ≡ true → some_of (λ c. c == slash) s ≡ false
unfolding segment_matches
no_slash [] h = refl
no_slash (c ∷ s) h = ground (arith, no_slash_in_rest s)

not_blank : (s t : Text) → segment_matches s ≡ true → is_blank (s ++ t) ≡ false
unfolding segment_matches
not_blank [] t h = cc
not_blank (c ∷ s) t h = ground arith

-- The three segments of a domain are legal.
abbrev pub IsLegal : FailureDomain → Type 0
IsLegal d =
    (segment_matches d.site ≡ true)
    × (segment_matches d.power ≡ true)
    × (segment_matches d.network ≡ true)

of_parts_sound :
    (ps : List Text) (d : FailureDomain)
    → of_parts ps ≡ ok d
    → IsLegal d × (ps ≡ d.site ∷ d.power ∷ d.network ∷ [])
unfolding of_parts
of_parts_sound [] d h = cc
of_parts_sound (s ∷ []) d h = cc
of_parts_sound (s ∷ p ∷ []) d h = cc
of_parts_sound (s ∷ p ∷ n ∷ []) d h = ground arith
of_parts_sound (s ∷ p ∷ n ∷ q ∷ r) d h = cc

-- A domain whose three segments are legal parses back from its text.
pub parse-to_string : (d : FailureDomain) → IsLegal d → parse_failure_domain (to_string d) ≡ ok d
unfolding parse_failure_domain to_string
parse-to_string d (s, p, n) = rw (
  not_blank d.site _ s,
  split-join_cons slash d.site _ (no_slash d.site s),
  split-join_cons slash d.power _ (no_slash d.power p),
  split_single slash d.network (no_slash d.network n),
  s,
  p,
  n,
)

-- A text that parses to a domain is the text of that domain, and the domain's segments are legal.
pub to_string-parse :
    (t : Text) (d : FailureDomain) → parse_failure_domain t ≡ ok d → (to_string d ≡ t) × IsLegal d
unfolding parse_failure_domain to_string
to_string-parse t d h = elim (Bool-cases (is_blank t)) [
  | inl blank ↦ let refused = (rw blank at h) in cc
  | inr full ↦
      let (legal, parts) = of_parts_sound (split slash t) d (rw full at h) in
      let whole : join slash (split slash t) ≡ t = join-split slash t in (rw parts at whole, legal)
]
