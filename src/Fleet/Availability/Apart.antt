-- ===== src/Fleet/Availability/Apart.antt =====
-- When RequireHAPlacement of internal/domain/fleet_availability.go answers yes.
use runtime_service.Base.{
  ◌≡◌, ◌≢◌, refl, ◌↔◌, true, not, List, [], ◌∷◌, Memᴰ, select, select_sound, select_complete, Text,
  text_eq, arith,
}
use runtime_service.Errors.{ok, is_ok}
use runtime_service.Fleet.Host.{Host}
use runtime_service.Fleet.FailureDomain.{parse_failure_domain, has_attested_failure_domain}
use runtime_service.Fleet.Availability.{is_candidate, require_ha_placement}
use runtime_service.Fleet.Availability.Placement.{place-pair, pair-place}

-- A failure domain that parses and a region that is not empty.
abbrev pub IsAttested : Host → Type 0
IsAttested h = (is_ok (parse_failure_domain h.failure_domain) ≡ true) × (h.region ≢ [])

-- Two attested hosts of the same region and of different failure domains.
abbrev pub HasApartPair : List Host → Type 0
HasApartPair hosts =
    (h k : Host) × Memᴰ h hosts
    × Memᴰ k hosts
    × IsAttested h
    × IsAttested k
    × (h.region ≡ k.region)
    × (h.failure_domain ≢ k.failure_domain)

given_text : (t : Text) → (not (text_eq t []) ≡ true) ↔ (t ≢ [])
given_text [] = (λ h. cc, λ h. absurd (h refl))
given_text (c ∷ t) = (λ h. λ e. cc, λ h. refl)

is_candidate_iff : (h : Host) → (is_candidate h ≡ true) ↔ IsAttested h
unfolding is_candidate has_attested_failure_domain
is_candidate_iff h =
    let region = given_text h.region in
    (
      (λ e. (ground arith, region.0 (ground arith))),
      (λ (parsed, full). rw (parsed) (region.1 full)),
    )

-- RequireHAPlacement accepts a list of hosts exactly when two of them have a failure domain that parses
-- and a region that is not empty, are of the same region, and are of different failure domains.
pub require_ha_placement_iff :
    (hosts : List Host) → (require_ha_placement hosts ≡ ok tt) ↔ HasApartPair hosts
unfolding require_ha_placement
require_ha_placement_iff hosts = (
  (λ accepted.
      let (h, k, i, j, same, apart) = place-pair hosts (select is_candidate hosts) accepted in
      let (ih, ch) = select_sound is_candidate hosts h i in
      let (jk, ck) = select_sound is_candidate hosts k j in
      (h, k, ih, jk, (is_candidate_iff h).0 ch, (is_candidate_iff k).0 ck, same, apart)),
  (λ (h, k, i, j, ch, ck, same, apart).
      let ih = select_complete is_candidate hosts h i ((is_candidate_iff h).1 ch) in
      let jk = select_complete is_candidate hosts k j ((is_candidate_iff k).1 ck) in
      pair-place hosts (select is_candidate hosts) (h, k, ih, jk, same, apart)),
)
