-- ===== src/Fleet/Availability.antt =====
-- internal/domain/fleet_availability.go: the enumerations, and the placement invariant of
-- standard-ha over the live hosts.
mod Placement
mod Apart
mod Tests
use runtime_service.Base.{
  ℕ, Bool, true, false, not, ◌&&◌, leb, ltb, ◌==◌, if◌then◌else◌, List, [], ◌∷◌, select, some_of,
  length, Text, text_eq, contains_text,
}
use runtime_service.Errors.{
  fleet, ha_hosts_insufficient, ha_failure_domain_unattested, ha_failure_domain_shared,
  ha_region_split, Result, ok, err,
}
use runtime_service.Fleet.Host.{Host}
use runtime_service.Fleet.FailureDomain.{has_attested_failure_domain}

pub data AvailabilityClass : Type 0 where
  single ha : AvailabilityClass
  other_class : Text → AvailabilityClass

pub class_is_valid : AvailabilityClass → Bool
class_is_valid single = true
class_is_valid ha = true
class_is_valid (other_class _) = false

pub data SyncDegradePolicy : Type 0 where
  fail_closed fail_open : SyncDegradePolicy
  other_policy : Text → SyncDegradePolicy

pub policy_is_valid : SyncDegradePolicy → Bool
policy_is_valid fail_closed = true
policy_is_valid fail_open = true
policy_is_valid (other_policy _) = false

pub data FailoverCause : Type 0 where
  real drill switchover : FailoverCause
  other_cause : Text → FailoverCause

pub cause_is_valid : FailoverCause → Bool
cause_is_valid real = true
cause_is_valid drill = true
cause_is_valid switchover = true
cause_is_valid (other_cause _) = false

-- A host that placement can reason about.
pub is_candidate : Host → Bool
is_candidate h = has_attested_failure_domain h && not (text_eq h.region [])

-- A set of texts as a list without repetition.
pub add_text : Text → List Text → List Text
add_text t ts = if contains_text t ts then ts else t ∷ ts

-- domainsByRegion: the sets of domains by region.
pub add_domain : Text → Text → List (Text × List Text) → List (Text × List Text)
add_domain region d [] = (region, add_text d []) ∷ []
add_domain region d ((r, ds) ∷ m) =
    if text_eq r region then (r, add_text d ds) ∷ m else (r, ds) ∷ add_domain region d m

pub domains_by_region : List Host → List (Text × List Text) → List (Text × List Text)
domains_by_region [] m = m
domains_by_region (h ∷ hs) m = domains_by_region hs (add_domain h.region h.failure_domain m)

pub all_domains : List Host → List Text → List Text
all_domains [] ds = ds
all_domains (h ∷ hs) ds = all_domains hs (add_text h.failure_domain ds)

pub has_two : Text × List Text → Bool
has_two (r, ds) = leb 2 (length ds)

-- The decision over the candidates.
pub place_candidates : List Host → List Host → Result (Unit {0})
place_candidates hosts candidates =
    if ltb (length candidates) 2
    then (if leb 2 (length hosts)
        then err (fleet ha_failure_domain_unattested)
        else err (fleet ha_hosts_insufficient))
    else if some_of has_two (domains_by_region candidates [])
    then ok tt
    else if leb 2 (length (all_domains candidates []))
    then err (fleet ha_region_split)
    else err (fleet ha_failure_domain_shared)

pub require_ha_placement : List Host → Result (Unit {0})
require_ha_placement hosts = place_candidates hosts (select is_candidate hosts)
