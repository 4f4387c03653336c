-- ===== src/Execution/Limits/Accepted.antt =====
-- What the validation of internal/domain/execution.go accepts.
use runtime_service.Base.{
  ℕ, ◌≡◌, ◌≢◌, ◌↔◌, ◌⊎◌, true, not, ℤ, pos, ◌≤ℤ◌, ◌≤◌, if◌then◌else◌, ◌==◌, [], arith,
}
use runtime_service.Errors.{
  domain, invalid_id, invalid_data, invalid_language, empty_code, ok, refuse_if, refuse_if-ok, ◌>>◌,
}
use runtime_service.Execution.Limits.{
  NetworkMode, is_unset, is_empty, isolated, or_default, ResourceLimit, Execution, mode_is_valid,
  status_is_valid, language_is_valid, other_mode, validate_limit, apply_defaults, validate,
}

-- Between the two bounds.
abbrev pub IsBetween : ℕ → ℕ → ℤ → Type 0
IsBetween low high x = (pos low ≤ℤ x) × (x ≤ℤ pos high)

-- A network mode that is known, or the empty one.
abbrev pub IsMode : NetworkMode → Type 0
IsMode n = (mode_is_valid n ≡ true) ⊎ (n ≡ other_mode [])

abbrev pub IsInBounds : ResourceLimit → Type 0
IsInBounds r =
    IsBetween 1 8 r.vcpu
    × IsBetween 32 4096 r.memory_mb
    × IsBetween 1 600 r.timeout_sec
    × IsMode r.network

is_unset_iff : (n : NetworkMode) → (is_unset n ≡ true) ↔ (n ≡ other_mode [])
is_unset_iff n = ground arith

validate_limit_iff : (r : ResourceLimit) → (validate_limit r ≡ ok tt) ↔ IsInBounds r
unfolding validate_limit
validate_limit_iff r = ground arith

or_default-IsBetween :
    (x : ℤ) (low high d : ℕ)
    → 1 ≤ low
    → low ≤ d
    → d ≤ high
    → IsBetween low high (or_default x d) ↔ ((x ≡ pos 0) ⊎ IsBetween low high x)
or_default-IsBetween x low high d l m h = ground arith

or_isolated_iff : (n : NetworkMode) → IsMode (if is_unset n then isolated else n) ↔ IsMode n
unfolding mode_is_valid
or_isolated_iff n = ground arith

-- Limits are accepted after the defaults exactly when each of the three numbers is 0 or within its
-- bounds and the network mode is empty or known.
pub defaults-IsInBounds :
    (r : ResourceLimit)
    → (validate_limit (apply_defaults r) ≡ ok tt) ↔ (
        ((r.vcpu ≡ pos 0) ⊎ IsBetween 1 8 r.vcpu)
        × ((r.memory_mb ≡ pos 0) ⊎ IsBetween 32 4096 r.memory_mb)
        × ((r.timeout_sec ≡ pos 0) ⊎ IsBetween 1 600 r.timeout_sec)
        × IsMode r.network)
unfolding apply_defaults
defaults-IsInBounds r =
    let v = or_default-IsBetween r.vcpu 1 8 1 (omega arith) (omega arith) (omega arith) in
    let m =
      or_default-IsBetween r.memory_mb 32 4096 128 (omega arith) (omega arith) (omega arith) in
    let t = or_default-IsBetween r.timeout_sec 1 600 30 (omega arith) (omega arith) (omega arith) in
    let n = or_isolated_iff r.network in
    let whole = validate_limit_iff (apply_defaults r) in
    (
      (λ h. let (a, b, c, d) = whole.0 h in (v.0 a, m.0 b, t.0 c, n.0 d)),
      (λ (a, b, c, d). whole.1 (v.1 a, m.1 b, t.1 c, n.1 d)),
    )

-- An execution is accepted exactly when its three ids are set, its language and status are known, its
-- code is not empty and its limits are within their bounds.
pub validate_iff :
    (e : Execution)
    → (validate e ≡ ok tt) ↔ (
        (e.id ≢ 0)
        × (e.organization_id ≢ 0)
        × (e.requested_by ≢ 0)
        × (language_is_valid e.language ≡ true)
        × (e.code ≢ [])
        × (status_is_valid e.status ≡ true)
        × IsInBounds e.resources)
unfolding validate
validate_iff e =
    let k6 = validate_limit e.resources in
    let g6 = refuse_if-ok (not (status_is_valid e.status)) (domain invalid_data) k6 in
    let k5 = refuse_if (not (status_is_valid e.status)) (domain invalid_data) >> k6 in
    let g5 = refuse_if-ok (is_empty e.code) (domain empty_code) k5 in
    let k4 = refuse_if (is_empty e.code) (domain empty_code) >> k5 in
    let g4 = refuse_if-ok (not (language_is_valid e.language)) (domain invalid_language) k4 in
    let k3 = refuse_if (not (language_is_valid e.language)) (domain invalid_language) >> k4 in
    let g3 = refuse_if-ok (e.requested_by == 0) (domain invalid_id) k3 in
    let k2 = refuse_if (e.requested_by == 0) (domain invalid_id) >> k3 in
    let g2 = refuse_if-ok (e.organization_id == 0) (domain invalid_id) k2 in
    let k1 = refuse_if (e.organization_id == 0) (domain invalid_id) >> k2 in
    let g1 = refuse_if-ok (e.id == 0) (domain invalid_id) k1 in
    let limits = validate_limit_iff e.resources in
    (
      (λ h.
          let (a, h1) = g1.0 h in
          let (b, h2) = g2.0 h1 in
          let (c, h3) = g3.0 h2 in
          let (l, h4) = g4.0 h3 in
          let (x, h5) = g5.0 h4 in
          let (t, h6) = g6.0 h5 in
          (
            ground arith,
            ground arith,
            ground arith,
            ground arith,
            ground arith,
            ground arith,
            limits.0 h6,
          )),
      (λ (a, b, c, l, x, t, h6). g1.1 (
        ground arith,
        g2.1 (
          ground arith,
          g3.1 (
            ground arith,
            g4.1 (ground arith, g5.1 (ground arith, g6.1 (ground arith, limits.1 h6))),
          ),
        ),
      )),
    )
