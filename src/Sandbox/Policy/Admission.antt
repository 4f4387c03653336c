-- ===== src/Sandbox/Policy/Admission.antt =====
-- Which requests decide of cmd/node-sidecar/policy.go admits.
use runtime_service.Base.{
  ◌≡◌, ◌≢◌, refl, sym, inl, inr, ◌⊎◌, true, false, ℤ, pos, List, [], ◌∷◌, Option, none, some, Text,
  text_eq, text_eq→eq, text_eq_refl, some_of, All, Bool-cases, Option-cases, arith,
}
use runtime_service.Errors.{Result, ok, err}
use runtime_service.Sandbox.Address.{Addr, addr_eq, unmap, disallowed_addr}
use runtime_service.Sandbox.Policy.{
  Decision, Policy, Outside, bearer_token, normalize_host, port_is_allowed, check_addrs,
  decide_resolved, decide_literal, decide_token, decide,
}

-- Not the sidecar's own address, and not one that is disallowed.
abbrev pub IsReachable : List Addr → Addr → Type 0
IsReachable own a = (some_of (addr_eq (unmap a)) own ≡ false) × (disallowed_addr (unmap a) ≡ false)

-- The answer of the resolver that admits a request.
abbrev pub IsAnswer : Policy → Result (List Addr) → Addr → Type 0
IsAnswer p r dialled =
    (a : Addr) × (answers : List Addr) × (r ≡ ok (a ∷ answers))
    × All (IsReachable p.own) (a ∷ answers)
    × (dialled ≡ unmap a)

module _ (out : Outside) (p : Policy) where
  check_addrs_sound :
      (own answers : List Addr) → check_addrs out own answers ≡ none → All (IsReachable own) answers
  unfolding check_addrs
  check_addrs_sound own [] h = tt
  check_addrs_sound own (a ∷ answers) h = ground (arith, check_addrs_sound own answers)

  resolved_sound :
      (name : Text) (port : ℤ) (r : Result (List Addr))
      → (decide_resolved out p name port r).allow ≡ true
      → IsAnswer p r (decide_resolved out p name port r).addr
  resolved_sound name port (err e) h = cc
  resolved_sound name port (ok []) h = cc
  resolved_sound name port (ok (a ∷ answers)) h =
      elim (Option-cases (check_addrs out p.own (a ∷ answers))) [
        | inl fine ↦ rw fine (a, answers, refl, check_addrs_sound p.own (a ∷ answers) fine, refl)
        | inr (reason, bad) ↦ let refused = (rw bad at h) in cc
      ]

  -- A named host on an allowed port that the patterns match, with an answer.
  abbrev pub IsNamed : Text → ℤ → Addr → Type 0
  IsNamed name port dialled =
      (out.parse_addr name ≡ none)
      × ((port ≡ pos 80) ⊎ (port ≡ pos 443))
      × (out.match_egress p.patterns name ≡ true)
      × IsAnswer p (p.resolve name) dialled

  literal_sound :
      (name : Text) (port : ℤ) (o : Option Addr)
      → out.parse_addr name ≡ o
      → (decide_literal out p name port o).allow ≡ true
      → IsNamed name port (decide_literal out p name port o).addr
  literal_sound name port (some ip) e h = elim (Bool-cases (disallowed_addr ip)) [
    | inl d ↦ let refused = (rw d at h) in cc
    | inr d ↦ let refused = (rw d at h) in cc
  ]
  literal_sound name port none e h = elim (Bool-cases (port_is_allowed port)) [
    | inr closed ↦ let refused = (rw closed at h) in cc
    | inl opened ↦ elim (Bool-cases (out.match_egress p.patterns name)) [
      | inr undeclared ↦ let refused = (rw (opened, undeclared) at h) in cc
      | inl declared ↦
          rw (opened, declared)
            (
              e,
              ground arith,
              refl,
              resolved_sound name port (p.resolve name) (rw (opened, declared) at h),
            )
    ]
  ]

  token_sound :
      (name : Text) (port : ℤ) (token : Text)
      → (decide_token out p name port token).allow ≡ true
      → (token ≢ [])
        × (token ≡ p.token)
        × IsNamed name port (decide_token out p name port token).addr
  token_sound name port token h = elim (Bool-cases (text_eq token [])) [
    | inl missing ↦ let refused = (rw missing at h) in cc
    | inr given ↦ elim (Bool-cases (text_eq token p.token)) [
      | inr wrong ↦ let refused = (rw (given, wrong) at h) in cc
      | inl right ↦
          rw (given, right)
            (
              (λ e. let clash : true ≡ false = rw e at given in cc),
              text_eq→eq token p.token right,
              literal_sound name port (out.parse_addr name) refl (rw (given, right) at h),
            )
    ]
  ]

  -- A request that is admitted carries the policy's token, which is not empty; its host is no IP
  -- literal, its port is 80 or 443, and a declared pattern matches its host; the host resolved to a list
  -- of addresses of which none is the sidecar's own or disallowed, and the address to dial is the first
  -- of them.
  pub decide_sound :
      (authorization host : Text) (port : ℤ)
      → (decide out p authorization host port).allow ≡ true
      → (bearer_token authorization ≢ [])
        × (bearer_token authorization ≡ p.token)
        × IsNamed (normalize_host out host) port (decide out p authorization host port).addr
  unfolding decide
  decide_sound authorization host port h =
      token_sound (normalize_host out host) port (bearer_token authorization) h

  check_addrs_complete :
      (own answers : List Addr) → All (IsReachable own) answers → check_addrs out own answers ≡ none
  unfolding check_addrs
  check_addrs_complete own [] h = refl
  check_addrs_complete own (a ∷ answers) ((apart, fine), h) =
      rw (apart, fine) (check_addrs_complete own answers h)

  -- An admission that dials an address.
  abbrev pub IsAdmitted : Decision → Addr → Type 0
  IsAdmitted d a = (d.allow ≡ true) × (d.addr ≡ a)

  literal_complete :
      (name : Text) (port : ℤ) (dialled : Addr)
      → IsNamed name port dialled
      → IsAdmitted (decide_literal out p name port (out.parse_addr name)) dialled
  literal_complete name port dialled (named, ports, declared, (a, answers, resolved, fine, first)) =
      let opened : port_is_allowed port ≡ true = ground arith in
      rw (named, opened, declared, resolved, check_addrs_complete p.own (a ∷ answers) fine)
        (refl, sym first)

  given_text : (t : Text) → t ≢ [] → text_eq t [] ≡ false
  given_text [] h = absurd (h refl)
  given_text (c ∷ t) h = refl

  token_complete :
      (name : Text) (port : ℤ) (token : Text) (dialled : Addr)
      → token ≢ []
      → token ≡ p.token
      → IsNamed name port dialled
      → IsAdmitted (decide_token out p name port token) dialled
  token_complete name port token dialled given right named =
      let equal : text_eq token p.token ≡ true = rw right (text_eq_refl p.token) in
      rw (given_text token given, equal) (literal_complete name port dialled named)

  -- Every request that carries the policy's token, not an empty one, for a host that is no IP literal, on
  -- port 80 or 443, that a declared pattern matches and that resolves to addresses of which none is the
  -- sidecar's own or disallowed, is admitted, and the address to dial is the first of them.
  pub decide_complete :
      (authorization host : Text) (port : ℤ) (dialled : Addr)
      → bearer_token authorization ≢ []
      → bearer_token authorization ≡ p.token
      → IsNamed (normalize_host out host) port dialled
      → IsAdmitted (decide out p authorization host port) dialled
  unfolding decide
  decide_complete authorization host port dialled given right named =
      token_complete (normalize_host out host) port (bearer_token authorization) dialled given right
        named
