-- ===== src/Sandbox/Policy.antt =====
-- cmd/node-sidecar/policy.go. The matcher of declared patterns and the conversion to punycode are other
-- modules' and the answers of netip.ParseAddr, strings.ToLower and the resolver are values: all of them
-- are parameters.
mod Admission
mod Tests
use runtime_service.Base.{
  ℕ, Bool, true, false, not, ◌&&◌, ◌||◌, ◌==◌, if◌then◌else◌, ℤ, pos, eq_ℤ, List, [], ◌∷◌, Option,
  none, some, Text, text_eq, codes, some_of, is_space, map, leb, ◌+◌,
}
use runtime_service.Errors.{Result, ok, err}
use runtime_service.Execution.TestRun.{starts_with}
use runtime_service.Sandbox.Address.{Addr, zero_addr, addr_eq, unmap, disallowed_addr}

pub data Reason : Type 0 where
  token_missing policy_missing private_address ip_literal port_not_allowed host_not_declared :
      Reason
  resolve_failed dns_no_answer own_address : Reason
  manifest_wildcard manifest_exact manifest_suffix : Reason

pub record Decision : Type 0 where
  pub allow : Bool
  pub status : ℕ
  pub reason : Reason
  pub host : Text
  pub port : ℤ
  pub addr : Addr

pub record Policy : Type 0 where
  pub token : Text
  pub patterns : List Text
  pub own : List Addr
  pub resolve : Text → Result (List Addr)

pub record Outside : Type 0 where
  pub match_egress : List Text → Text → Bool
  pub to_ascii : Text → Option Text
  pub parse_addr : Text → Option Addr
  pub to_lower : Text → Text

-- strings.TrimSpace.
abbrev pub trim_left : Text → Text
trim_left [] = []
trim_left (c ∷ s) = let rest = trim_left s in if is_space c then rest else c ∷ s

abbrev pub trim_right : Text → Text
trim_right [] = []
trim_right (c ∷ s) =
    let rest = trim_right s in if is_space c && text_eq rest [] then [] else c ∷ rest

abbrev pub trim_space : Text → Text
trim_space s = trim_right (trim_left s)

-- strings.Cut at a space: the text before the first one and the text after it.
abbrev pub cut_before : ℕ → Option (Text × Text) → Option (Text × Text)
cut_before c none = none
cut_before c (some (before, after)) = some (c ∷ before, after)

abbrev pub cut_space : Text → Option (Text × Text)
cut_space [] = none
cut_space (c ∷ s) = let rest = cut_space s in if c == 32 then some ([], s) else cut_before c rest

-- strings.EqualFold with "Bearer", none of whose letters folds beyond ASCII.
abbrev fold : ℕ → ℕ
fold c = if leb 65 c && leb c 90 then c + 32 else c

abbrev credential : Option (Text × Text) → Text
credential none = []
credential (some (scheme, value)) =
    if text_eq (map fold scheme) (codes "bearer") then trim_space value else []

pub bearer_token : Text → Text
bearer_token authorization = credential (cut_space (trim_space authorization))

-- strings.TrimSuffix(h, ".").
abbrev pub trim_dot : Text → Text
trim_dot [] = []
trim_dot (c ∷ s) = let rest = trim_dot s in if c == 46 && text_eq s [] then [] else c ∷ rest

abbrev or_text : Option Text → Text → Text
or_text none t = t
or_text (some a) t = a

abbrev pub port_is_allowed : ℤ → Bool
port_is_allowed p = eq_ℤ p (pos 80) || eq_ℤ p (pos 443)

module _ (out : Outside) where
  pub normalize_host : Text → Text
  normalize_host host =
      let h = trim_dot (out.to_lower (trim_space host)) in or_text (out.to_ascii h) h

  abbrev pattern_reason : Text → Reason
  pattern_reason p =
      if text_eq p (codes "*")
      then manifest_wildcard
      else if starts_with p (codes "*.")
      then manifest_suffix
      else manifest_exact

  pub classify_match : List Text → Text → Reason
  classify_match [] host = manifest_exact
  classify_match (p ∷ ps) host =
      let rest = classify_match ps host in
      if not (out.match_egress (p ∷ []) host) then rest else pattern_reason p

  -- The first refusal among the addresses that the resolver answers.
  pub check_addrs : List Addr → List Addr → Option Reason
  check_addrs own [] = none
  check_addrs own (a ∷ answers) =
      let rest = check_addrs own answers in
      if some_of (addr_eq (unmap a)) own
      then some own_address
      else if disallowed_addr (unmap a)
      then some private_address
      else rest

  module _ (p : Policy) (name : Text) (port : ℤ) where
    abbrev pub deny : ℕ → Reason → Decision
    deny status reason = record {
      allow = false;
      status = status;
      reason = reason;
      host = name;
      port = port;
      addr = zero_addr;
    }

    abbrev pub admit : Addr → Decision
    admit a = record {
      allow = true;
      status = 200;
      reason = classify_match p.patterns name;
      host = name;
      port = port;
      addr = unmap a;
    }

    abbrev pub decide_checked : Addr → Option Reason → Decision
    decide_checked a none = admit a
    decide_checked a (some reason) = deny 403 reason

    abbrev pub decide_resolved : Result (List Addr) → Decision
    decide_resolved (err _) = deny 403 resolve_failed
    decide_resolved (ok []) = deny 403 dns_no_answer
    decide_resolved (ok (a ∷ answers)) = decide_checked a (check_addrs p.own (a ∷ answers))

    abbrev pub decide_literal : Option Addr → Decision
    decide_literal (some ip) =
        if disallowed_addr ip then deny 403 private_address else deny 403 ip_literal
    decide_literal none =
        if not (port_is_allowed port)
        then deny 403 port_not_allowed
        else if not (out.match_egress p.patterns name)
        then deny 403 host_not_declared
        else decide_resolved (p.resolve name)

    abbrev pub decide_token : Text → Decision
    decide_token token =
        if text_eq token []
        then deny 407 token_missing
        else if not (text_eq token p.token)
        then deny 403 policy_missing
        else decide_literal (out.parse_addr name)

  pub decide : Policy → Text → Text → ℤ → Decision
  decide p authorization host port =
      decide_token p (normalize_host host) port (bearer_token authorization)
