-- ===== src/Sandbox/Policy/Tests.antt =====
-- A policy with one pattern, for a host that resolves to 93.184.216.34.
use runtime_service.Base.{
  ◌≡◌, ◌≢◌, refl, inr, true, false, pos, [], ◌∷◌, none, some, Text, text_eq, codes, some_of, sym,
  ◌∙◌,
}
use runtime_service.Errors.{ok}
use runtime_service.Sandbox.Address.{v4, disallowed_addr, disallowed_prefixes}
use runtime_service.Sandbox.Policy.{
  Policy, Outside, decide, bearer_token, normalize_host, check_addrs,
}
use runtime_service.Sandbox.Policy.Admission.{IsNamed, IsAdmitted, decide_sound, decide_complete}

abbrev policy : Policy
policy = record {
  token = codes "s3cret";
  patterns = codes "example.org" ∷ [];
  own = v4 167772162 ∷ [];
  resolve = λ name. ok (v4 1572395042 ∷ []);
}

-- Exact patterns, ASCII names, no literal, lower case already.
abbrev outside : Outside
outside = record {
  match_egress = λ ps name. some_of (λ p. text_eq p name) ps;
  to_ascii = λ t. some t;
  parse_addr = λ t. none;
  to_lower = λ t. t;
}

abbrev authorization : Text
authorization = codes "Bearer s3cret"

abbrev host : Text
host = codes "example.org."

admits : (decide outside policy authorization host (pos 443)).allow ≡ true
unfolding decide bearer_token normalize_host check_addrs disallowed_addr disallowed_prefixes
admits = refl

token_is : bearer_token authorization ≡ codes "s3cret"
unfolding bearer_token
token_is = refl

fine : disallowed_addr (v4 1572395042) ≡ false
unfolding disallowed_addr disallowed_prefixes
fine = refl

named : IsNamed outside policy (normalize_host outside host) (pos 443) (v4 1572395042)
unfolding normalize_host
named = (refl, inr refl, refl, (v4 1572395042, [], refl, ((refl, fine), tt), refl))

decide_sound_example :
    (bearer_token authorization ≢ [])
    × (bearer_token authorization ≡ policy.token)
    × IsNamed outside policy
        (normalize_host outside host)
        (pos 443)
        (decide outside policy authorization host (pos 443)).addr
decide_sound_example = decide_sound outside policy authorization host (pos 443) admits

token_given : bearer_token authorization ≢ []
token_given h = let clash : codes "s3cret" ≡ [] = sym token_is ∙ h in cc

decide_complete_example :
    IsAdmitted outside policy (decide outside policy authorization host (pos 443)) (v4 1572395042)
decide_complete_example =
    decide_complete outside policy authorization host (pos 443) (v4 1572395042) token_given token_is
      named
