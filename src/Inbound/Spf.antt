-- ===== src/Inbound/Spf.antt =====
-- `EvaluateSPF` of internal/inbound/policy.go. What `net.ParseCIDR` and `net.ParseIP` say of the client's
-- address is the parameter `Addresses`.
pub mod FirstMatch
use opemail.Prelude.{
  ℕ, ◌≡◌, refl, Bool, true, false, not, ◌&&◌, ◌||◌, Option, none, some, List, [], ◌∷◌, ◌++◌, ◌==◌,
  if◌then◌else◌, All, arith, Bool-cases, inl, inr,
}
use opemail.Text.{
  Text, codes, eqb, is_empty, to_lower, trim_space, trim_quotes, has_prefix, contains, fields, drop,
}
use opemail.Inbound.Model.{AuthStatus, pass, fail, soft_fail, neutral, none_status, perm_error}

-- `net.ParseCIDR(s)` succeeds with a network that contains the client, `net.ParseIP(s)` is the
-- client's address
pub record Addresses : Type 0 where
  pub in_network : Text → Bool
  pub is_client : Text → Bool

abbrev pub is_qualifier : ℕ → Bool
is_qualifier c = c == b'+' || c == b'-' || c == b'~' || c == b'?'

-- the qualifier of a term and the mechanism behind it
unfoldable pub qualified : Text → ℕ × Text
qualified [] = (b'+', [])
qualified (c ∷ term) = if is_qualifier c then (c, term) else (b'+', c ∷ term)

-- the `switch` on the qualifier
abbrev pub result_of : ℕ → AuthStatus
result_of q =
    if q == b'+' then pass else if q == b'-' then fail else if q == b'~' then soft_fail else neutral

-- `terms[1:]`
abbrev pub after_version : List Text → List Text
after_version [] = []
after_version (v ∷ terms) = terms

module _ (net : Addresses) where
  unfoldable pub address_matches : Text → Bool
  unfolding contains
  address_matches ip = if contains ip (codes "/") then net.in_network ip else net.is_client ip

  -- `lower` is the mechanism in lower case; `mx`, `a` and every other mechanism do not match
  unfoldable pub mechanism_matches : Text → Bool
  unfolding address_matches has_prefix eqb
  mechanism_matches lower =
      if eqb lower (codes "all")
      then true
      else if has_prefix lower (codes "ip4:") || has_prefix lower (codes "ip6:")
      then address_matches (drop 4 lower)
      else false

  unfoldable pub term_matches : Text → Bool
  unfolding qualified mechanism_matches to_lower
  term_matches term = mechanism_matches (to_lower (qualified term).1)

  unfoldable pub evaluate_terms : List Text → AuthStatus
  unfolding term_matches
  evaluate_terms [] = neutral
  evaluate_terms (t ∷ ts) =
      let rest = evaluate_terms ts in if term_matches t then result_of (qualified t).0 else rest

  unfoldable pub evaluate_spf : Text → AuthStatus
  unfolding evaluate_terms
  evaluate_spf record' =
      if is_empty record'
      then none_status
      else (let r = trim_space (trim_quotes record') in
          if not (has_prefix r (codes "v=spf1"))
          then perm_error
          else evaluate_terms (after_version (fields r)))
