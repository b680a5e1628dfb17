-- ===== src/Inbound/Dmarc.antt =====
-- `IsDomainAligned` and `EvaluateDMARC` of internal/inbound/policy.go.
pub mod Alignment
use opemail.Prelude.{ℕ, Bool, true, false, not, ◌&&◌, ◌||◌, List, [], ◌∷◌, ◌++◌, if◌then◌else◌}
use opemail.Text.{Text, codes, eqb, is_empty, folded, has_suffix, contains, split, last_part}
use opemail.Inbound.Model.{
  AuthStatus, pass, fail, SpamAction, deliver, quarantine, reject, SpfVerification,
  DkimVerification, DmarcVerification,
}

-- both domains in lower case, without white space around them
unfoldable pub aligned : Text → Text → Bool → Bool
unfolding is_empty eqb has_suffix
aligned auth from strict =
    if is_empty auth || is_empty from
    then false
    else if strict
    then eqb auth from
    else if eqb auth from
    then true
    else has_suffix auth (b'.' ∷ from) || has_suffix from (b'.' ∷ auth)

unfoldable pub is_domain_aligned : Text → Text → Bool → Bool
unfolding aligned folded
is_domain_aligned auth_domain header_from strict =
    aligned (folded auth_domain) (folded header_from) strict

-- the domain of the From header
unfoldable pub from_domain : Text → Text
unfolding contains last_part split folded
from_domain header_from =
    folded
      (if contains header_from (codes "@") then last_part (split header_from b'@') else header_from)

abbrev pub is_pass : AuthStatus → Bool
is_pass pass = true
is_pass _ = false

unfoldable pub spf_aligned : Text → SpfVerification → Bool
unfolding is_domain_aligned from_domain
spf_aligned header_from spf =
    is_pass spf.status && is_domain_aligned spf.domain (from_domain header_from) false

unfoldable pub dkim_aligned : Text → DkimVerification → Bool
unfolding is_domain_aligned from_domain
dkim_aligned header_from dkim =
    is_pass dkim.status && is_domain_aligned dkim.domain (from_domain header_from) false

unfoldable pub policy_of : Text → Text
unfolding is_empty folded
policy_of dmarc_policy = if is_empty dmarc_policy then codes "none" else folded dmarc_policy

abbrev pub failing : Text → Bool → Bool → SpamAction → Text → DmarcVerification
failing policy by_spf by_dkim action reason = record {
  status = fail;
  policy = policy;
  spf_aligned = by_spf;
  dkim_aligned = by_dkim;
  action = action;
  reason = reason;
}

-- the `switch policy`
unfoldable pub failed : Text → Bool → Bool → DmarcVerification
unfolding eqb
failed policy by_spf by_dkim =
    if eqb policy (codes "reject")
    then failing policy by_spf by_dkim reject (codes "DMARC fail: policy is p=reject")
    else if eqb policy (codes "quarantine")
    then failing policy by_spf by_dkim quarantine (codes "DMARC fail: policy is p=quarantine")
    else failing policy by_spf by_dkim deliver
        (codes "DMARC fail: policy is p=none (observation mode)")

unfoldable pub evaluate_dmarc : Text → SpfVerification → DkimVerification → Text → DmarcVerification
unfolding spf_aligned dkim_aligned policy_of failed
evaluate_dmarc header_from spf dkim dmarc_policy =
    let by_spf = spf_aligned header_from spf in
    let by_dkim = dkim_aligned header_from dkim in
    let policy = policy_of dmarc_policy in
    if by_spf || by_dkim
    then record {
      status = pass;
      policy = policy;
      spf_aligned = by_spf;
      dkim_aligned = by_dkim;
      action = deliver;
      reason = codes "DMARC pass: identifier alignment satisfied";
    }
    else failed policy by_spf by_dkim
