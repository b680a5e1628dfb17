-- ===== src/Dkim/Policy.antt =====
-- The mail policies in internal/dkim/service.go.
pub mod Fallback
use opemail.Prelude.{ℕ, Bool, true, false, [], ◌∷◌, ◌++◌, if◌then◌else◌}
use opemail.Text.{Text, codes, is_empty}
use opemail.Exec.{Result, ok, err, Exec, pure, ◌>>=◌, ◌>>◌}
use opemail.Database.{Db}
use opemail.Directory.Tables.{pos, Domain}
use opemail.Dkim.Model.{
  DkimError, key_not_found, key_exists, invalid_selector, invalid_key_bits, private_key_not_found,
  key_mismatch, policy_not_found, domain_not_found, failed, Policy, World,
}
use opemail.Dkim.Repository.{get_policy_row, upsert_policy}
use opemail.Dkim.Keys.{domain_of}

-- the variables SERVER_IP and MAIL_SERVER_IP, empty where they are not set
pub record Env : Type 0 where
  pub server_ip : Text
  pub mail_server_ip : Text

abbrev pub ip_of : Env → Text
ip_of e = if is_empty e.server_ip then e.mail_server_ip else e.server_ip

unfoldable pub default_spf : Env → Text
unfolding is_empty
default_spf e =
    if is_empty (ip_of e)
    then codes "v=spf1 a mx ~all"
    else codes "v=spf1 a mx ip4:" ++ (ip_of e ++ codes " ~all")

-- a policy with the zero value in each field that is not named
abbrev pub bare_policy : ℕ → Text → Text → Text → Policy
bare_policy domain_id domain spf dmarc = record {
  domain_id = domain_id;
  domain = domain;
  spf_policy = spf;
  dmarc_policy = dmarc;
  spam_threshold = 0;
  reject_threshold = 0;
  quarantine_enabled = false;
  max_message_size = pos 0;
  rbl_policy = [];
  rdns_policy = [];
  created_at = 0;
  updated_at = 0;
}

abbrev pub default_policy : Env → Domain → Text → Policy
default_policy e d name =
    bare_policy d.id name (default_spf e)
      (codes "v=DMARC1; p=quarantine; rua=mailto:dmarc-reports@" ++ name)

-- a policy that is missing is the default one
abbrev pub or_default : Policy → Result DkimError Policy → Result DkimError Policy
or_default p (ok q) = ok q
or_default p (err policy_not_found) = ok p
or_default p (err x) = err x

abbrev pub with_default :
    Policy → Exec (Db World) DkimError Policy → Exec (Db World) DkimError Policy
with_default p m s = (or_default p (m s).0, (m s).1)

unfoldable pub get_policy : Env → Text → Exec (Db World) DkimError Policy
unfolding domain_of get_policy_row
get_policy e name = do
  d ← domain_of name
  with_default (default_policy e d name) (get_policy_row d.id)

-- `current, err := m(); if err != nil { current = p }`
abbrev pub or_else : Policy → Result DkimError Policy → Result DkimError Policy
or_else p (ok q) = ok q
or_else p (err x) = ok p

abbrev pub otherwise : Policy → Exec (Db World) DkimError Policy → Exec (Db World) DkimError Policy
otherwise p m s = (or_else p (m s).0, (m s).1)

unfoldable pub set_spf_policy : ℕ → Env → Text → Text → Exec (Db World) DkimError (Unit {0})
unfolding domain_of get_policy upsert_policy
set_spf_policy now e name spf = do
  d ← domain_of name
  current ← otherwise (bare_policy d.id [] [] (codes "v=DMARC1; p=none")) (get_policy e name)
  upsert_policy now (record current { spf_policy = spf })

unfoldable pub set_dmarc_policy : ℕ → Env → Text → Text → Exec (Db World) DkimError (Unit {0})
unfolding domain_of get_policy upsert_policy
set_dmarc_policy now e name dmarc = do
  d ← domain_of name
  current ← otherwise (bare_policy d.id [] (codes "v=spf1 mx ~all") []) (get_policy e name)
  upsert_policy now (record current { dmarc_policy = dmarc })
