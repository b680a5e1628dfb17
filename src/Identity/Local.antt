-- ===== src/Identity/Local.antt =====
-- The provider of the local accounts (internal/identity/local/provider.go). `id_text` is `uuid.UUID.String`, and
-- `salt` what `rand.Read` gives. The hash that is computed for an unknown user, whose result is not used, is left out.
pub mod Login
pub mod Change
mod Examples
use opemail.Prelude.{
  ℕ, Bool, true, false, not, ◌&&◌, ◌||◌, Option, none, some, List, [], ◌∷◌, length, if◌then◌else◌,
  ltb,
}
use opemail.Text.{Text, codes, eqb, is_empty, canonical, to_lower, has_prefix}
use opemail.Exec.{Result, ok, err, Exec, when, fail_with, ◌>>=◌, ◌>>◌}
use opemail.Database.{Db}
use opemail.Directory.Tables.{Mailbox, Tables}
use opemail.Mailbox.Repository.{get_by_email, update_password_hash}
use opemail.Mailbox.Password.{Hashing, Argon2Params, PasswordError, hash_password, verify_password}
use opemail.Identity.Service.{
  IdentityError, invalid_credentials, account_suspended, account_disabled, account_pending,
  authentication_failed, identity_not_found, weak_password, hash_failed, provider_failed, Identity,
  Provider, is_provisioned,
}

unfoldable pub roles_of : Text → List Text
unfolding to_lower has_prefix
roles_of email =
    if has_prefix (to_lower email) (codes "admin@") || has_prefix (to_lower email) (codes "root@")
    then codes "admin" ∷ []
    else codes "user" ∷ []

-- a mailbox that may not log in
unfoldable pub closed : Mailbox → Option IdentityError
unfolding eqb
closed m =
    if eqb m.status (codes "suspended")
    then some account_suspended
    else if eqb m.status (codes "disabled")
    then some account_disabled
    else if not (is_provisioned m.provisioning_status)
    then some account_pending
    else none

unfoldable pub status_of : Text → Text
unfolding eqb
status_of status =
    if eqb status (codes "suspended")
    then codes "suspended"
    else if eqb status (codes "disabled")
    then codes "disabled"
    else codes "active"

abbrev pub verified : Identity → Result PasswordError Bool → Result IdentityError Identity
verified ident (ok true) = ok ident
verified ident (ok false) = err authentication_failed
verified ident (err e) = err authentication_failed

abbrev pub unless_closed :
    Option IdentityError → Result IdentityError Identity → Result IdentityError Identity
unless_closed (some e) r = err e
unless_closed none r = r

-- `DefaultArgon2Params`
abbrev pub default_params : Argon2Params
default_params = record { memory = 65536; iterations = 1; parallelism = 4; key_length = 32 }

abbrev pub stored : ℕ → ℕ → Option Text → Exec (Db Tables) IdentityError (Unit {0})
stored now i none s = (err hash_failed, s)
stored now i (some h) s = fail_with provider_failed (update_password_hash now i h) s

unfoldable pub set_password :
    Hashing → ℕ → Option Text → Text → Text → Exec (Db Tables) IdentityError (Unit {0})
unfolding canonical get_by_email hash_password
set_password lib now salt username new_password = do
  when (ltb (length new_password) 8) weak_password
  a ← fail_with identity_not_found (get_by_email (canonical username))
  stored now a.mailbox.id (hash_password lib new_password salt default_params)

module _ (lib : Hashing) (id_text : ℕ → Text) where
  unfoldable pub identity_of : Text → Mailbox → Identity
  unfolding roles_of
  identity_of status m = record {
    id = id_text m.id;
    username = m.email;
    email = m.email;
    status = status;
    provider_name = codes "local";
    roles = roles_of m.email;
  }

  unfoldable pub admit : Text → Mailbox → Result IdentityError Identity
  unfolding verify_password closed identity_of
  admit password m =
      unless_closed (closed m)
        (verified (identity_of (codes "active") m) (verify_password lib password m.password_hash))

  unfoldable pub authenticate : Text → Text → Exec (Db Tables) IdentityError Identity
  unfolding canonical is_empty get_by_email admit
  authenticate username password = do
    when (is_empty (canonical username) || is_empty password) invalid_credentials
    a ← fail_with authentication_failed (get_by_email (canonical username))
    λ s. (admit password a.mailbox, s)

  unfoldable pub lookup : Text → Exec (Db Tables) IdentityError Identity
  unfolding canonical get_by_email identity_of status_of
  lookup username = do
    a ← fail_with identity_not_found (get_by_email (canonical username))
    λ s. (ok (identity_of (status_of a.mailbox.status) a.mailbox), s)

  -- the provider as the service registers it
  abbrev pub local : ℕ → Option Text → Provider
  local now salt = record {
    name = codes "local";
    authenticate = authenticate;
    lookup = lookup;
    set_password = set_password lib now salt;
  }
