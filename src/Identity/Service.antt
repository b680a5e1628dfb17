-- ===== src/Identity/Service.antt =====
-- `Authenticate`, `GetProvider`, `Lookup` and `SetPassword` of internal/identity/service.go, with a mailbox repository. A provider is an
-- interface: it may read and change the database.
pub mod Gate
use opemail.Prelude.{
  ℕ, Bool, true, false, not, ◌&&◌, ◌||◌, Option, none, some, List, [], ◌∷◌, if◌then◌else◌,
}
use opemail.Text.{Text, codes, eqb, is_empty, canonical}
use opemail.Exec.{Result, ok, err, Exec, pure, fail, when, ◌>>=◌, ◌>>◌}
use opemail.Database.{DbError, Db}
use opemail.Directory.Tables.{Mailbox, Tables}
use opemail.Mailbox.Model.{Account}
use opemail.Mailbox.Repository.{get_by_email}

pub data IdentityError : Type 0 where
  invalid_credentials account_suspended account_disabled account_pending : IdentityError
  not_registered not_provisioned provider_failed : IdentityError
  authentication_failed identity_not_found weak_password hash_failed : IdentityError

pub record Identity : Type 0 where
  pub id : Text
  pub username : Text
  pub email : Text
  pub status : Text
  pub provider_name : Text
  pub roles : List Text

pub record Provider : Type 0 where
  pub name : Text
  pub authenticate : Text → Text → Exec (Db Tables) IdentityError Identity
  pub lookup : Text → Exec (Db Tables) IdentityError Identity
  pub set_password : Text → Text → Exec (Db Tables) IdentityError (Unit {0})

-- the map of the providers
unfoldable pub registered : Text → List (Text × Provider) → Option Provider
unfolding eqb
registered name [] = none
registered name ((key, p) ∷ ps) = if eqb key name then some p else registered name ps

abbrev pub is_provisioned : Text → Bool
unfolding eqb
is_provisioned status = eqb status (codes "ready") || eqb status (codes "active")

-- the check of a mailbox that was found: the provider it is assigned to, or why it is refused
unfoldable pub gate : Text → Mailbox → Result IdentityError Text
unfolding eqb is_empty is_provisioned
gate default_provider m =
    if eqb m.status (codes "suspended")
    then err account_suspended
    else if eqb m.status (codes "disabled")
    then err account_disabled
    else if not (is_provisioned m.provisioning_status)
    then err account_pending
    else ok (if is_empty m.identity_provider then default_provider else m.identity_provider)

-- a mailbox that is not found, and a look-up that fails, leave the default provider
abbrev pub chosen : Text → Result DbError Account → Result IdentityError Text
unfolding gate
chosen default_provider (ok a) = gate default_provider a.mailbox
chosen default_provider (err e) = ok default_provider

-- the second check
unfoldable pub second_gate : Result DbError Account → Result IdentityError (Unit {0})
unfolding eqb is_provisioned
second_gate (err e) = err not_provisioned
second_gate (ok a) =
    if not (eqb a.mailbox.status (codes "active"))
    then err account_suspended
    else if not (is_provisioned a.mailbox.provisioning_status)
    then err account_pending
    else ok tt

unfoldable pub choose_provider : Text → Text → Exec (Db Tables) IdentityError Text
unfolding get_by_email chosen
choose_provider default_provider username s =
    (chosen default_provider (get_by_email username s).0, (get_by_email username s).1)

unfoldable pub check_mailbox : Text → Exec (Db Tables) IdentityError (Unit {0})
unfolding get_by_email second_gate
check_mailbox email s = (second_gate (get_by_email email s).0, (get_by_email email s).1)

module _ (default_provider : Text) (providers : List (Text × Provider)) where
  unfoldable pub get_provider : Text → Exec (Db Tables) IdentityError Provider
  unfolding registered is_empty
  get_provider name s = (
    elim (registered (if is_empty name then default_provider else name) providers) [
      | none ↦ err not_registered
      | some p ↦ ok p
    ],
    s,
  )

  unfoldable pub authenticate : Text → Text → Exec (Db Tables) IdentityError Identity
  unfolding canonical is_empty eqb
  authenticate username password = do
    when (is_empty (canonical username) || is_empty password) invalid_credentials
    name ← choose_provider default_provider (canonical username)
    provider ← get_provider name
    ident ← provider.authenticate (canonical username) password
    if eqb provider.name (codes "local") then pure tt else check_mailbox ident.email
    pure ident

  unfoldable pub lookup : Text → Exec (Db Tables) IdentityError Identity
  unfolding canonical
  lookup username = do
    provider ← get_provider default_provider
    provider.lookup (canonical username)

  unfoldable pub set_password : Text → Text → Exec (Db Tables) IdentityError (Unit {0})
  unfolding canonical
  set_password username new_password = do
    provider ← get_provider default_provider
    provider.set_password (canonical username) new_password
