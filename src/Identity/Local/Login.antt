-- ===== src/Identity/Local/Login.antt =====
-- A login through the identity service that ends at the local provider.
use opemail.Prelude.{◌≡◌, refl, sym, ap, ◌∙◌, Bool, true, false, Option, none, some, List, ℕ, arith}
use mathlib.Core.Path.{subst}
use mathlib.Core.Option.{some-injective}
use opemail.Text.Laws.{canonical-canonical}
use opemail.Text.{Text, codes, is_empty, canonical}
use opemail.Exec.{Result, ok, err, fail_with}
use opemail.Exec.Brings.{recode_ok}
use opemail.Exec.Outcomes.{bind_ok, when_ok}
use opemail.Database.{Db}
use opemail.Directory.Tables.{Mailbox, Tables, find_email}
use opemail.Mailbox.Model.{Account}
use opemail.Mailbox.Repository.{get_by_email}
use opemail.Mailbox.Rows.{get_by_email-Keeps}
use opemail.Mailbox.Service.Login.{get_by_email-ok}
use opemail.Mailbox.Password.{Hashing, PasswordError, verify_password}
use opemail.Identity.Service
use opemail.Identity.Service.{IdentityError, Identity, Provider, registered}
use opemail.Identity.Service.Gate.{assigned, authenticate-Admission}
use opemail.Identity.Local.{
  closed, identity_of, verified, unless_closed, admit, authenticate, local,
}

pub get_by_email_rows : (e : Text) (s : Db Tables) → (get_by_email e s).1.rows ≡ s.rows
get_by_email_rows e s = (get_by_email-Keeps (λ t. t ≡ s.rows) e).after s refl

verified-ok :
    (i ident : Identity) (r : Result PasswordError Bool)
    → verified i r ≡ ok ident
    → (r ≡ ok true) × (ident ≡ i)
verified-ok i ident (ok true) h = (refl, ground arith)
verified-ok i ident (ok false) h = ground arith
verified-ok i ident (err e) h = ground arith

unless_closed-ok :
    (c : Option IdentityError) (r : Result IdentityError Identity) (ident : Identity)
    → unless_closed c r ≡ ok ident
    → (c ≡ none) × (r ≡ ok ident)
unless_closed-ok none r ident h = (refl, h)
unless_closed-ok (some e) r ident h = ground arith

module _ (lib : Hashing) (id_text : ℕ → Text) where
  -- what the local provider has checked of the mailbox it lets in
  pub record Verified (password : Text) (m : Mailbox) (ident : Identity) : Type 0 where
    pub still_open : closed m ≡ none
    pub password_checked : verify_password lib password m.password_hash ≡ ok true
    pub whose : ident ≡ identity_of lib id_text (codes "active") m

  admit-Verified :
      (password : Text) (m : Mailbox) (ident : Identity)
      → admit lib id_text password m ≡ ok ident
      → Verified password m ident
  unfolding admit
  admit-Verified password m ident h =
      let (is_open, checked) = unless_closed-ok (closed m) _ ident h in
      let (good, same) = verified-ok _ ident _ checked in
      record { still_open = is_open; password_checked = good; whose = same }

  local_login :
      (username password : Text) (s : Db Tables) (ident : Identity)
      → (authenticate lib id_text username password s).0 ≡ ok ident
      → (m : Mailbox) × (find_email (canonical username) s.rows.mailboxes ≡ some m)
        × Verified password m ident
  unfolding authenticate fail_with
  local_login username password s ident h =
      let (given, h1) = when_ok _ _ _ s ident h in
      let (a, got, h2) = bind_ok _ _ s ident h1 in
      let here = get_by_email-ok (canonical username) s a (recode_ok _ _ a got) in
      (a.mailbox, here, admit-Verified password a.mailbox ident h2)

  -- When the mailbox of the canonical user name was found and is assigned to the local provider, that provider is
  -- registered under `local` and the default provider's name is not empty, then a login through the identity service
  -- that succeeds has found this mailbox open and its stored hash verifying the password, and it returns the identity
  -- made of this very mailbox.
  pub local_login-Verified :
      (default_provider : Text) (providers : List (Text × Provider)) (now : ℕ) (salt : Option Text)
      (username password : Text) (s : Db Tables) (a : Account) (ident : Identity)
      → is_empty default_provider ≡ false
      → registered (codes "local") providers ≡ some (local lib id_text now salt)
      → assigned default_provider a.mailbox ≡ codes "local"
      → (get_by_email (canonical username) s).0 ≡ ok a
      → (Service.authenticate default_provider providers username password s).0 ≡ ok ident
      → Verified password a.mailbox ident
  local_login-Verified d providers now salt username password s a ident named there here got h =
      let adm = authenticate-Admission d providers username password s a ident named got h in
      let known : registered (codes "local") providers ≡ some adm.provider =
        rw (sym here) adm.known in
      let is_local : adm.provider ≡ local lib id_text now salt =
        some-injective _ _ (sym known ∙ there) in
      let s1 = (get_by_email (canonical username) s).1 in
      let accepted : (authenticate lib id_text (canonical username) password s1).0 ≡ ok ident =
        subst (λ p. (p.authenticate (canonical username) password s1).0 ≡ ok ident) is_local
          adm.accepted in
      let (m, found, verified) = local_login (canonical username) password s1 ident accepted in
      let row : find_email (canonical username) s1.rows.mailboxes ≡ some m =
        subst (λ u. find_email u s1.rows.mailboxes ≡ some m) (canonical-canonical username) found in
      let first = get_by_email-ok (canonical username) s a got in
      let same : m ≡ a.mailbox = some-injective _ _ (
        sym row
        ∙ ap (λ t. find_email (canonical username) t.mailboxes)
            (get_by_email_rows (canonical username) s)
        ∙ first) in
      subst (λ x. Verified password x ident) same verified
