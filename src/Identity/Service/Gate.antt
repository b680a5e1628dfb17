-- ===== src/Identity/Service/Gate.antt =====
-- Whom `Authenticate` lets in.
use opemail.Prelude.{◌≡◌, sym, Bool, false, not, ◌||◌, some, List, arith, if◌then◌else◌}
use opemail.Text.{Text, codes, eqb, is_empty, canonical}
use opemail.Exec.{Result, ok, err, pure}
use opemail.Exec.Outcomes.{bind_ok, when_ok}
use opemail.Database.{DbError, Db}
use opemail.Directory.Tables.{Mailbox, Tables}
use opemail.Mailbox.Model.{Account}
use opemail.Mailbox.Repository.{get_by_email}
use opemail.Identity.Service.{
  IdentityError, Identity, Provider, registered, is_provisioned, gate, chosen, choose_provider,
  get_provider, authenticate,
}

-- a mailbox that is suspended, disabled or not provisioned
abbrev pub is_closed : Mailbox → Bool
unfolding eqb is_provisioned
is_closed m =
    eqb m.status (codes "suspended")
    || eqb m.status (codes "disabled")
    || not (is_provisioned m.provisioning_status)

-- the provider that a mailbox is assigned to
abbrev pub assigned : Text → Mailbox → Text
unfolding is_empty
assigned default_provider m =
    if is_empty m.identity_provider then default_provider else m.identity_provider

-- what a successful login has passed
pub record Admission (default_provider : Text) (providers : List (Text × Provider))
    (username password : Text) (s : Db Tables) (a : Account) (ident : Identity) : Type 0 where
  pub unclosed : is_closed a.mailbox ≡ false
  pub provider : Provider
  pub known : registered (assigned default_provider a.mailbox) providers ≡ some provider
  pub accepted :
      (provider.authenticate
        (canonical username)
        password
        (get_by_email (canonical username) s).1).0
      ≡ ok ident

gate-ok :
    (d : Text) (m : Mailbox) (n : Text)
    → gate d m ≡ ok n
    → (is_closed m ≡ false) × (n ≡ assigned d m)
unfolding gate is_closed assigned
gate-ok d m n h = (ground arith, ground arith)

chosen-ok :
    (d : Text) (r : Result DbError Account) (a : Account) (n : Text)
    → r ≡ ok a
    → chosen d r ≡ ok n
    → gate d a.mailbox ≡ ok n
unfolding chosen
chosen-ok d (ok b) a n e h = let same : b ≡ a = ground arith in rw (sym same) h
chosen-ok d (err x) a n e h = ground arith

assigned-some : (d : Text) (m : Mailbox) → is_empty d ≡ false → is_empty (assigned d m) ≡ false
unfolding assigned
assigned-some d m h = ground arith

get_provider-ok :
    (d name : Text) (providers : List (Text × Provider)) (s : Db Tables) (p : Provider)
    → (get_provider d providers name s).0 ≡ ok p
    → registered (if is_empty name then d else name) providers ≡ some p
unfolding get_provider
get_provider-ok d name providers s p h = ground arith

module _ (default_provider : Text) (providers : List (Text × Provider)) where
  admitted :
      (username password : Text) (s : Db Tables) (a : Account) (ident : Identity)
      → is_empty default_provider ≡ false
      → (get_by_email (canonical username) s).0 ≡ ok a
      → (name : Text) (p : Provider) (i : Identity)
      → chosen default_provider (get_by_email (canonical username) s).0 ≡ ok name
      → (get_provider default_provider providers name (get_by_email (canonical username) s).1).0
        ≡ ok p
      → (p.authenticate (canonical username) password (get_by_email (canonical username) s).1).0
        ≡ ok i
      → ◌≡◌ {A = Result IdentityError Identity} (ok i) (ok ident)
      → Admission default_provider providers username password s a ident
  unfolding chosen
  admitted username password s a ident named here name p i picked got accepted done =
      let through : gate default_provider a.mailbox ≡ ok name =
        chosen-ok default_provider _ a name here picked in
      let (not_closed, which) = gate-ok default_provider a.mailbox name through in
      let found = get_provider-ok default_provider name providers _ p got in
      let same : i ≡ ident = ground arith in
      record {
        unclosed = not_closed;
        provider = p;
        known = rw (sym which) (
            let filled : is_empty name ≡ false =
              rw which (assigned-some default_provider a.mailbox named) in
            ground arith);
        accepted = rw (sym same) accepted;
      }

  -- When the mailbox of the canonical user name was found and the default provider's name is not empty, a login that
  -- succeeds found the mailbox neither suspended nor disabled and provisioned, and it was the provider that the mailbox
  -- is assigned to, and no other, that accepted the password.
  pub authenticate-Admission :
      (username password : Text) (s : Db Tables) (a : Account) (ident : Identity)
      → is_empty default_provider ≡ false
      → (get_by_email (canonical username) s).0 ≡ ok a
      → (authenticate default_provider providers username password s).0 ≡ ok ident
      → Admission default_provider providers username password s a ident
  unfolding authenticate choose_provider get_provider pure
  authenticate-Admission username password s a ident named here h =
      let (given, h1) = when_ok _ _ _ s ident h in
      let (name, picked, h2) = bind_ok _ _ s ident h1 in
      let (p, got, h3) = bind_ok _ _ _ ident h2 in
      let (i, accepted, h4) = bind_ok _ _ _ ident h3 in
      let (u, checked, h5) = bind_ok _ _ _ ident h4 in
      admitted username password s a ident named here name p i picked got accepted h5
