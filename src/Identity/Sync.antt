-- ===== src/Identity/Sync.antt =====
-- `Sync` of internal/identity/service.go over the repositories of domains and mailboxes. Parameters: the mailbox service, which may be nil, as
-- an interface; the UUIDs that are drawn; and what the directory server lists. A call reads the clock once.
pub mod Standing
pub mod Takeover
pub mod Creation
pub mod Mailboxes
use opemail.Prelude.{
  ℕ, suc, ◌+◌, Bool, true, false, not, ◌&&◌, ◌||◌, Option, none, some, List, [], ◌∷◌, ◌++◌, length,
  keep, all, ltb, leb, ◌==◌, if◌then◌else◌,
}
use opemail.Text.{Text, codes, eqb, is_empty, canonical, split, equal_fold, last_part}
use opemail.Exec.{Result, ok, err, Exec, pure, fail, ignore, when, ◌>>=◌, ◌>>◌}
use opemail.Database.{Db}
use opemail.Directory.Tables.{ℤ, Domain}
use opemail.Domains.Repository.{get_by_name}
use opemail.Mailbox.Model.{MailboxError, Account, World, on_db}
use opemail.Mailbox.Repository.{get_by_email, update_identity_provider, update_status}
use opemail.Mailbox.Service.{or_gigabyte}

-- an identity that the directory lists
pub record Entry : Type 0 where
  pub id : Text
  pub email : Text
  pub is_disabled : Bool

pub record SyncOptions : Type 0 where
  pub domain_name : Text
  pub auto_create_mailbox : Bool
  pub default_quota_bytes : ℤ
  pub on_user_missing : Text
  pub dry_run : Bool

-- the kinds of the messages in `report.Errors`, each of which is about an e-mail
pub data Problem : Type 0 where
  invalid_format collision unknown_domain inactive_domain create_failed takeover : Problem

pub record SyncReport : Type 0 where
  pub total_identities : ℕ
  pub created : ℕ
  pub updated : ℕ
  pub suspended : ℕ
  pub skipped : ℕ
  pub on_user_missing : Text
  pub errors : List (Problem × Text)

pub data SyncError : Type 0 where
  not_configured not_listing listing_failed : SyncError

-- the mailbox service; the number is that of the entry it is called for
pub record Accounts (D : Type 0) : Type 0 where
  pub create : ℕ → Text → Text → ℤ → Exec (World D) MailboxError Account
  pub provision : ℕ → Text → Exec (World D) MailboxError (Account × Bool)

-- the provider "ldap": one that cannot list, or what its `ListUsers` answers
pub data Directory : Type 0 where
  unlisted : Directory
  listing : Option (List Entry) → Directory

abbrev pub is_letter : ℕ → Bool
is_letter c = (leb b'a' c && leb c b'z') || (leb b'A' c && leb c b'Z')

abbrev pub is_domain_char : ℕ → Bool
is_domain_char c = is_letter c || (leb b'0' c && leb c b'9') || (c == b'.') || (c == b'-')

abbrev pub is_local_char : ℕ → Bool
is_local_char c = is_domain_char c || (c == b'_') || (c == b'%') || (c == b'+')

-- `[a-zA-Z0-9.-]+\.[a-zA-Z]{2,}`
abbrev pub is_domain_text : Text → Bool
is_domain_text d =
    let top = last_part (split d b'.') in
    all is_domain_char d
    && all is_letter top
    && leb 2 (length top)
    && ltb (length top + 1) (length d)

-- what asciiEmailRegex matches
abbrev pub matches_parts : List Text → Bool
matches_parts (local ∷ domain ∷ []) =
    not (is_empty local) && all is_local_char local && is_domain_text domain
matches_parts _ = false

unfoldable pub is_ascii_email : Text → Bool
is_ascii_email e = matches_parts (split e b'@')

-- `strings.Split(email, "@")[1]`
abbrev pub domain_part : List Text → Text
domain_part (l ∷ d ∷ ps) = d
domain_part _ = []

-- `emailCounts[email]` for an address that the expression matches
unfoldable pub occurrences : Text → List Entry → ℕ
occurrences email es = length (keep (λ e. eqb (canonical e.email) email) es)

unfoldable pub skip : SyncReport → SyncReport
skip r = record r { skipped = r.skipped + 1 }

unfoldable pub problem : Problem → Text → SyncReport → SyncReport
problem p email r = record r { errors = r.errors ++ (p, email) ∷ [] }

-- a call whose error is looked at
abbrev pub value_of : {E A : Type 0} → Result E A → Option A
value_of (ok a) = some a
value_of (err e) = none

unfoldable pub tried : {S E F A : Type 0} → Exec S E A → Exec S F (Option A)
tried m s = (ok (value_of (m s).0), (m s).1)

module _ {D : Type 0} (now : ℕ) (drawn : ℕ → Text) (o : SyncOptions)
    (accounts : Option (Accounts D)) where
  unfoldable pub mark_created :
      Accounts D → ℕ → Text → SyncReport → Option Account → Exec (World D) SyncError SyncReport
  mark_created service k email r none = pure (problem create_failed email r)
  mark_created service k email r (some a) = do
    ignore (on_db (update_identity_provider now a.mailbox.id (codes "ldap")))
    ignore (service.provision k email)
    pure (record r { created = r.created + 1 })

  unfoldable pub create_managed :
      ℕ → Text → SyncReport → Option (Accounts D) → Exec (World D) SyncError SyncReport
  create_managed k email r none = pure (skip r)
  create_managed k email r (some service) =
      if o.auto_create_mailbox && not o.dry_run
      then (do
        a ← tried (
            service.create k email (codes "LDAP_MANAGED_" ++ drawn k)
              (or_gigabyte o.default_quota_bytes))
        mark_created service k email r a)
      else pure (skip r)

  unfoldable pub sync_existing :
      Entry → Text → SyncReport → Account → Exec (World D) SyncError SyncReport
  sync_existing e email r a =
      if eqb a.mailbox.identity_provider (codes "local")
      then pure (skip (problem takeover email r))
      else if e.is_disabled && eqb a.mailbox.status (codes "active")
      then (do
        if o.dry_run
            then pure tt
            else ignore (on_db (update_status now a.mailbox.id (codes "suspended")))
        pure (record r { suspended = r.suspended + 1 }))
      else pure (record r { updated = r.updated + 1 })

  unfoldable pub sync_found :
      ℕ → Entry → Text → SyncReport → Option Account → Exec (World D) SyncError SyncReport
  sync_found k e email r none = create_managed k email r accounts
  sync_found k e email r (some a) = sync_existing e email r a

  unfoldable pub sync_mailbox : ℕ → Entry → Text → SyncReport → Exec (World D) SyncError SyncReport
  sync_mailbox k e email r = do
    found ← tried (on_db (get_by_email email))
    sync_found k e email r found

  unfoldable pub sync_in_domain :
      ℕ → Entry → Text → SyncReport → Option Domain → Exec (World D) SyncError SyncReport
  sync_in_domain k e email r none = pure (skip (problem unknown_domain email r))
  sync_in_domain k e email r (some d) =
      if not (eqb d.status (codes "active"))
      then pure (skip (problem inactive_domain email r))
      else sync_mailbox k e email r

  -- one turn of the second loop; `all_entries` is what the first one counts
  unfoldable pub sync_identity :
      List Entry → ℕ → Entry → SyncReport → Exec (World D) SyncError SyncReport
  sync_identity all_entries k e r =
      let email = canonical e.email in
      let domain = domain_part (split email b'@') in
      if is_empty email
      then pure (skip r)
      else if not (is_ascii_email email)
      then pure (skip (problem invalid_format email r))
      else if ltb 1 (occurrences email all_entries)
      then pure (skip (problem collision email r))
      else if not (is_empty o.domain_name) && not (equal_fold domain o.domain_name)
      then pure (skip r)
      else (do d ← tried (on_db (get_by_name domain)); sync_in_domain k e email r d)

  unfoldable pub sync_all :
      List Entry → ℕ → List Entry → SyncReport → Exec (World D) SyncError SyncReport
  sync_all all_entries k [] r = pure r
  sync_all all_entries k (e ∷ es) r = do
    r' ← sync_identity all_entries k e r
    sync_all all_entries (suc k) es r'

  abbrev pub new_report : List Entry → SyncReport
  new_report es = record {
    total_identities = length es;
    created = 0;
    updated = 0;
    suspended = 0;
    skipped = 0;
    on_user_missing = o.on_user_missing;
    errors = [];
  }

  unfoldable pub sync : Option Directory → Exec (World D) SyncError SyncReport
  sync none = fail not_configured
  sync (some unlisted) = fail not_listing
  sync (some (listing none)) = fail listing_failed
  sync (some (listing (some es))) = sync_all es 0 es (new_report es)
