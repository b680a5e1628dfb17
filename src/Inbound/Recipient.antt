-- ===== src/Inbound/Recipient.antt =====
-- `VerifyRecipient` of internal/inbound/recipient.go. Its third query reads a column `status` of the
-- table `aliases`, which no migration creates, so PostgreSQL refuses the statement.
pub mod Lookup
use opemail.Prelude.{ℕ, ◌≡◌, refl, Bool, true, false, ◌&&◌, ◌||◌, List, [], ◌∷◌, if◌then◌else◌}
use opemail.Text.{Text, codes, eqb, to_lower, folded, split}
use opemail.Exec.{Result, ok, err, Exec}
use opemail.Database.{DbError, unavailable, no_rows, Db, statement}
use opemail.Directory.Tables.{Tables, Domain, Mailbox}

-- SELECT id FROM domains WHERE LOWER(name) = $1 AND status = 'active'
unfoldable pub active_domain : Text → List Domain → Bool
unfolding eqb to_lower
active_domain name [] = false
active_domain name (d ∷ ds) =
    (eqb (to_lower d.name) name && eqb d.status (codes "active")) || active_domain name ds

-- SELECT COUNT(*) FROM mailboxes WHERE LOWER(email) = $1 AND status = 'active' AND
-- provisioning_status = 'ready'; the column is NOT NULL
unfoldable pub ready_mailbox : Text → List Mailbox → Bool
unfolding eqb to_lower
ready_mailbox email [] = false
ready_mailbox email (m ∷ ms) =
    (eqb (to_lower m.email) email
      && eqb m.status (codes "active")
      && eqb m.provisioning_status (codes "ready"))
    || ready_mailbox email ms

abbrev pub yes_or_no_rows : Tables → Bool → Result DbError (Bool × Tables)
yes_or_no_rows t true = ok (true, t)
yes_or_no_rows t false = err no_rows

unfoldable pub query_domain : Text → Exec (Db Tables) DbError Bool
unfolding active_domain
query_domain name = statement (λ t. yes_or_no_rows t (active_domain name t.domains))

unfoldable pub query_mailboxes : Text → Exec (Db Tables) DbError Bool
unfolding ready_mailbox
query_mailboxes email = statement (λ t. ok (ready_mailbox email t.mailboxes, t))

-- `column "status" does not exist`
unfoldable pub query_aliases : Text → Exec (Db Tables) DbError Bool
query_aliases email = statement (λ t. err unavailable)

-- `err == nil && count > 0`
abbrev pub holds : Result DbError Bool → Bool
holds (ok b) = b
holds (err e) = false

abbrev pub mailbox_or_alias : Text → Db Tables → Bool × Db Tables
mailbox_or_alias email s =
    let (mailboxes, s') = query_mailboxes email s in
    if holds mailboxes
    then (true, s')
    else (let (aliases, s'') = query_aliases email s' in (holds aliases, s''))

abbrev pub known : Result DbError Bool → Text → Db Tables → Bool × Db Tables
known (err e) email s = (false, s)
known (ok found) email s = mailbox_or_alias email s

-- `parts` are those of the address at `@`; the error that is returned is always nil
abbrev pub verify_parts : Text → List Text → Db Tables → Bool × Db Tables
verify_parts email (local ∷ domain ∷ []) s =
    let (domain_row, s') = query_domain domain s in known domain_row email s'
verify_parts email _ s = (false, s)

unfoldable pub verify_recipient : Text → Db Tables → Bool × Db Tables
unfolding folded split query_domain query_mailboxes query_aliases
verify_recipient address s = let email = folded address in verify_parts email (split email b'@') s
