-- ===== src/Mailbox/Repository.antt =====
-- internal/mailbox/repository.go: the statements on the table of mailboxes.
use opemail.Prelude.{ℕ, not, Option, none, some, [], ◌∷◌, ◌++◌, map, any, keep, ◌==◌, if◌then◌else◌}
use opemail.Text.{Text, codes, eqb, is_empty}
use opemail.Exec.{Result, ok, err, Exec}
use opemail.Database.{DbError, duplicate, no_rows, Db, statement}
use opemail.Directory.Tables.{
  ℤ, Mailbox, Domain, Tables, find_email, find_mailbox, find_domain, mailbox_taken,
}
use opemail.Mailbox.Model.{Account, pending, active}

abbrev pub or_default : Text → Text → Text
or_default value default = if is_empty value then default else value

-- the fields that `Create` fills in; the id and the times are set by every caller
abbrev pub filled : Mailbox → Mailbox
filled m = record m {
  status = or_default m.status active;
  provisioning_status = or_default m.provisioning_status pending;
  identity_provider = or_default m.identity_provider (codes "local");
}

unfoldable pub create_row : Mailbox → Exec (Db Tables) DbError (Unit {0})
unfolding mailbox_taken is_empty
create_row m = statement (λ t.
    if mailbox_taken m t.mailboxes
    then err duplicate
    else ok (tt, record t { mailboxes = t.mailboxes ++ filled m ∷ [] }))

-- JOIN domains d ON m.domain_id = d.id
abbrev pub joined : Tables → Mailbox → Option Domain → Result DbError (Account × Tables)
joined t m none = err no_rows
joined t m (some d) = ok (record { mailbox = m; domain_name = d.name }, t)

unfoldable pub located : Tables → Option Mailbox → Result DbError (Account × Tables)
unfolding find_domain
located t none = err no_rows
located t (some m) = joined t m (find_domain m.domain_id t.domains)

unfoldable pub get_by_email : Text → Exec (Db Tables) DbError Account
unfolding find_email located
get_by_email e = statement (λ t. located t (find_email e t.mailboxes))

unfoldable pub get_by_id : ℕ → Exec (Db Tables) DbError Account
unfolding find_mailbox located
get_by_id i = statement (λ t. located t (find_mailbox i t.mailboxes))

unfoldable pub set_by_id : ℕ → (Mailbox → Mailbox) → Mailbox → Mailbox
set_by_id i f m = if m.id == i then f m else m

-- UPDATE mailboxes SET … WHERE id = i; no row affected is `ErrMailboxNotFound`
unfoldable pub update_by_id : ℕ → (Mailbox → Mailbox) → Exec (Db Tables) DbError (Unit {0})
unfolding set_by_id
update_by_id i f = statement (λ t.
    if any (λ m. m.id == i) t.mailboxes
    then ok (tt, record t { mailboxes = map (set_by_id i f) t.mailboxes })
    else err no_rows)

unfoldable pub update_provisioning_status : ℕ → ℕ → Text → Exec (Db Tables) DbError (Unit {0})
unfolding update_by_id
update_provisioning_status now i status =
    update_by_id i (λ m. record m { provisioning_status = status; updated_at = now })

unfoldable pub update_status : ℕ → ℕ → Text → Exec (Db Tables) DbError (Unit {0})
unfolding update_by_id
update_status now i status = update_by_id i (λ m. record m { status = status; updated_at = now })

unfoldable pub update_identity_provider : ℕ → ℕ → Text → Exec (Db Tables) DbError (Unit {0})
unfolding update_by_id
update_identity_provider now i provider =
    update_by_id i (λ m. record m { identity_provider = provider; updated_at = now })

unfoldable pub update_password_hash : ℕ → ℕ → Text → Exec (Db Tables) DbError (Unit {0})
unfolding update_by_id
update_password_hash now i hash =
    update_by_id i (λ m. record m { password_hash = hash; updated_at = now })

unfoldable pub update_used_bytes : ℕ → ℕ → ℤ → Exec (Db Tables) DbError (Unit {0})
unfolding update_by_id
update_used_bytes now i n = update_by_id i (λ m. record m { used_bytes = n; updated_at = now })

unfoldable pub update_quota_bytes : ℕ → ℕ → ℤ → Exec (Db Tables) DbError (Unit {0})
unfolding update_by_id
update_quota_bytes now i n = update_by_id i (λ m. record m { quota_bytes = n; updated_at = now })

unfoldable pub delete_row : Text → Exec (Db Tables) DbError (Unit {0})
unfolding eqb
delete_row e = statement (λ t.
    if any (λ m. eqb m.email e) t.mailboxes
    then ok (tt, record t { mailboxes = keep (λ m. not (eqb m.email e)) t.mailboxes })
    else err no_rows)
