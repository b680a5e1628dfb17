-- ===== src/Domains/Repository.antt =====
-- internal/domain/repository.go, with the cascades that the migrations give to a delete: the mailboxes and the
-- aliases of the deleted domain go with it.
pub mod Laws
use opemail.Prelude.{
  ℕ, Bool, true, false, not, ◌&&◌, ◌||◌, Option, none, some, List, [], ◌∷◌, ◌++◌, any, keep, ◌==◌,
  if◌then◌else◌,
}
use opemail.Text.{Text, eqb}
use opemail.Exec.{Result, ok, err, Exec}
use opemail.Database.{DbError, duplicate, no_rows, Db, statement}
use opemail.Directory.Tables.{Domain, Mailbox, Alias, Tables, find_name, find_domain, domain_taken}

unfoldable pub create_row : Domain → Exec (Db Tables) DbError (Unit {0})
unfolding domain_taken
create_row d = statement (λ t.
    if domain_taken d t.domains
    then err duplicate
    else ok (tt, record t { domains = t.domains ++ d ∷ [] }))

abbrev pub found : Tables → Option Domain → Result DbError (Domain × Tables)
found t none = err no_rows
found t (some d) = ok (d, t)

unfoldable pub get_by_name : Text → Exec (Db Tables) DbError Domain
unfolding find_name
get_by_name n = statement (λ t. found t (find_name n t.domains))

unfoldable pub get_by_id : ℕ → Exec (Db Tables) DbError Domain
unfolding find_domain
get_by_id i = statement (λ t. found t (find_domain i t.domains))

-- the id is that of a domain with the name
unfoldable pub belongs : Text → List Domain → ℕ → Bool
unfolding eqb
belongs n ds i = any (λ d. eqb d.name n && (d.id == i)) ds

unfoldable pub cascade : Text → Tables → Tables
unfolding eqb belongs
cascade n t = record {
  domains = keep (λ d. not (eqb d.name n)) t.domains;
  mailboxes = keep (λ m. not (belongs n t.domains m.domain_id)) t.mailboxes;
  aliases = keep (λ a. not (belongs n t.domains a.domain_id)) t.aliases;
}

unfoldable pub delete_row : Text → Exec (Db Tables) DbError (Unit {0})
unfolding eqb cascade
delete_row n =
    statement (λ t. if any (λ d. eqb d.name n) t.domains then ok (tt, cascade n t) else err no_rows)
