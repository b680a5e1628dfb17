-- ===== src/Mailbox/Aliases.antt =====
-- internal/mailbox/alias.go: the repository of the aliases. Both addresses are put into lower case by every operation.
pub mod Keys
use opemail.Prelude.{
  ℕ, Bool, true, false, not, ◌&&◌, ◌||◌, Option, none, some, List, [], ◌∷◌, ◌++◌, any, keep,
  if◌then◌else◌,
}
use opemail.Text.{Text, eqb, to_lower}
use opemail.Exec.{Result, ok, err, Exec, recode_by}
use opemail.Database.{DbError, unavailable, duplicate, no_rows, Db, statement}
use opemail.Directory.Tables.{Alias, Tables, alias_taken}

pub data AliasError : Type 0 where
  alias_not_found alias_already_exists database_failed : AliasError

abbrev pub of_db : DbError → AliasError
of_db unavailable = database_failed
of_db duplicate = alias_already_exists
of_db no_rows = alias_not_found

abbrev pub run :
    {A : Type 0} → (Tables → Result DbError (A × Tables)) → Exec (Db Tables) AliasError A
run f s = (recode_by of_db (statement f s).0, (statement f s).1)

unfoldable pub is_between : Text → Text → Alias → Bool
unfolding eqb
is_between source destination a = eqb a.source source && eqb a.destination destination

unfoldable pub find_alias : Text → Text → List Alias → Option Alias
unfolding is_between
find_alias source destination [] = none
find_alias source destination (a ∷ rows) =
    if is_between source destination a then some a else find_alias source destination rows

abbrev pub lowered : Alias → Alias
unfolding to_lower
lowered a = record a { source = to_lower a.source; destination = to_lower a.destination }

-- the id and the time are set by the caller
unfoldable pub create_alias : Alias → Exec (Db Tables) AliasError (Unit {0})
unfolding alias_taken lowered
create_alias a = run (λ t.
    if alias_taken (lowered a) t.aliases
    then err duplicate
    else ok (tt, record t { aliases = t.aliases ++ lowered a ∷ [] }))

abbrev pub found : Tables → Option Alias → Result DbError (Alias × Tables)
found t none = err no_rows
found t (some a) = ok (a, t)

unfoldable pub get_alias : Text → Text → Exec (Db Tables) AliasError Alias
unfolding to_lower find_alias
get_alias source destination =
    run (λ t. found t (find_alias (to_lower source) (to_lower destination) t.aliases))

unfoldable pub delete_alias : Text → Text → Exec (Db Tables) AliasError (Unit {0})
unfolding to_lower is_between
delete_alias source destination = run (λ t.
    if any (is_between (to_lower source) (to_lower destination)) t.aliases
    then ok (
      tt,
      record t {
        aliases = keep (λ a. not (is_between (to_lower source) (to_lower destination) a)) t.aliases;
      },
    )
    else err no_rows)
