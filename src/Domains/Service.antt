-- ===== src/Domains/Service.antt =====
-- internal/domain/service.go.
pub mod Deletion
use opemail.Prelude.{
  ℕ, Bool, true, false, not, ◌&&◌, ◌||◌, Option, none, some, List, [], ◌∷◌, length, all, ltb, leb,
  ◌==◌, if◌then◌else◌,
}
use opemail.Text.{Text, codes, lower, split, canonical, is_empty}
use opemail.Exec.{Result, ok, err, Exec, pure, when, recode_by, ◌>>=◌, ◌>>◌}
use opemail.Database.{DbError, unavailable, duplicate, no_rows, Db}
use opemail.Directory.Tables.{Domain, Tables}
use opemail.Domains.Repository.{create_row, get_by_name, delete_row}

pub data DomainError : Type 0 where
  domain_not_found domain_exists invalid_domain database_failed : DomainError

-- `[a-z0-9]` without regard to case
unfoldable pub is_alphanumeric : ℕ → Bool
unfolding lower
is_alphanumeric c = (leb 97 (lower c) && leb (lower c) 122) || (leb 48 c && leb c 57)

abbrev pub ends_well : Text → Bool
unfolding is_alphanumeric
ends_well [] = false
ends_well (c ∷ []) = is_alphanumeric c
ends_well (c ∷ d ∷ s) = ends_well (d ∷ s)

abbrev pub begins_well : Text → Bool
unfolding is_alphanumeric
begins_well [] = false
begins_well (c ∷ s) = is_alphanumeric c

-- `[a-z0-9]([a-z0-9-]{0,61}[a-z0-9])?`
unfoldable pub is_label : Text → Bool
unfolding is_alphanumeric begins_well ends_well
is_label s =
    leb (length s) 63
    && begins_well s
    && ends_well s
    && all (λ c. is_alphanumeric c || (c == b'-')) s

-- two labels or more, with dots between them
unfoldable pub is_valid_domain_name : Text → Bool
unfolding split is_label
is_valid_domain_name n =
    if (length n == 0) || ltb 253 (length n)
    then false
    else ltb 1 (length (split n b'.')) && all is_label (split n b'.')

abbrev pub of_db : DbError → DomainError
of_db unavailable = database_failed
of_db duplicate = database_failed
of_db no_rows = domain_not_found

abbrev pub on_db : {A : Type 0} → Exec (Db Tables) DbError A → Exec (Db Tables) DomainError A
on_db m s = (recode_by of_db (m s).0, (m s).1)

-- a domain that is found is an error, and one that is not is none
abbrev pub answer_of_existing : Result DbError Domain → Result DomainError (Unit {0})
answer_of_existing (ok d) = err domain_exists
answer_of_existing (err no_rows) = ok tt
answer_of_existing (err unavailable) = err database_failed
answer_of_existing (err duplicate) = err database_failed

unfoldable pub must_be_new : Text → Exec (Db Tables) DomainError (Unit {0})
unfolding get_by_name
must_be_new n s = (answer_of_existing (get_by_name n s).0, (get_by_name n s).1)

abbrev pub new_domain : ℕ → ℕ → Text → Domain
new_domain now id name = record {
  id = id;
  name = name;
  status = codes "active";
  created_at = now;
  updated_at = now;
}

-- `id` is the UUID that the call draws
unfoldable pub create : ℕ → ℕ → Text → Exec (Db Tables) DomainError Domain
unfolding canonical is_valid_domain_name
create now id name = do
  when (not (is_valid_domain_name (canonical name))) invalid_domain
  must_be_new (canonical name)
  on_db (create_row (new_domain now id (canonical name)))
  pure (new_domain now id (canonical name))

unfoldable pub get : Text → Exec (Db Tables) DomainError Domain
unfolding canonical is_empty
get name = do when (is_empty (canonical name)) invalid_domain; on_db (get_by_name (canonical name))

unfoldable pub delete : Text → Exec (Db Tables) DomainError (Unit {0})
unfolding canonical is_empty
delete name = do
  when (is_empty (canonical name)) invalid_domain
  on_db (delete_row (canonical name))
