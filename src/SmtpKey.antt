-- ===== src/SmtpKey.antt =====
-- internal/smtpkey: service.go over repository.go. Parameters: `HashPassword` under the salt that the call draws, the
-- random bytes in their encoding, where reading them succeeds, and the UUIDs. A call reads the clock once.
pub mod Revocation
mod Examples
use opemail.Prelude.{
  ℕ, ◌+◌, Bool, true, false, not, ◌&&◌, ◌||◌, Option, none, some, List, [], ◌∷◌, ◌++◌, length, map,
  any, all, leb, ◌==◌, if◌then◌else◌,
}
use opemail.Text.{Text, codes, eqb, is_empty, canonical, to_lower, trim_space}
use opemail.Exec.{Result, ok, err, Exec, pure, fail, when, recode_by, ◌>>=◌, ◌>>◌}
use opemail.Database.{DbError, unavailable, duplicate, no_rows, Db, statement}
use opemail.Directory.Tables.{Domain, Tables, find_domain}
use opemail.Domains.Service.{DomainError, domain_not_found, get}

pub data SmtpKeyError : Type 0 where
  key_not_found key_exists invalid_name failed : SmtpKeyError
  of_domain : DomainError → SmtpKeyError

pub data KeyStatus : Type 0 where
  active revoked : KeyStatus

pub record Key : Type 0 where
  pub id : ℕ
  pub domain_id : ℕ
  pub domain : Text
  pub name : Text
  pub username : Text
  pub status : KeyStatus
  pub created_at : ℕ
  pub last_used_at : Option ℕ
  pub revoked_at : Option ℕ

pub record IssuedKey : Type 0 where
  pub key : Key
  pub secret : Text

-- a row of smtp_credentials; the name of the domain is joined to it when it is listed
pub record Credential : Type 0 where
  pub key : Key
  pub secret_hash : Text

pub record Store : Type 0 where
  pub directory : Tables
  pub credentials : List Credential

abbrev pub is_active : KeyStatus → Bool
is_active active = true
is_active revoked = false

-- the primary key, `UNIQUE(username)` and the unique index on the names of active keys
abbrev pub is_duplicate : Key → Key → Bool
is_duplicate k x =
    (x.id == k.id)
    || eqb x.username k.username
    || (is_active k.status
        && is_active x.status
        && (x.domain_id == k.domain_id)
        && eqb (to_lower x.name) (to_lower k.name))

abbrev pub is_domain : ℕ → Tables → Bool
is_domain id t = elim (find_domain id t.domains) [ none ↦ false | some d ↦ true ]

abbrev pub of_create : DbError → SmtpKeyError
of_create duplicate = key_exists
of_create no_rows = failed
of_create unavailable = failed

unfoldable pub create_row : Key → Text → Exec (Db Store) SmtpKeyError (Unit {0})
unfolding eqb to_lower
create_row k secret_hash s =
    let r =
      statement
        (λ t.
          if any (λ c. is_duplicate k c.key) t.credentials
          then err duplicate
          else if not (is_domain k.domain_id t.directory)
          then err no_rows
          else ok (
            tt,
            record t {
              credentials = t.credentials ++ record { key = k; secret_hash = secret_hash } ∷ [];
            },
          ))
        s in
    (recode_by of_create r.0, r.1)

-- JOIN domains d ON d.id = k.domain_id
abbrev pub with_domain : Key → Option Domain → Option Key
with_domain k none = none
with_domain k (some d) = some (record k { domain = d.name })

-- in front of the first key that is not younger
unfoldable pub insert_key : Key → List Key → List Key
insert_key k [] = k ∷ []
insert_key k (x ∷ ks) =
    let rest = insert_key k ks in if leb x.created_at k.created_at then k ∷ x ∷ ks else x ∷ rest

abbrev pub and_key : Option Key → List Key → List Key
and_key none ks = ks
and_key (some k) ks = insert_key k ks

unfoldable pub keys_of : ℕ → Tables → List Credential → List Key
keys_of domain_id t [] = []
keys_of domain_id t (c ∷ cs) =
    let rest = keys_of domain_id t cs in
    if c.key.domain_id == domain_id
    then and_key (with_domain c.key (find_domain c.key.domain_id t.domains)) rest
    else rest

abbrev pub of_list : DbError → SmtpKeyError
of_list e = failed

unfoldable pub list_by_domain : ℕ → Exec (Db Store) SmtpKeyError (List Key)
unfolding keys_of
list_by_domain domain_id s =
    let r = statement (λ t. ok (keys_of domain_id t.directory t.credentials, t)) s in
    (recode_by of_list r.0, r.1)

-- COALESCE(old, now)
abbrev pub or_now : ℕ → Option ℕ → ℕ
or_now now none = now
or_now now (some t) = t

abbrev pub is_meant : ℕ → ℕ → Credential → Bool
is_meant domain_id id c =
    (c.key.domain_id == domain_id) && (c.key.id == id) && is_active c.key.status

abbrev pub revoke_one : ℕ → ℕ → ℕ → Credential → Credential
revoke_one now domain_id id c =
    if is_meant domain_id id c
    then record c {
      key = record c.key { status = revoked; revoked_at = some (or_now now c.key.revoked_at) };
    }
    else c

abbrev pub of_revoke : DbError → SmtpKeyError
of_revoke no_rows = key_not_found
of_revoke duplicate = failed
of_revoke unavailable = failed

unfoldable pub revoke_row : ℕ → ℕ → ℕ → Exec (Db Store) SmtpKeyError (Unit {0})
revoke_row now domain_id id s =
    let r =
      statement
        (λ t.
          if any (is_meant domain_id id) t.credentials
          then ok (tt, record t { credentials = map (revoke_one now domain_id id) t.credentials })
          else err no_rows)
        s in
    (recode_by of_revoke r.0, r.1)

-- `getDomain`, a call of the domain service
unfoldable pub get_domain : Text → Exec (Db Store) SmtpKeyError Domain
unfolding get canonical
get_domain name s =
    let r =
      get (canonical name)
        (record { rows = s.rows.directory; down = s.down; statements = s.statements }) in
    (
      recode_by of_domain r.0,
      record s { rows = record s.rows { directory = r.1.rows }; statements = r.1.statements },
    )

abbrev pub is_name_start : ℕ → Bool
is_name_start c =
    (leb b'A' c && leb c b'Z') || (leb b'a' c && leb c b'z') || (leb b'0' c && leb c b'9')

abbrev pub is_name_char : ℕ → Bool
is_name_char c = is_name_start c || (c == b' ') || (c == b'.') || (c == b'_') || (c == b'-')

-- keyNameRegex
unfoldable pub is_key_name : Text → Bool
is_key_name [] = false
is_key_name (c ∷ s) = is_name_start c && leb (length s) 63 && all is_name_char s

abbrev pub name_or_default : Text → Text
name_or_default name = if is_empty name then codes "go-otp" else name

abbrev pub or_failed : {A : Type 0} → Option A → Exec (Db Store) SmtpKeyError A
or_failed none = fail failed
or_failed (some a) = pure a

abbrev pub new_key : ℕ → ℕ → Text → Domain → Text → Key
new_key now id hex dom name = record {
  id = id;
  domain_id = dom.id;
  domain = dom.name;
  name = name;
  username = codes "mo_smtp_" ++ hex;
  status = active;
  created_at = now;
  last_used_at = none;
  revoked_at = none;
}

module _ (hash_password : Text → Option Text) where
  -- `random` is what generateSecret encodes, and `hex` is the second UUID without its hyphens
  unfoldable pub create :
      ℕ → ℕ → Text → Option Text → Text → Text → Exec (Db Store) SmtpKeyError IssuedKey
  unfolding is_key_name trim_space is_empty
  create now id hex random domain_name name = do
    dom ← get_domain domain_name
    when (not (eqb dom.status (codes "active"))) (of_domain domain_not_found)
    when (not (is_key_name (name_or_default (trim_space name)))) invalid_name
    bytes ← or_failed random
    secret_hash ← or_failed (hash_password (codes "mo_sk_" ++ bytes))
    create_row (new_key now id hex dom (name_or_default (trim_space name))) secret_hash
    pure (record {
      key = new_key now id hex dom (name_or_default (trim_space name));
      secret = codes "mo_sk_" ++ bytes;
    })

unfoldable pub list : Text → Exec (Db Store) SmtpKeyError (List Key)
list domain_name = do dom ← get_domain domain_name; list_by_domain dom.id

unfoldable pub revoke : ℕ → Text → ℕ → Exec (Db Store) SmtpKeyError (Unit {0})
revoke now domain_name id = do dom ← get_domain domain_name; revoke_row now dom.id id
