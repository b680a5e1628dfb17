-- ===== src/Token/Store.antt =====
-- internal/api/token/repository.go over the table `api_tokens`, whose `id` is its primary key and
-- whose `token_hash` is unique.
use opemail.Prelude.{
  ℕ, Bool, false, ◌||◌, Option, none, some, List, [], ◌∷◌, ◌++◌, map, ◌==◌, if◌then◌else◌,
}
use opemail.Text.{Text, eqb}
use opemail.Exec.{Result, ok, err, Exec}
use opemail.Database.{DbError, duplicate, no_rows, Db, statement}

pub record ApiToken : Type 0 where
  pub id : ℕ
  pub user_id : Option ℕ
  pub email : Text
  pub role : Text
  pub token_hash : Text
  pub token_type : Text
  pub expires_at : ℕ
  pub revoked_at : Option ℕ
  pub created_at : ℕ
  pub last_used_at : Option ℕ

abbrev pub Tokens : Type 0
Tokens = Db (List ApiToken)

-- the first row with the hash
unfoldable pub find : Text → List ApiToken → Option ApiToken
find h [] = none
find h (t ∷ ts) = if eqb t.token_hash h then some t else find h ts

unfoldable pub taken : ApiToken → List ApiToken → Bool
taken tok [] = false
taken tok (t ∷ ts) = eqb t.token_hash tok.token_hash || (t.id == tok.id) || taken tok ts

unfoldable pub revoke : ℕ → ApiToken → ApiToken
revoke now t = record t { revoked_at = some now }

-- UPDATE … SET revoked_at = NOW() WHERE token_hash = h
unfoldable pub revoke_hash : Text → ℕ → ApiToken → ApiToken
unfolding revoke
revoke_hash h now t = if eqb t.token_hash h then revoke now t else t

-- UPDATE … SET revoked_at = NOW() WHERE email = e AND revoked_at IS NULL
unfoldable pub revoke_live : Text → ℕ → ApiToken → ApiToken
unfolding revoke
revoke_live e now t = elim t.revoked_at [
  | none ↦ if eqb t.email e then revoke now t else t
  | some r ↦ t
]

unfoldable pub touch : ℕ → ℕ → ApiToken → ApiToken
touch id now t = if t.id == id then record t { last_used_at = some now } else t

abbrev pub update_all : (ApiToken → ApiToken) → Exec Tokens DbError (Unit {0})
update_all f = statement (λ rows. ok (tt, map f rows))

unfoldable pub store : ApiToken → Exec Tokens DbError (Unit {0})
unfolding taken
store tok = statement (λ rows. if taken tok rows then err duplicate else ok (tt, rows ++ tok ∷ []))

abbrev pub found : List ApiToken → Option ApiToken → Result DbError (ApiToken × List ApiToken)
found rows none = err no_rows
found rows (some t) = ok (t, rows)

unfoldable pub get_by_hash : Text → Exec Tokens DbError ApiToken
get_by_hash h = statement (λ rows. found rows (find h rows))

unfoldable pub revoke_by_hash : Text → ℕ → Exec Tokens DbError (Unit {0})
revoke_by_hash h now = update_all (revoke_hash h now)

unfoldable pub revoke_all_for_email : Text → ℕ → Exec Tokens DbError (Unit {0})
revoke_all_for_email e now = update_all (revoke_live e now)

unfoldable pub update_last_used : ℕ → ℕ → Exec Tokens DbError (Unit {0})
update_last_used id now = update_all (touch id now)
