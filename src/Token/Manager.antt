-- ===== src/Token/Manager.antt =====
-- internal/api/token/manager.go. `now` is the clock at the call, `Draws` the random bytes and the
-- UUIDs that it draws, and `hash_token` SHA-256 in hexadecimal.
use opemail.Prelude.{
  ℕ, ◌+◌, ◌*◌, Bool, true, false, not, Option, none, some, ◌++◌, ltb, if◌then◌else◌,
}
use opemail.Text.{Text, eqb, is_empty, codes}
use opemail.Exec.{Exec, pure, fail, fail_with, ignore, when, ◌>>=◌, ◌>>◌}
use opemail.Token.Store.{
  ApiToken, Tokens, store, get_by_hash, revoke_by_hash, revoke_all_for_email, update_last_used,
}

pub data TokenError : Type 0 where
  token_not_found token_expired token_revoked invalid_token no_entropy database_failed : TokenError

pub record TokenPair : Type 0 where
  pub access_token : Text
  pub refresh_token : Text
  pub kind : Text
  pub expires_in : ℕ

pub record Claims : Type 0 where
  pub token_id : ℕ
  pub user_id : Option ℕ
  pub email : Text
  pub role : Text

-- the hexadecimal of the random bytes, `none` when `rand.Read` fails
pub record Draws : Type 0 where
  pub access_bytes : Option Text
  pub refresh_bytes : Option Text
  pub access_id : ℕ
  pub refresh_id : ℕ

-- in seconds
abbrev pub access_ttl : ℕ
access_ttl = 15 * 60

abbrev pub refresh_ttl : ℕ
refresh_ttl = 30 * 24 * 3600

abbrev pub access : Text
access = codes "access"

abbrev pub refresh : Text
refresh = codes "refresh"

-- `generateRandomToken`
abbrev pub drawn : Text → Option Text → Exec Tokens TokenError Text
drawn prefix none = fail no_entropy
drawn prefix (some hex) = pure (prefix ++ hex)

-- `if tok.RevokedAt != nil`
abbrev pub is_some : Option ℕ → Bool
is_some none = false
is_some (some r) = true

abbrev pub or_user : Text → Text
or_user role = if is_empty role then codes "user" else role

-- the family of a reused token is revoked before the error is returned
unfoldable pub detect_reuse : ℕ → ApiToken → Exec Tokens TokenError (Unit {0})
detect_reuse now tok =
    if is_some tok.revoked_at
    then (do ignore (revoke_all_for_email tok.email now); fail token_revoked)
    else pure tt

module _ (hash_token : Text → Text) where
  abbrev pub new_token : Text → ℕ → ℕ → ℕ → Option ℕ → Text → Text → Text → ApiToken
  new_token raw id now ttl user email role type = record {
    id = id;
    user_id = user;
    email = email;
    role = role;
    token_hash = hash_token raw;
    token_type = type;
    expires_at = now + ttl;
    revoked_at = none;
    created_at = now;
    last_used_at = none;
  }

  unfoldable pub issue_token_pair :
      ℕ → Draws → Option ℕ → Text → Text → Exec Tokens TokenError TokenPair
  issue_token_pair now d user email role = do
    raw_at ← drawn (codes "mo_at_") d.access_bytes
    fail_with database_failed
        (store (new_token raw_at d.access_id now access_ttl user email (or_user role) access))
    raw_rt ← drawn (codes "mo_rt_") d.refresh_bytes
    fail_with database_failed
        (store (new_token raw_rt d.refresh_id now refresh_ttl user email (or_user role) refresh))
    pure (record {
      access_token = raw_at;
      refresh_token = raw_rt;
      kind = codes "Bearer";
      expires_in = access_ttl;
    })

  unfoldable pub validate_access_token : ℕ → Text → Exec Tokens TokenError Claims
  validate_access_token now raw = do
    when (is_empty raw) invalid_token
    tok ← fail_with token_not_found (get_by_hash (hash_token raw))
    when (not (eqb tok.token_type access)) invalid_token
    when (is_some tok.revoked_at) token_revoked
    when (ltb tok.expires_at now) token_expired
    ignore (update_last_used tok.id now)
    pure (record { token_id = tok.id; user_id = tok.user_id; email = tok.email; role = tok.role })

  unfoldable pub refresh_tokens : ℕ → Draws → Text → Exec Tokens TokenError TokenPair
  unfolding detect_reuse
  refresh_tokens now d raw = do
    when (is_empty raw) invalid_token
    tok ← fail_with token_not_found (get_by_hash (hash_token raw))
    when (not (eqb tok.token_type refresh)) invalid_token
    detect_reuse now tok
    when (ltb tok.expires_at now) token_expired
    ignore (revoke_by_hash (hash_token raw) now)
    issue_token_pair now d tok.user_id tok.email tok.role

  unfoldable pub revoke_token : ℕ → Text → Exec Tokens TokenError (Unit {0})
  revoke_token now raw =
      if is_empty raw
      then pure tt
      else fail_with database_failed (revoke_by_hash (hash_token raw) now)

-- `RevokeAllForEmail`
unfoldable pub revoke_everywhere : ℕ → Text → Exec Tokens TokenError (Unit {0})
revoke_everywhere now email = fail_with database_failed (revoke_all_for_email email now)
