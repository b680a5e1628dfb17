-- ===== src/Token/Issue.antt =====
-- What a fresh pair of tokens is good for.
use opemail.Prelude.{
  ℕ, ◌+◌, ◌≤◌, ◌<◌, ◌≡◌, refl, ◌∙◌, false, not, Option, some, [], ◌∷◌, ◌++◌, arith, if◌then◌else◌,
  Option-cases, inl, inr, ltb,
}
use opemail.Text.{Text, eqb, is_empty}
use opemail.Exec.{Result, ok, err, ◌>>=◌}
use opemail.Database.{IsUp}
use opemail.Token.Store.{ApiToken, Tokens, find, taken, store, get_by_hash}
use opemail.Token.Manager.{
  TokenError, TokenPair, invalid_token, token_expired, token_revoked, Draws, Claims,
  issue_token_pair, validate_access_token, refresh_tokens, is_some, access, refresh, access_ttl,
  refresh_ttl, or_user, new_token,
}
use opemail.Token.Rows.{find-append, find-append_new}

-- what is said of a presented access token, by the row of its hash
abbrev verdict : ℕ → ApiToken → Result TokenError Claims
verdict now t =
    if not (eqb t.token_type access)
    then err invalid_token
    else if is_some t.revoked_at
    then err token_revoked
    else if ltb t.expires_at now
    then err token_expired
    else ok (record { token_id = t.id; user_id = t.user_id; email = t.email; role = t.role })

module _ (hash_token : Text → Text) where
  validate_row :
      (now : ℕ) (raw : Text) (s : Tokens) (t : ApiToken)
      → is_empty raw ≡ false
      → s.down s.statements ≡ false
      → find (hash_token raw) s.rows ≡ some t
      → (validate_access_token hash_token now raw s).0 ≡ verdict now t
  unfolding validate_access_token get_by_hash ◌>>=◌
  validate_row now raw s t given up here = ground arith

  refresh_row_kind :
      (now : ℕ) (e : Draws) (raw : Text) (s : Tokens) (t : ApiToken)
      → is_empty raw ≡ false
      → s.down s.statements ≡ false
      → find (hash_token raw) s.rows ≡ some t
      → eqb t.token_type refresh ≡ false
      → (refresh_tokens hash_token now e raw s).0 ≡ err invalid_token
  unfolding refresh_tokens get_by_hash ◌>>=◌
  refresh_row_kind now e raw s t given up here kind = ground arith

module _ (hash_token : Text → Text) (now : ℕ) (d : Draws) (user : Option ℕ)
    (email role : Text) where
  abbrev access_row : Text → ApiToken
  access_row raw =
      new_token hash_token raw d.access_id now access_ttl user email (or_user role) access

  abbrev refresh_row : Text → ApiToken
  refresh_row raw =
      new_token hash_token raw d.refresh_id now refresh_ttl user email (or_user role) refresh

  -- what a successful issue inserted
  record Issued (s : Tokens) (p : TokenPair) : Type 0 where
    access_new : taken (access_row p.access_token) s.rows ≡ false
    refresh_new :
        taken (refresh_row p.refresh_token) (s.rows ++ access_row p.access_token ∷ []) ≡ false
    access_some : is_empty p.access_token ≡ false
    refresh_some : is_empty p.refresh_token ≡ false
    after : (issue_token_pair hash_token now d user email role s).1 ≡ record s {
      rows = (s.rows ++ access_row p.access_token ∷ []) ++ refresh_row p.refresh_token ∷ [];
      statements = s.statements + 1 + 1;
    }

  issue_ok :
      (s : Tokens) (p : TokenPair)
      → (issue_token_pair hash_token now d user email role s).0 ≡ ok p
      → Issued s p
  unfolding issue_token_pair store is_empty ◌>>=◌
  issue_ok s p h = elim (Option-cases d.access_bytes) [
    | inl no_access ↦ absurd (ground arith)
    | inr (a, got_a) ↦ elim (Option-cases d.refresh_bytes) [
      | inl no_refresh ↦ absurd (ground arith)
      | inr (r, got_r) ↦ record {
        access_new = ground arith;
        refresh_new = ground arith;
        access_some = ground arith;
        refresh_some = ground arith;
        after = ground arith;
      }
    ]
  ]

  IsUp-after :
      (s : Tokens) (p : TokenPair)
      → (issue_token_pair hash_token now d user email role s).0 ≡ ok p
      → IsUp s
      → let s' = (issue_token_pair hash_token now d user email role s).1 in
        s'.down s'.statements ≡ false
  IsUp-after s p h up = rw (issue_ok s p h).after (up (s.statements + 1 + 1))

  find_access :
      (s : Tokens) (p : TokenPair)
      → (issue_token_pair hash_token now d user email role s).0 ≡ ok p
      → find
          (hash_token p.access_token)
          (issue_token_pair hash_token now d user email role s).1.rows
        ≡ some (access_row p.access_token)
  find_access s p h =
      let i = issue_ok s p h in
      rw i.after
        (find-append _ _ _ (find-append_new (access_row p.access_token) s.rows [] i.access_new))

  find_refresh :
      (s : Tokens) (p : TokenPair)
      → (issue_token_pair hash_token now d user email role s).0 ≡ ok p
      → find
          (hash_token p.refresh_token)
          (issue_token_pair hash_token now d user email role s).1.rows
        ≡ some (refresh_row p.refresh_token)
  find_refresh s p h =
      let i = issue_ok s p h in
      rw i.after (find-append_new (refresh_row p.refresh_token) _ [] i.refresh_new)

  -- Until it expires, and while the database answers, the access token of a fresh pair is
  -- accepted, with the account that it was issued to.
  pub issue-validate :
      (s : Tokens) (p : TokenPair) (later : ℕ)
      → (issue_token_pair hash_token now d user email role s).0 ≡ ok p
      → IsUp s
      → later ≤ now + access_ttl
      → (validate_access_token hash_token later p.access_token
          (issue_token_pair hash_token now d user email role s).1).0
        ≡ ok (record { token_id = d.access_id; user_id = user; email = email; role = or_user role })
  unfolding eqb
  issue-validate s p later h up fits =
      validate_row hash_token later p.access_token _ (access_row p.access_token)
        (issue_ok s p h).access_some (IsUp-after s p h up) (find_access s p h)
      ∙ ground arith

  -- Once its time is over it is refused as expired.
  issue-expire :
      (s : Tokens) (p : TokenPair) (later : ℕ)
      → (issue_token_pair hash_token now d user email role s).0 ≡ ok p
      → IsUp s
      → now + access_ttl < later
      → (validate_access_token hash_token later p.access_token
          (issue_token_pair hash_token now d user email role s).1).0
        ≡ err token_expired
  unfolding eqb
  issue-expire s p later h up late =
      validate_row hash_token later p.access_token _ (access_row p.access_token)
        (issue_ok s p h).access_some (IsUp-after s p h up) (find_access s p h)
      ∙ ground arith

  -- The refresh token of the pair is no access token, and the access token no refresh token.
  token_kinds :
      (s : Tokens) (p : TokenPair) (later : ℕ) (e : Draws)
      → (issue_token_pair hash_token now d user email role s).0 ≡ ok p
      → IsUp s
      → let s' = (issue_token_pair hash_token now d user email role s).1 in
        ((validate_access_token hash_token later p.refresh_token s').0 ≡ err invalid_token)
        × ((refresh_tokens hash_token later e p.access_token s').0 ≡ err invalid_token)
  unfolding eqb
  token_kinds s p later e h up = (
    validate_row hash_token later p.refresh_token _ (refresh_row p.refresh_token)
          (issue_ok s p h).refresh_some (IsUp-after s p h up) (find_refresh s p h)
        ∙ refl,
    refresh_row_kind hash_token later e p.access_token _ (access_row p.access_token)
        (issue_ok s p h).access_some (IsUp-after s p h up) (find_access s p h) refl,
  )
