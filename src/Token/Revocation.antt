-- ===== src/Token/Revocation.antt =====
-- A revoked token stays useless through any further calls of the manager.
use opemail.Prelude.{ℕ, ◌≡◌, false, Option, none, some, List, [], ◌∷◌, arith}
use opemail.Text.{Text}
use opemail.Exec.{is_ok, ◌>>=◌}
use opemail.Exec.Keeps.{Keeps, keeps_rules}
use opemail.Token.Store.{ApiToken, Tokens, get_by_hash}
use opemail.Token.Manager.{
  Draws, drawn, issue_token_pair, validate_access_token, detect_reuse, refresh_tokens, revoke_token,
  revoke_everywhere,
}
use opemail.Token.Rows.{
  dead, dead-find, IsDead, store-Keeps, get_by_hash-Keeps, revoke_by_hash-Keeps,
  revoke_all_for_email-Keeps, update_last_used-Keeps,
}

-- the calls that a client of the manager can make
pub data Call : Type 0 where
  issue : ℕ → Draws → Option ℕ → Text → Text → Call
  validate : ℕ → Text → Call
  renew : ℕ → Draws → Text → Call
  revoke_one : ℕ → Text → Call
  revoke_family : ℕ → Text → Call

module _ (hash_token : Text → Text) where
  unfoldable pub serve : Call → Tokens → Tokens
  serve (issue now d user email role) s = (issue_token_pair hash_token now d user email role s).1
  serve (validate now raw) s = (validate_access_token hash_token now raw s).1
  serve (renew now d raw) s = (refresh_tokens hash_token now d raw s).1
  serve (revoke_one now raw) s = (revoke_token hash_token now raw s).1
  serve (revoke_family now email) s = (revoke_everywhere now email s).1

  unfoldable pub serve_all : List Call → Tokens → Tokens
  serve_all [] s = s
  serve_all (c ∷ cs) s = serve_all cs (serve c s)

  module _ (h : Text) where
    drawn-Keeps : (prefix : Text) (o : Option Text) → Keeps (IsDead h) (drawn prefix o)
    drawn-Keeps prefix none = search keeps_rules
    drawn-Keeps prefix (some hex) = search keeps_rules

    ruleset dead_rules = (
      keeps_rules, drawn-Keeps, store-Keeps, get_by_hash-Keeps, revoke_by_hash-Keeps,
      revoke_all_for_email-Keeps, update_last_used-Keeps,
    )

    issue-Keeps :
        (now : ℕ) (d : Draws) (user : Option ℕ) (email role : Text)
        → Keeps (IsDead h) (issue_token_pair hash_token now d user email role)
    unfolding issue_token_pair
    issue-Keeps now d user email role = search dead_rules depth 12

    detect_reuse-Keeps : (now : ℕ) (t : ApiToken) → Keeps (IsDead h) (detect_reuse now t)
    unfolding detect_reuse
    detect_reuse-Keeps now t = search dead_rules depth 8

    validate-Keeps :
        (now : ℕ) (raw : Text) → Keeps (IsDead h) (validate_access_token hash_token now raw)
    unfolding validate_access_token
    validate-Keeps now raw = search dead_rules depth 16

    refresh-Keeps :
        (now : ℕ) (d : Draws) (raw : Text) → Keeps (IsDead h) (refresh_tokens hash_token now d raw)
    unfolding refresh_tokens
    refresh-Keeps now d raw = search (dead_rules, issue-Keeps, detect_reuse-Keeps) depth 16

    revoke-Keeps : (now : ℕ) (raw : Text) → Keeps (IsDead h) (revoke_token hash_token now raw)
    unfolding revoke_token
    revoke-Keeps now raw = search dead_rules

    revoke_everywhere-Keeps :
        (now : ℕ) (email : Text) → Keeps (IsDead h) (revoke_everywhere now email)
    unfolding revoke_everywhere
    revoke_everywhere-Keeps now email = search dead_rules

    serve-IsDead : (c : Call) (s : Tokens) → IsDead h s → IsDead h (serve c s)
    unfolding serve
    serve-IsDead (issue now d user email role) s = (issue-Keeps now d user email role).after s
    serve-IsDead (validate now raw) s = (validate-Keeps now raw).after s
    serve-IsDead (renew now d raw) s = (refresh-Keeps now d raw).after s
    serve-IsDead (revoke_one now raw) s = (revoke-Keeps now raw).after s
    serve-IsDead (revoke_family now email) s = (revoke_everywhere-Keeps now email).after s

    serve_all-IsDead : (cs : List Call) (s : Tokens) → IsDead h s → IsDead h (serve_all cs s)
    unfolding serve_all
    serve_all-IsDead [] s d = d
    serve_all-IsDead (c ∷ cs) s d = serve_all-IsDead cs (serve c s) (serve-IsDead c s d)

  validate_of_IsDead :
      (now : ℕ) (raw : Text) (s : Tokens)
      → IsDead (hash_token raw) s
      → is_ok (validate_access_token hash_token now raw s).0 ≡ false
  unfolding validate_access_token get_by_hash ◌>>=◌
  validate_of_IsDead now raw s d =
      let (t, f, r) = dead-find (hash_token raw) s.rows d in ground arith

  refresh_of_IsDead :
      (now : ℕ) (d : Draws) (raw : Text) (s : Tokens)
      → IsDead (hash_token raw) s
      → is_ok (refresh_tokens hash_token now d raw s).0 ≡ false
  unfolding refresh_tokens get_by_hash ◌>>=◌
  refresh_of_IsDead now d raw s dead =
      let (t, f, r) = dead-find (hash_token raw) s.rows dead in ground arith

  -- A token that is revoked is refused, as an access token and as a refresh token, whatever calls
  -- come in between and whichever statements fail.
  pub revocation_is_final :
      (raw : Text) (s : Tokens) (calls : List Call) (now : ℕ) (d : Draws)
      → IsDead (hash_token raw) s
      → (is_ok (validate_access_token hash_token now raw (serve_all calls s)).0 ≡ false)
        × (is_ok (refresh_tokens hash_token now d raw (serve_all calls s)).0 ≡ false)
  revocation_is_final raw s calls now d dead =
      let still = serve_all-IsDead (hash_token raw) calls s dead in
      (
        validate_of_IsDead now raw (serve_all calls s) still,
        refresh_of_IsDead now d raw (serve_all calls s) still,
      )
