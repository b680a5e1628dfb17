-- ===== src/Token/Examples.antt =====
-- Runs of the token manager on a small table, with the identity for SHA-256.
use opemail.Prelude.{◌≡◌, refl, false, List, none, some, [], ◌∷◌, arith, All}
use opemail.Text.{Text, codes}
use opemail.Exec.{ok, err, is_ok, ◌>>=◌}
use opemail.Token.Store.{ApiToken, Tokens, store, find}
use opemail.Token.Manager.{
  Draws, TokenPair, issue_token_pair, validate_access_token, refresh_tokens, refresh, token_revoked,
}
use opemail.Token.Rows.{dead}
use opemail.Token.Revocation.{Call, issue, validate, serve_all, revocation_is_final}
use opemail.Token.Rotation.{reuse_revokes_family, IsRevokedFor}
use opemail.Token.Issue.{issue-validate}

abbrev plain : Text → Text
plain t = t

abbrev spent_token : ApiToken
spent_token = record {
  id = 7;
  user_id = none;
  email = codes "a@b.id";
  role = codes "user";
  token_hash = codes "mo_rt_07";
  token_type = refresh;
  expires_at = 900;
  revoked_at = some 40;
  created_at = 10;
  last_used_at = none;
}

abbrev live_token : ApiToken
live_token = record spent_token { id = 8; token_hash = codes "mo_rt_08"; revoked_at = none }

abbrev table : Tokens
table = record { rows = spent_token ∷ live_token ∷ []; down = λ n. false; statements = 0 }

abbrev draws : Draws
draws = record {
  access_bytes = some (codes "aa");
  refresh_bytes = some (codes "bb");
  access_id = 1;
  refresh_id = 2;
}

abbrev calls : List Call
calls = issue 50 draws none (codes "a@b.id") [] ∷ validate 51 (codes "mo_at_aa") ∷ []

revocation_is_final_example :
    (is_ok (validate_access_token plain 60 (codes "mo_rt_07") (serve_all plain calls table)).0
      ≡ false)
    × (is_ok (refresh_tokens plain 60 draws (codes "mo_rt_07") (serve_all plain calls table)).0
        ≡ false)
unfolding dead opemail.Text.eqb
revocation_is_final_example = revocation_is_final plain (codes "mo_rt_07") table calls 60 draws refl

reuse_revokes_family_example :
    ((refresh_tokens plain 60 draws (codes "mo_rt_07") table).0 ≡ err token_revoked)
    × All
        (IsRevokedFor (codes "a@b.id"))
        (refresh_tokens plain 60 draws (codes "mo_rt_07") table).1.rows
unfolding find opemail.Text.eqb
reuse_revokes_family_example =
    reuse_revokes_family plain 60 draws b'm' (codes "o_rt_07") table spent_token (λ n. refl) refl
      refl refl

abbrev fresh : TokenPair
fresh = record {
  access_token = codes "mo_at_aa";
  refresh_token = codes "mo_rt_bb";
  kind = codes "Bearer";
  expires_in = 900;
}

fresh_issued : (issue_token_pair plain 50 draws none (codes "a@b.id") [] table).0 ≡ ok fresh
unfolding issue_token_pair store ◌>>=◌ opemail.Text.eqb
fresh_issued = refl

issue-validate_example :
    (validate_access_token plain 60
      (codes "mo_at_aa")
      (issue_token_pair plain 50 draws none (codes "a@b.id") [] table).1).0
    ≡ ok (record { token_id = 1; user_id = none; email = codes "a@b.id"; role = codes "user" })
unfolding opemail.Text.is_empty
issue-validate_example =
    issue-validate plain 50 draws none (codes "a@b.id") [] table fresh 60 fresh_issued (λ n. refl)
      (omega arith)
