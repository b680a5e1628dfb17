-- ===== src/Api/Examples.antt =====
-- Requests of an auditor and of a plain user, and a burst of requests.
use opemail.Prelude.{
  ℕ, ◌≤◌, ◌≡◌, refl, true, false, not, ◌||◌, none, some, List, [], ◌∷◌, keep, length, arith,
}
use opemail.Text.{Text, codes, eqb, is_empty, equal_fold}
use opemail.Token.Store.{ApiToken, Tokens, find}
use opemail.Token.Manager.{Claims, access}
use opemail.Api.Access.{bearer}
use opemail.Api.Router.{Route, Method, get, post, readers, everyone, on}
use opemail.Api.Router.Roles.{reads, personal, auditor_read_only, user_stays_home}
use opemail.Api.Router.Session.{IsLive, served_needs_token}
use opemail.Api.RateLimit.{in_window}
use opemail.Api.RateLimit.Bound.{
  Event, request, eviction, last_time, run, fresh_limiter, requests_bounded,
}

abbrev with_role : Text → Claims
with_role role = record { token_id = 1; user_id = none; email = codes "a@b.id"; role = role }

-- the first route of the domains, and the third of the mailboxes
abbrev list_domains : Route
list_domains = on get (codes "/api/v1/domains/") (some readers) false

abbrev get_mailbox : Route
get_mailbox = on get (codes "/api/v1/mailboxes/{email}") (some everyone) true

auditor_read_only_example : reads list_domains ≡ true
unfolding opemail.Text.to_lower opemail.Api.Access.require_role
auditor_read_only_example =
    auditor_read_only 2 list_domains [] (with_role (codes "Auditor")) refl refl refl

user_stays_home_example :
    (personal get_mailbox ≡ true)
    × ((not get_mailbox.ownership
          || equal_fold (codes "a@b.id") (codes "A@b.id")
          || is_empty (codes "A@b.id"))
        ≡ true)
unfolding opemail.Text.to_lower opemail.Api.Access.require_role
    opemail.Api.Access.require_mailbox_ownership
user_stays_home_example =
    user_stays_home 22 get_mailbox (codes "A@b.id") (with_role (codes "user")) refl refl refl

abbrev plain : Text → Text
plain t = t

abbrev row : ApiToken
row = record {
  id = 1;
  user_id = none;
  email = codes "a@b.id";
  role = codes "auditor";
  token_hash = codes "mo_at_1";
  token_type = access;
  expires_at = 900;
  revoked_at = none;
  created_at = 0;
  last_used_at = none;
}

abbrev tokens : Tokens
tokens = record { rows = row ∷ []; down = λ n. false; statements = 0 }

served_needs_token_example :
    (raw : Text) × (t : ApiToken) × (bearer (codes "Bearer mo_at_1") ≡ some raw)
    × (find (plain raw) tokens.rows ≡ some t)
    × IsLive 60 t
unfolding opemail.Api.Router.dispatch opemail.Exec.◌>>=◌ opemail.Token.Store.get_by_hash find
served_needs_token_example =
    served_needs_token plain 60 (codes "Bearer mo_at_1") list_domains [] tokens refl

abbrev burst : List (ℕ × Event)
burst =
    (1, request (codes "k"))
    ∷ (2, request (codes "k"))
    ∷ (3, eviction)
    ∷ (3, request (codes "k"))
    ∷ []

requests_bounded_example :
    length (
      keep
        (in_window 60 (last_time 0 burst))
        ((run burst (fresh_limiter 2 60, λ k. [])).1 (codes "k")))
    ≤ 2
requests_bounded_example =
    requests_bounded 2 60 burst (codes "k")
      (omega arith, (omega arith, (omega arith, (omega arith, tt))))
