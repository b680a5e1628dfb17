-- ===== src/Api/Access.antt =====
-- internal/api/middleware/auth.go and rbac.go: who gets past the middleware. `next.ServeHTTP` is `served`.
use opemail.Prelude.{
  ℕ, Bool, false, not, ◌&&◌, ◌||◌, Option, none, some, List, [], ◌∷◌, if◌then◌else◌,
}
use opemail.Text.{Text, codes, eqb, is_empty, to_lower, equal_fold, has_prefix, trim_space, drop}
use opemail.Exec.{Result, ok, err}
use opemail.Token.Store.{Tokens}
use opemail.Token.Manager.{Claims, validate_access_token}

pub data Outcome : Type 0 where
  served unauthorized forbidden : Outcome

-- the loop over `allowedRoles`
unfoldable pub permitted : Text → List Text → Bool
unfolding equal_fold
permitted role [] = false
permitted role (r ∷ rs) = equal_fold role r || permitted role rs

unfoldable pub require_role : List Text → Option Claims → Outcome
unfolding to_lower eqb permitted
require_role allowed none = forbidden
require_role allowed (some c) =
    let role = to_lower c.role in
    if eqb role (codes "admin")
    then served
    else if permitted role allowed
    then served
    else forbidden

abbrev pub oversees : Text → Bool
oversees role =
    eqb role (codes "admin") || eqb role (codes "operator") || eqb role (codes "auditor")

-- `target` is the URL parameter `email`
unfoldable pub require_mailbox_ownership : Text → Option Claims → Outcome
unfolding to_lower eqb is_empty equal_fold
require_mailbox_ownership target none = forbidden
require_mailbox_ownership target (some c) =
    if oversees (to_lower c.role)
    then served
    else if not (is_empty target) && not (equal_fold c.email target)
    then forbidden
    else served

-- the token of an Authorization header
unfoldable pub bearer : Text → Option Text
unfolding to_lower has_prefix trim_space is_empty
bearer header =
    if is_empty header || not (has_prefix (to_lower header) (codes "bearer "))
    then none
    else some (trim_space (drop 7 header))

abbrev pub claims_of : {E : Type 0} → Result E Claims → Option Claims
claims_of (ok c) = some c
claims_of (err e) = none

abbrev pub validated : (Text → Text) → ℕ → Option Text → Tokens → Option Claims × Tokens
validated hash_token now none s = (none, s)
validated hash_token now (some raw) s =
    let (r, s') = validate_access_token hash_token now raw s in (claims_of r, s')

-- `Authenticate`: the claims that the next handler sees; with none the answer is 401
unfoldable pub authenticate : (Text → Text) → ℕ → Text → Tokens → Option Claims × Tokens
unfolding bearer validate_access_token
authenticate hash_token now header s = validated hash_token now (bearer header) s
