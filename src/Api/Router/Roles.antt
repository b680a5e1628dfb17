-- ===== src/Api/Router/Roles.antt =====
-- What the route table lets each role do.
use opemail.Prelude.{
  ℕ, ◌≡◌, refl, Bool, true, false, not, ◌||◌, Option, none, some, List, get_elem?, all, arith,
  all-get_elem?,
}
use opemail.Text.{Text, codes, eqb, equal_fold, to_lower, is_empty, has_prefix}
use opemail.Token.Manager.{Claims}
use opemail.Api.Access.{served, permitted, require_role, require_mailbox_ownership, oversees}
use opemail.Api.Router.{Route, Method, get, post, put, delete, routes, guarded, by_role, by_owner}

is_get : Method → Bool
is_get get = true
is_get post = false
is_get put = false
is_get delete = false

-- a route that changes nothing, or one of the two that an auditor may post to
abbrev pub reads : Route → Bool
unfolding is_get eqb
reads r =
    is_get r.method
    || eqb r.pattern (codes "/api/v1/ldap/doctor")
    || eqb r.pattern (codes "/api/v1/auth/logout")

-- a route of the session, of the webmail, or one on the caller's own mailbox
abbrev pub personal : Route → Bool
unfolding has_prefix
personal r =
    has_prefix r.pattern (codes "/api/v1/auth/")
    || has_prefix r.pattern (codes "/api/v1/webmail/")
    || r.ownership

-- whether `RequireRole` of a route lets the role by
abbrev lets : Text → Option (List Text) → Bool
unfolding permitted eqb
lets role none = true
lets role (some rs) = eqb role (codes "admin") || permitted role rs

by_role-lets :
    (o : Option (List Text)) (c : Claims) (role : Text)
    → to_lower c.role ≡ role
    → by_role o c ≡ served
    → lets role o ≡ true
unfolding require_role
by_role-lets none c role e h = refl
by_role-lets (some rs) c role e h = ground arith

auditor_reads : all (λ r. not (lets (codes "auditor") r.roles) || reads r) routes ≡ true
unfolding to_lower equal_fold lets reads
auditor_reads = refl

user_personal : all (λ r. not (lets (codes "user") r.roles) || personal r) routes ≡ true
unfolding to_lower equal_fold lets personal
user_personal = refl

served-by_role :
    (r : Route) (target : Text) (c : Claims)
    → guarded r target (some c) ≡ served
    → by_role r.roles c ≡ served
served-by_role r target c h = ground arith

-- A route of the table that serves an auditor is a GET, the LDAP check or the logout.
pub auditor_read_only :
    (i : ℕ) (r : Route) (target : Text) (c : Claims)
    → get_elem? routes i ≡ some r
    → to_lower c.role ≡ codes "auditor"
    → guarded r target (some c) ≡ served
    → reads r ≡ true
auditor_read_only i r target c e role h =
    let let_by = by_role-lets r.roles c (codes "auditor") role (served-by_role r target c h) in
    let row =
      all-get_elem? (λ q. not (lets (codes "auditor") q.roles) || reads q) routes i r auditor_reads
        e in
    ground arith

by_owner_own :
    (o : Bool) (target : Text) (c : Claims)
    → to_lower c.role ≡ codes "user"
    → by_owner o target c ≡ served
    → (not o || equal_fold c.email target || is_empty target) ≡ true
unfolding require_mailbox_ownership eqb
by_owner_own true target c role h =
    let plain : oversees (to_lower c.role) ≡ false = rw role refl in ground arith
by_owner_own false target c role h = refl

-- A route of the table that serves a plain user is one of the session, of the webmail or of a mailbox, and
-- on a mailbox of the URL it serves only the owner, or a request whose parameter `email` is empty.
pub user_stays_home :
    (i : ℕ) (r : Route) (target : Text) (c : Claims)
    → get_elem? routes i ≡ some r
    → to_lower c.role ≡ codes "user"
    → guarded r target (some c) ≡ served
    → (personal r ≡ true)
      × ((not r.ownership || equal_fold c.email target || is_empty target) ≡ true)
user_stays_home i r target c e role h =
    let let_by = by_role-lets r.roles c (codes "user") role (served-by_role r target c h) in
    let row =
      all-get_elem? (λ q. not (lets (codes "user") q.roles) || personal q) routes i r user_personal
        e in
    let own : by_owner r.ownership target c ≡ served = ground arith in
    (ground arith, by_owner_own r.ownership target c role own)
