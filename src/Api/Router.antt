-- ===== src/Api/Router.antt =====
-- internal/api/router.go: the authenticated routes with their middleware, in the order of registration.
-- Which route a request meets, and the value of its URL parameter `email`, is chi's choice.
use opemail.Prelude.{ℕ, Bool, true, false, Option, none, some, List, [], ◌∷◌, ◌++◌}
use opemail.Text.{Text, codes}
use opemail.Token.Store.{Tokens}
use opemail.Token.Manager.{Claims}
use opemail.Api.Access.{
  Outcome, served, unauthorized, require_role, require_mailbox_ownership, authenticate,
}
pub mod Roles
pub mod Session

pub data Method : Type 0 where
  get post put delete : Method

-- `roles` are the arguments of `RequireRole`; `ownership` says whether `RequireMailboxOwnership` follows it
pub record Route : Type 0 where
  pub method : Method
  pub pattern : Text
  pub roles : Option (List Text)
  pub ownership : Bool

abbrev pub on : Method → Text → Option (List Text) → Bool → Route
on m p rs o = record { method = m; pattern = p; roles = rs; ownership = o }

abbrev admins : List Text
admins = codes "admin" ∷ []

abbrev operators : List Text
operators = codes "admin" ∷ codes "operator" ∷ []

abbrev auditors : List Text
auditors = codes "admin" ∷ codes "auditor" ∷ []

abbrev pub readers : List Text
readers = codes "admin" ∷ codes "operator" ∷ codes "auditor" ∷ []

abbrev writers : List Text
writers = codes "admin" ∷ codes "operator" ∷ codes "user" ∷ []

abbrev pub everyone : List Text
everyone = codes "admin" ∷ codes "operator" ∷ codes "auditor" ∷ codes "user" ∷ []

abbrev pub auth_routes : List Route
auth_routes =
    on post (codes "/api/v1/auth/logout") none false
    ∷ on get (codes "/api/v1/auth/me") none false
    ∷ []

abbrev pub domain_routes : List Route
domain_routes =
    on get (codes "/api/v1/domains/") (some readers) false
    ∷ on post (codes "/api/v1/domains/") (some admins) false
    ∷ on get (codes "/api/v1/domains/{domain}") (some readers) false
    ∷ on delete (codes "/api/v1/domains/{domain}") (some admins) false
    ∷ on get (codes "/api/v1/domains/{domain}/doctor") (some readers) false
    ∷ on get (codes "/api/v1/domains/{domain}/dns") (some readers) false
    ∷ on get (codes "/api/v1/domains/{domain}/dkim") (some readers) false
    ∷ on post (codes "/api/v1/domains/{domain}/dkim") (some operators) false
    ∷ on post (codes "/api/v1/domains/{domain}/dkim/{selector}/verify") (some operators) false
    ∷ on post (codes "/api/v1/domains/{domain}/dkim/{selector}/activate") (some operators) false
    ∷ on post (codes "/api/v1/domains/{domain}/dkim/{selector}/revoke") (some admins) false
    ∷ on get (codes "/api/v1/domains/{domain}/smtp-keys") (some readers) false
    ∷ on post (codes "/api/v1/domains/{domain}/smtp-keys") (some operators) false
    ∷ on post (codes "/api/v1/domains/{domain}/smtp-keys/{keyID}/revoke") (some operators) false
    ∷ on get (codes "/api/v1/domains/{domain}/tls") (some readers) false
    ∷ on post (codes "/api/v1/domains/{domain}/tls") (some admins) false
    ∷ on get (codes "/api/v1/domains/{domain}/policy") (some readers) false
    ∷ on put (codes "/api/v1/domains/{domain}/policy") (some operators) false
    ∷ []

abbrev pub mailbox_routes : List Route
mailbox_routes =
    on get (codes "/api/v1/mailboxes/") (some readers) false
    ∷ on post (codes "/api/v1/mailboxes/") (some operators) false
    ∷ on get (codes "/api/v1/mailboxes/{email}") (some everyone) true
    ∷ on delete (codes "/api/v1/mailboxes/{email}") (some admins) false
    ∷ on post (codes "/api/v1/mailboxes/{email}/suspend") (some operators) false
    ∷ on post (codes "/api/v1/mailboxes/{email}/resume") (some operators) false
    ∷ on post (codes "/api/v1/mailboxes/{email}/provision") (some operators) false
    ∷ on post (codes "/api/v1/mailboxes/{email}/password") (some writers) true
    ∷ on get (codes "/api/v1/mailboxes/{email}/aliases") (some everyone) true
    ∷ on post (codes "/api/v1/mailboxes/{email}/aliases") (some operators) false
    ∷ on delete (codes "/api/v1/mailboxes/{email}/aliases/{alias}") (some operators) false
    ∷ on get (codes "/api/v1/mailboxes/{email}/quota") (some everyone) true
    ∷ on put (codes "/api/v1/mailboxes/{email}/quota") (some operators) false
    ∷ on post (codes "/api/v1/mailboxes/{email}/quota/reconcile") (some operators) false
    ∷ []

abbrev pub identity_routes : List Route
identity_routes =
    on get (codes "/api/v1/identity/providers") (some readers) false
    ∷ on get (codes "/api/v1/ldap/status") (some readers) false
    ∷ on post (codes "/api/v1/ldap/doctor") (some readers) false
    ∷ on post (codes "/api/v1/ldap/sync") (some admins) false
    ∷ []

abbrev pub queue_routes : List Route
queue_routes =
    on get (codes "/api/v1/queue/") (some readers) false
    ∷ on get (codes "/api/v1/queue/{id}") (some readers) false
    ∷ on post (codes "/api/v1/queue/{id}/retry") (some operators) false
    ∷ on post (codes "/api/v1/queue/{id}/hold") (some operators) false
    ∷ on post (codes "/api/v1/queue/{id}/release") (some operators) false
    ∷ on delete (codes "/api/v1/queue/{id}") (some admins) false
    ∷ on post (codes "/api/v1/queue/flush") (some admins) false
    ∷ []

abbrev pub config_routes : List Route
config_routes =
    on get (codes "/api/v1/audit") (some auditors) false
    ∷ on get (codes "/api/v1/config/") (some readers) false
    ∷ on put (codes "/api/v1/config/") (some admins) false
    ∷ []

abbrev pub webmail_routes : List Route
webmail_routes =
    on get (codes "/api/v1/webmail/folders") (some everyone) false
    ∷ on get (codes "/api/v1/webmail/messages") (some everyone) false
    ∷ on get (codes "/api/v1/webmail/messages/{id}") (some everyone) false
    ∷ on post (codes "/api/v1/webmail/send") (some writers) false
    ∷ on put (codes "/api/v1/webmail/messages/{id}/read") (some writers) false
    ∷ on post (codes "/api/v1/webmail/messages/{id}/move") (some writers) false
    ∷ on delete (codes "/api/v1/webmail/messages/{id}") (some writers) false
    ∷ on get (codes "/api/v1/webmail/messages/{id}/attachments/{attId}") (some everyone) false
    ∷ []

abbrev pub system_routes : List Route
system_routes =
    on get (codes "/api/v1/system/status") (some readers) false
    ∷ on get (codes "/api/v1/system/doctor") (some readers) false
    ∷ []

abbrev pub routes : List Route
routes =
    auth_routes ++ domain_routes ++ mailbox_routes ++ identity_routes ++ queue_routes
    ++ config_routes ++ webmail_routes ++ system_routes

abbrev pub by_role : Option (List Text) → Claims → Outcome
by_role none c = served
by_role (some allowed) c = require_role allowed (some c)

abbrev pub by_owner : Bool → Text → Claims → Outcome
by_owner true target c = require_mailbox_ownership target (some c)
by_owner false target c = served

abbrev pub and_then : Outcome → Outcome → Outcome
and_then served o = o
and_then unauthorized o = unauthorized
and_then Outcome.forbidden o = Outcome.forbidden

abbrev pub guarded : Route → Text → Option Claims → Outcome
guarded r target none = unauthorized
guarded r target (some c) = and_then (by_role r.roles c) (by_owner r.ownership target c)

unfoldable pub dispatch : (Text → Text) → ℕ → Text → Route → Text → Tokens → Outcome × Tokens
unfolding authenticate require_role require_mailbox_ownership
dispatch hash_token now header r target s =
    let (claims, s') = authenticate hash_token now header s in (guarded r target claims, s')
