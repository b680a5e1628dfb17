-- ===== src/Lib.antt =====
-- opemail: a model of the mail server's services and the theorems that make them correct.
--
-- The program is a control plane for a mail server: an HTTP API over PostgreSQL tables and
-- maildirs, and the policy that inbound mail passes. A request meets the rate limiter, the
-- authentication, the role and the ownership checks (internal/api/middleware, internal/api/router.go), and then
-- a service that works on the database and the disk. Inbound mail meets its own rate limiter, the
-- check of the recipient, SPF, DMARC, antivirus and spam (internal/inbound).
--
-- Files and what they model:
--   Prelude, Window: shared lists and tests, and the sliding windows that both rate limiters keep.
--   Text: the functions of Go's package `strings` on lists of ASCII bytes.
--   Exec, Database: methods that return a value or an error and change state; a statement fails or runs as a
--     whole, and `down n` says whether the n-th one fails.
--   Token: internal/api/token. Store is repository.go, Manager is manager.go (IssueTokenPair,
--     ValidateAccessToken, RefreshTokens, RevokeToken, RevokeAllForEmail).
--   Api: internal/api/middleware/auth.go and rbac.go (Access), rate_limit.go (RateLimit), and the
--     routes of internal/api/router.go (Router).
--   Directory: the tables of domains, mailboxes and aliases (migrations/).
--   Domains: internal/domain. Repository is repository.go, with the cascades of the migrations; Service is
--     service.go.
--   Inbound: internal/inbound. Spf and Dmarc and Verdict are policy.go and service.go, Recipient is recipient.go,
--     RateLimit is rate_limit.go.
--   Ldap: internal/identity/ldap/filter.go.
--   Identity: internal/identity/service.go without Doctor; a provider is an interface, which Local, the provider of
--     internal/identity/local/provider.go, fills. Sync takes the mailbox service
--     as an interface with a law (Sync/Standing), which the service of Mailbox fills (Sync/Mailboxes).
--   Mailbox: internal/mailbox. Repository is repository.go, Service and Password are service.go,
--     Aliases is alias.go. The service takes the functions of Password as arguments.
--   Paths, Disk: path/filepath, and the calls of `os` on a map from paths to files; a call fails as a statement does, by `down`.
--   Dkim: internal/dkim. Selector is selector.go, Record and the checks of keys validator.go, Keystore is keystore.go,
--     Repository is postgres.go; Keys (GenerateKey, GetDNSRecord, ActivateKey, RevokeKey), Verification
--     (VerifyDNS) and Policy (GetPolicy, SetSPFPolicy, SetDMARCPolicy) are service.go and keygen.go. A service
--     works on the tables and on the disk of the key store at once.
--   Webmail: internal/webmail/service.go. Folders (getMaildirPath, getFolderDir, ensureFolders, ListFolders),
--     Messages (findMessageFile, MarkMessageRead, MoveMessage, DeleteMessage), Pages (ListMessages,
--     parseMessageSummary). Writes and Confinement follow where on the disk an operation writes.
--   Queue: internal/queue. Parser is parser.go, Service is service.go and postfix.go.
--   SmtpKey: internal/smtpkey, the service over its repository and the domain service.
--   Quota: internal/quota/service.go without Reconcile, over the tables of the mailboxes.
--   Provisioning: internal/provisioning/filesystem.go, the maildirs on the disk.
--   Tls: internal/tls, validator.go, filesystem.go and service.go; Replace follows the writes of a file, Renewal those of a pair.
--   Message: internal/message and internal/storage. Blobs is filesystem.go, with a store of texts as its abstract view
--     (Blobs/Refinement); Service is service.go and
--     repository.go of the messages, and gc.go.
--
-- Bounds. Text is ASCII. UUIDs are natural numbers; times are natural numbers, in seconds for tokens and in
-- nanoseconds for the limiters and the certificates. An `int64` is an integer; the arithmetic on it, in quotas and pages, wraps around at
-- 2 ^ 64. Every loop is a recursion on a list, but that over the blocks of a PEM text, whose fuel is one more than the
-- length of the text: the decoder leaves less than it is given, so this is enough. Sizes of messages, numbers of the rate limits and
-- windows are natural numbers, so negative ones are left out. A call reads the clock once. Each method that
-- holds a mutex, and each statement, is one step.
--
-- A system call that the code makes only to look at an error (the Stat after a failed rename of a blob) does not fail,
-- and a listing of blobs fails as a whole.
--
-- Parameters. SHA-256, Argon2, base64 and the formats of `fmt`, `mail.ParseAddress`, the header parser,
-- `net.ParseIP` and `net.ParseCIDR`, float64 scores, the router's choice of the route, random bytes, UUIDs and owners of files,
-- X.509, RSA, PEM, the resolver, the decoder of JSON, and the program runner are arguments.
--
-- Not modelled: handlers and JSON, the command line, the configuration of Postfix, Dovecot and OpenDKIM, backup,
-- audit, health, metrics and the doctors, which are input and output around the services; sending and decoding of mail in
-- the webmail, the scan of a maildir and float64 shares of quotas; and DNS checks and bounces.
pub mod Api
pub mod Database
pub mod Directory
pub mod Disk
pub mod Dkim
pub mod Domains
pub mod Exec
pub mod Identity
pub mod Inbound
pub mod Ldap
pub mod Mailbox
pub mod Message
pub mod Paths
pub mod Prelude
pub mod Provisioning
pub mod Queue
pub mod Quota
pub mod SmtpKey
pub mod Text
pub mod Tls
pub mod Token
pub mod Webmail
pub mod Window
