-- ===== src/Mailbox/Service.antt =====
-- internal/mailbox/service.go. Parameters: `mail.ParseAddress` succeeds, `HashPassword` under the salt that
-- the call draws, `VerifyPassword`, and the provisioner, which may be nil. A call reads the clock once.
pub mod Accounts
pub mod Login
use opemail.Prelude.{
  ℕ, ◌-◌, Bool, true, false, not, ◌&&◌, ◌||◌, Option, none, some, List, [], ◌∷◌, length, ltb, ◌==◌,
  if◌then◌else◌,
}
use opemail.Text.{Text, codes, eqb, is_empty, canonical, split}
use opemail.Exec.{Result, ok, err, Exec, pure, fail, fail_with, ignore, when, ◌>>=◌, ◌>>◌}
use opemail.Database.{DbError, unavailable, duplicate, no_rows, Db, statement}
use opemail.Directory.Tables.{ℤ, pos, negsuc, Mailbox, Domain, Tables, find_name}
use opemail.Domains.Repository.{get_by_name}
use opemail.Mailbox.Model.{
  MailboxError, mailbox_exists, invalid_email, invalid_password, domain_not_found,
  authentication_failed, database_failed, hash_failed, provisioning_failed, not_configured,
  mailbox_not_found, pending, in_progress, ready, failed, deprovisioning, active, Account,
  Provisioner, World, on_db,
}
use opemail.Mailbox.Repository.{
  create_row, get_by_email, update_provisioning_status, update_status, update_password_hash,
  delete_row,
}

abbrev two_parts : List Text → Option (Text × Text)
two_parts [] = none
two_parts (a ∷ []) = none
two_parts (a ∷ b ∷ []) = some (a, b)
two_parts (a ∷ b ∷ c ∷ ps) = none

abbrev both_some : Option (Text × Text) → Bool
unfolding is_empty
both_some none = false
both_some (some (a, b)) = not (is_empty a) && not (is_empty b)

-- a quota that is not positive becomes 1 GB
unfoldable pub or_gigabyte : ℤ → ℤ
or_gigabyte (pos n) = if n == 0 then pos 1073741824 else pos n
or_gigabyte (negsuc n) = pos 1073741824

abbrev pub answer_of_domain : Result DbError Domain → Result MailboxError Domain
answer_of_domain (ok d) = ok d
answer_of_domain (err no_rows) = err domain_not_found
answer_of_domain (err unavailable) = err database_failed
answer_of_domain (err duplicate) = err database_failed

-- the answer of step 5: a mailbox that is found is an error, and one that is not is none
abbrev pub answer_of_existing : Result DbError Account → Result MailboxError (Unit {0})
answer_of_existing (ok a) = err mailbox_exists
answer_of_existing (err no_rows) = ok tt
answer_of_existing (err unavailable) = err database_failed
answer_of_existing (err duplicate) = err database_failed

abbrev pub some_or_fail : {S A : Type 0} → MailboxError → Option A → Exec S MailboxError A
unfolding pure fail
some_or_fail e none = fail e
some_or_fail e (some a) = pure a

module _ {D : Type 0} where
  unfoldable pub resolve_domain : Text → Exec (World D) MailboxError Domain
  unfolding get_by_name
  resolve_domain n w =
      (answer_of_domain (get_by_name n w.db).0, record w { db = (get_by_name n w.db).1 })

  unfoldable pub must_be_free : Text → Exec (World D) MailboxError (Unit {0})
  unfolding get_by_email
  must_be_free e w =
      (answer_of_existing (get_by_email e w.db).0, record w { db = (get_by_email e w.db).1 })

module _ (parse_address : Text → Bool) where
  unfoldable pub is_valid_email : Text → Bool
  unfolding split is_empty
  is_valid_email e =
      if (length e == 0) || ltb 254 (length e)
      then false
      else if not (parse_address e)
      then false
      else both_some (two_parts (split e b'@'))

module _ {D : Type 0} where
  unfoldable pub provision_with : Provisioner D → Account → Exec (World D) MailboxError Bool
  provision_with p a w = (ok (p.provision a w.disk).0, record w { disk = (p.provision a w.disk).1 })

  unfoldable pub note_outcome : ℕ → Account → Bool → Exec (World D) MailboxError Account
  note_outcome now a true = do
    ignore (on_db (update_provisioning_status now a.mailbox.id ready))
    pure (record a { mailbox = record a.mailbox { provisioning_status = ready } })
  note_outcome now a false = do
    ignore (on_db (update_provisioning_status now a.mailbox.id failed))
    fail provisioning_failed

  -- the calls around `provisioner.Provision`, which `Create` and `Provision` both make
  unfoldable pub run_provisioner : ℕ → Account → Provisioner D → Exec (World D) MailboxError Account
  unfolding provision_with note_outcome
  run_provisioner now a p = do
    ignore (on_db (update_provisioning_status now a.mailbox.id in_progress))
    worked ← provision_with p a
    note_outcome now a worked

  unfoldable pub provision_new :
      ℕ → Account → Option (Provisioner D) → Exec (World D) MailboxError Account
  unfolding run_provisioner
  provision_new now a none = pure a
  provision_new now a (some p) = run_provisioner now a p

  unfoldable pub clean_up :
      Account → Option (Provisioner D) → Exec (World D) MailboxError (Unit {0})
  clean_up a none w = (ok tt, w)
  clean_up a (some p) w = (ok tt, record w { disk = p.deprovision a w.disk })

unfoldable pub new_mailbox : ℕ → ℕ → Domain → Text → Text → ℤ → Mailbox
unfolding or_gigabyte
new_mailbox now id dom email hash quota = record {
  id = id;
  domain_id = dom.id;
  email = email;
  password_hash = hash;
  quota_bytes = or_gigabyte quota;
  used_bytes = pos 0;
  status = active;
  provisioning_status = pending;
  identity_provider = codes "local";
  created_at = now;
  updated_at = now;
}

module _ {D : Type 0} (parse_address : Text → Bool) (hash_password : Text → Option Text)
    (verify_password : Text → Text → Bool) (provisioner : Option (Provisioner D)) where
  -- `Create` with the email in its canonical form; `id` is the UUID that the call draws
  unfoldable pub create_canonical : ℕ → ℕ → Text → Text → ℤ → Exec (World D) MailboxError Account
  unfolding is_valid_email new_mailbox
  create_canonical now id email password quota = do
    when (not (is_valid_email parse_address email)) invalid_email
    when (ltb (length password) 8) invalid_password
    (local, name) ← some_or_fail invalid_email (two_parts (split email b'@'))
    dom ← resolve_domain name
    must_be_free email
    hash ← some_or_fail hash_failed (hash_password password)
    on_db (create_row (new_mailbox now id dom email hash quota))
    provision_new now
        (record { mailbox = new_mailbox now id dom email hash quota; domain_name = dom.name })
        provisioner

  unfoldable pub create : ℕ → ℕ → Text → Text → ℤ → Exec (World D) MailboxError Account
  unfolding canonical
  create now id email password quota = create_canonical now id (canonical email) password quota

  abbrev pub provision_found :
      ℕ → Account → Option (Provisioner D) → Exec (World D) MailboxError (Account × Bool)
  provision_found now a none = fail not_configured
  provision_found now a (some p) = run_provisioner now a p >>= λ b. pure (b, false)

  -- the flag says that the mailbox was ready already
  unfoldable pub provision : ℕ → Text → Exec (World D) MailboxError (Account × Bool)
  unfolding canonical eqb
  provision now email = do
    a ← on_db (get_by_email (canonical email))
    if eqb a.mailbox.provisioning_status ready
        then pure (a, true)
        else provision_found now a provisioner

  unfoldable pub get : Text → Exec (World D) MailboxError Account
  unfolding canonical is_empty
  get email =
      if is_empty (canonical email)
      then fail invalid_email
      else on_db (get_by_email (canonical email))

  unfoldable pub set_password : ℕ → Text → Text → Exec (World D) MailboxError (Unit {0})
  unfolding canonical is_valid_email
  set_password now email new_password = do
    when (not (is_valid_email parse_address (canonical email))) invalid_email
    when (ltb (length new_password) 8) invalid_password
    a ← on_db (get_by_email (canonical email))
    hash ← some_or_fail hash_failed (hash_password new_password)
    on_db (update_password_hash now a.mailbox.id hash)

  unfoldable pub delete : ℕ → Text → Exec (World D) MailboxError (Unit {0})
  unfolding canonical is_empty clean_up
  delete now email = do
    when (is_empty (canonical email)) invalid_email
    a ← on_db (get_by_email (canonical email))
    ignore (on_db (update_status now a.mailbox.id (codes "deleting")))
    ignore (on_db (update_provisioning_status now a.mailbox.id deprovisioning))
    clean_up a provisioner
    on_db (delete_row (canonical email))

  unfoldable pub authenticate : Text → Text → Exec (World D) MailboxError Account
  unfolding canonical is_empty is_valid_email eqb
  authenticate email password = do
    when (is_empty (canonical email) || not (is_valid_email parse_address (canonical email)))
        invalid_email
    a ← on_db (get_by_email (canonical email))
    when (not (eqb a.mailbox.status active)) authentication_failed
    when (not (verify_password password a.mailbox.password_hash)) authentication_failed
    pure a

module _ {D : Type 0} where
  unfoldable pub suspend : ℕ → ℕ → Exec (World D) MailboxError (Unit {0})
  suspend now id = on_db (update_status now id (codes "suspended"))

  unfoldable pub resume : ℕ → ℕ → Exec (World D) MailboxError (Unit {0})
  resume now id = on_db (update_status now id active)
