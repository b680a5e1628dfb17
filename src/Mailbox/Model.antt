-- ===== src/Mailbox/Model.antt =====
-- internal/mailbox/model.go, and the service's view of the database and of the maildirs.
use opemail.Prelude.{Bool}
use opemail.Text.{Text, codes}
use opemail.Exec.{Exec, recode_by}
use opemail.Database.{DbError, unavailable, duplicate, no_rows, Db}
use opemail.Directory.Tables.{Tables, Mailbox}

pub data MailboxError : Type 0 where
  mailbox_not_found mailbox_exists invalid_email invalid_password domain_not_found
        authentication_failed :
      MailboxError
  database_failed hash_failed provisioning_failed not_configured : MailboxError

abbrev pub pending : Text
pending = codes "pending"

abbrev pub in_progress : Text
in_progress = codes "provisioning"

abbrev pub ready : Text
ready = codes "ready"

abbrev pub failed : Text
failed = codes "failed"

abbrev pub deprovisioning : Text
deprovisioning = codes "deprovisioning"

abbrev pub active : Text
active = codes "active"

-- a row with the name of its domain
pub record Account : Type 0 where
  pub mailbox : Mailbox
  pub domain_name : Text

-- internal/provisioning: the interface of the maildirs. `provision` says whether it succeeded; the error of
-- `deprovision` is never looked at.
pub record Provisioner (D : Type 0) : Type 0 where
  pub provision : Account → D → Bool × D
  pub deprovision : Account → D → D

pub record World (D : Type 0) : Type 0 where
  pub db : Db Tables
  pub disk : D

-- what the repository makes of an error
abbrev pub of_db : DbError → MailboxError
of_db unavailable = database_failed
of_db duplicate = database_failed
of_db no_rows = mailbox_not_found

module _ {D A : Type 0} where
  unfoldable pub on_db : Exec (Db Tables) DbError A → Exec (World D) MailboxError A
  on_db m w = (recode_by of_db (m w.db).0, record w { db = (m w.db).1 })
