-- ===== src/Quota.antt =====
-- internal/quota/service.go: `GetQuota` without the percentage and the status, which are computed in float64,
-- `CheckCanAccept` and `UpdateQuota`. Bytes are `int64` and wrap around.
pub mod Acceptance
mod Examples
use opemail.Prelude.{ℕ, ◌+◌, ◌-◌, ◌%◌, ◌^◌, Bool, true, false, ◌&&◌, ltb, leb, if◌then◌else◌}
use opemail.Text.{Text, folded}
use opemail.Exec.{Result, ok, err, Exec, pure, when, recode_by, ◌>>=◌, ◌>>◌}
use opemail.Database.{DbError, unavailable, duplicate, no_rows, Db}
use opemail.Directory.Tables.{ℤ, pos, negsuc, Mailbox, Tables}
use opemail.Mailbox.Model.{Account}
use opemail.Mailbox.Repository.{get_by_email, update_quota_bytes}

pub data QuotaError : Type 0 where
  quota_exceeded mailbox_not_found failed : QuotaError

pub record MailboxQuota : Type 0 where
  pub mailbox_id : ℕ
  pub email : Text
  pub used_bytes : ℤ
  pub quota_bytes : ℤ

-- an `int64` as its 64 bits, and back
abbrev pub bits : ℤ → ℕ
bits (pos n) = n % 2 ^ 64
bits (negsuc n) = 2 ^ 64 - 1 - n % 2 ^ 64

abbrev pub of_bits : ℕ → ℤ
of_bits b = if ltb b (2 ^ 63) then pos b else negsuc (2 ^ 64 - 1 - b)

-- `a + b`
unfoldable pub add : ℤ → ℤ → ℤ
add a b = of_bits ((bits a + bits b) % 2 ^ 64)

-- `a > b`
unfoldable pub exceeds : ℤ → ℤ → Bool
exceeds (pos m) (pos n) = ltb n m
exceeds (pos m) (negsuc n) = true
exceeds (negsuc m) (pos n) = false
exceeds (negsuc m) (negsuc n) = ltb m n

abbrev pub of_db : DbError → QuotaError
of_db unavailable = failed
of_db duplicate = failed
of_db no_rows = mailbox_not_found

abbrev pub on_db : {A : Type 0} → Exec (Db Tables) DbError A → Exec (Db Tables) QuotaError A
on_db m s = (recode_by of_db (m s).0, (m s).1)

abbrev pub quota_of : Mailbox → MailboxQuota
quota_of m = record {
  mailbox_id = m.id;
  email = m.email;
  used_bytes = m.used_bytes;
  quota_bytes = m.quota_bytes;
}

unfoldable pub get_quota : Text → Exec (Db Tables) QuotaError MailboxQuota
unfolding get_by_email
get_quota email = do a ← on_db (get_by_email (folded email)); pure (quota_of a.mailbox)

-- the test on the bytes: there is a quota, and it is exceeded
unfoldable pub is_over : ℤ → ℤ → ℤ → Bool
unfolding add exceeds
is_over quota used incoming = exceeds quota (pos 0) && exceeds (add used incoming) quota

unfoldable pub check_can_accept : Text → ℤ → Exec (Db Tables) QuotaError Bool
unfolding get_quota is_over
check_can_accept email incoming = do
  q ← get_quota email
  when (is_over q.quota_bytes q.used_bytes incoming) quota_exceeded
  pure true

abbrev pub or_gigabyte : ℤ → ℤ
or_gigabyte q = if exceeds q (pos 0) then q else pos 1073741824

unfoldable pub update_quota : ℕ → Text → ℤ → Exec (Db Tables) QuotaError MailboxQuota
unfolding get_by_email update_quota_bytes get_quota
update_quota now email quota = do
  a ← on_db (get_by_email (folded email))
  on_db (update_quota_bytes now a.mailbox.id (or_gigabyte quota))
  get_quota (folded email)
