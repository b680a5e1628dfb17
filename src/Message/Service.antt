-- ===== src/Message/Service.antt =====
-- internal/message/service.go and repository.go, and the collection of orphan blobs of
-- internal/storage/gc.go. `parse_headers` is `parseEmailHeaders`, which reads the headers with net/mail.
pub mod Sweep
pub mod Content
use opemail.Prelude.{
  ℕ, ◌+◌, Bool, true, false, not, ◌&&◌, ◌||◌, Option, none, some, List, [], ◌∷◌, ◌++◌, map, any,
  keep, length, ◌==◌, if◌then◌else◌,
}
use opemail.Text.{Text, eqb, is_empty, canonical}
use opemail.Exec.{Result, ok, err, Exec, is_ok, pure, fail, ignore, when, recode_by, ◌>>=◌, ◌>>◌}
use opemail.Database.{DbError, unavailable, duplicate, no_rows, Db, statement}
use opemail.Directory.Tables.{Tables, Mailbox, find_email}
use opemail.Mailbox.Model.{Account}
use opemail.Mailbox.Repository.{located}
use opemail.Message.Blobs.{StorageError, Disk, Blob, put, get, delete, list_ids}

pub record Message : Type 0 where
  pub id : ℕ
  pub mailbox_id : ℕ
  pub message_id : Text
  pub blob_id : Text
  pub sender : Text
  pub subject : Text
  pub size_bytes : ℕ
  pub received_at : ℕ
  pub created_at : ℕ

pub record Headers : Type 0 where
  pub message_id : Text
  pub sender : Text
  pub subject : Text
  pub date : Option ℕ

-- the directory's tables beside the table of messages
pub record Rows : Type 0 where
  pub directory : Tables
  pub messages : List Message

pub record World : Type 0 where
  pub db : Db Rows
  pub disk : Disk

pub data MessageError : Type 0 where
  mailbox_not_found message_not_found empty_message database_failed storage_failed : MessageError

unfoldable pub find_message : ℕ → List Message → Option Message
find_message i [] = none
find_message i (m ∷ ms) = if m.id == i then some m else find_message i ms

abbrev pub of_db : MessageError → DbError → MessageError
of_db missing unavailable = database_failed
of_db missing duplicate = database_failed
of_db missing no_rows = missing

abbrev pub on_db :
    {A : Type 0} → MessageError → (Rows → Result DbError (A × Rows)) → Exec World MessageError A
on_db missing run w =
    (recode_by (of_db missing) (statement run w.db).0, record w { db = (statement run w.db).1 })

abbrev pub on_blobs : {A : Type 0} → Exec Disk StorageError A → Exec World MessageError A
on_blobs m w = (recode_by (λ e. storage_failed) (m w.disk).0, record w { disk = (m w.disk).1 })

abbrev pub with_rows : {A : Type 0} → Rows → Result DbError (A × Tables) → Result DbError (A × Rows)
with_rows r (ok (a, t)) = ok (a, r)
with_rows r (err e) = err e

-- `mailboxRepo.GetByEmail`
unfoldable pub resolve_mailbox : Text → Exec World MessageError Account
unfolding find_email located
resolve_mailbox e =
    on_db mailbox_not_found
      (λ r. with_rows r (located r.directory (find_email e r.directory.mailboxes)))

unfoldable pub create_message : Message → Exec World MessageError (Unit {0})
create_message m = on_db database_failed (λ r.
    if any (λ x. x.id == m.id) r.messages
    then err duplicate
    else ok (tt, record r { messages = r.messages ++ m ∷ [] }))

abbrev pub found : Rows → Option Message → Result DbError (Message × Rows)
found r none = err no_rows
found r (some m) = ok (m, r)

unfoldable pub get_by_id : ℕ → Exec World MessageError Message
unfolding find_message
get_by_id i = on_db message_not_found (λ r. found r (find_message i r.messages))

unfoldable pub delete_message : ℕ → Exec World MessageError (Unit {0})
delete_message i = on_db message_not_found (λ r.
    if any (λ x. x.id == i) r.messages
    then ok (tt, record r { messages = keep (λ x. not (x.id == i)) r.messages })
    else err no_rows)

-- `GetAllBlobIDs`
unfoldable pub get_all_blob_ids : Exec World MessageError (List Text)
get_all_blob_ids = on_db database_failed (λ r. ok (map (λ m. m.blob_id) r.messages, r))

abbrev pub or_now : ℕ → Option ℕ → ℕ
or_now now none = now
or_now now (some t) = t

abbrev pub or_undo : Result MessageError (Unit {0}) → Text → Exec World MessageError (Unit {0})
or_undo (ok u) blob = pure u
or_undo (err e) blob = ignore (on_blobs (delete blob)) >> fail e

-- `Create`, and the deletion of the blob when it fails
unfoldable pub create_or_undo : Message → Exec World MessageError (Unit {0})
unfolding create_message
create_or_undo m w = or_undo (create_message m w).0 m.blob_id (create_message m w).1

abbrev pub new_message : ℕ → ℕ → Account → Text → Headers → Blob → Message
new_message now id a raw h blob = record {
  id = id;
  mailbox_id = a.mailbox.id;
  message_id = h.message_id;
  blob_id = blob.id;
  sender = h.sender;
  subject = h.subject;
  size_bytes = blob.size_bytes;
  received_at = or_now now h.date;
  created_at = now;
}

module _ (sha256 : Text → Text) (parse_headers : Text → Headers) where
  -- `id` is the UUID that the call draws
  unfoldable pub store : ℕ → ℕ → Text → Text → Exec World MessageError Message
  unfolding canonical is_empty create_or_undo
  store now id email raw = do
    a ← resolve_mailbox (canonical email)
    when (is_empty raw) empty_message
    blob ← on_blobs (put sha256 raw)
    create_or_undo (new_message now id a raw (parse_headers raw) blob)
    pure (new_message now id a raw (parse_headers raw) blob)

unfoldable pub get_content : ℕ → Exec World MessageError (Message × Text)
get_content i = do m ← get_by_id i; c ← on_blobs (get m.blob_id); pure (m, c)

unfoldable pub delete_by_id : ℕ → Exec World MessageError (Unit {0})
delete_by_id i = do m ← get_by_id i; delete_message i; ignore (on_blobs (delete m.blob_id))

pub record GcStats : Type 0 where
  pub total_blobs : ℕ
  pub referenced_blobs : ℕ
  pub orphan_blobs : ℕ
  pub deleted_blobs : ℕ

abbrev pub is_referenced : Text → List Text → Bool
unfolding eqb
is_referenced i refs = any (λ r. eqb r i) refs

abbrev pub count_deleted : Result StorageError (Unit {0}) → GcStats → GcStats
count_deleted (ok u) st = record st { deleted_blobs = st.deleted_blobs + 1 }
count_deleted (err e) st = st

unfoldable pub sweep : Text → GcStats → Exec World MessageError GcStats
sweep i st w = (ok (count_deleted (delete i w.disk).0 st), record w { disk = (delete i w.disk).1 })

-- one turn of the loop
unfoldable pub visit : Bool → List Text → Text → GcStats → Exec World MessageError GcStats
unfolding is_referenced sweep
visit dry_run refs i st =
    if is_referenced i refs
    then pure st
    else if dry_run
    then pure (record st { orphan_blobs = st.orphan_blobs + 1 })
    else sweep i (record st { orphan_blobs = st.orphan_blobs + 1 })

unfoldable pub visit_all : Bool → List Text → List Text → GcStats → Exec World MessageError GcStats
unfolding visit
visit_all dry_run refs [] st = pure st
visit_all dry_run refs (i ∷ is) st =
    visit dry_run refs i st >>= λ st'. visit_all dry_run refs is st'

-- the length of a Go map with these keys
abbrev pub distinct : List Text → List Text
unfolding is_referenced
distinct [] = []
distinct (i ∷ is) = let rest = distinct is in if is_referenced i is then rest else i ∷ rest

unfoldable pub garbage_collect : Bool → Exec World MessageError GcStats
unfolding visit_all distinct
garbage_collect dry_run = do
  refs ← get_all_blob_ids
  ids ← on_blobs list_ids
  visit_all dry_run refs ids (record {
    total_blobs = length ids;
    referenced_blobs = length (distinct refs);
    orphan_blobs = 0;
    deleted_blobs = 0;
  })
