-- ===== src/Webmail/Pages.antt =====
-- `ListMessages` and `parseMessageSummary` of internal/webmail/service.go. The parser of net/mail and mime is a
-- parameter. A slice with a negative bound panics, and `int` has 64 bits.
pub mod Windows
pub mod Entries
use opemail.Prelude.{
  ℕ, zero, suc, ◌+◌, ◌-◌, ◌*◌, ◌%◌, ◌^◌, Bool, true, false, not, ◌&&◌, ◌||◌, Option, none, some,
  List, [], ◌∷◌, ◌++◌, length, take, drop, leb, ltb, ◌==◌, if◌then◌else◌,
}
use opemail.Text.{Text, codes, eqb, is_empty, contains, to_lower, trim_space}
use opemail.Exec.{Result, ok, err, Exec, pure, ◌>>=◌, ◌>>◌}
use opemail.Database.{DbError, Db, statement}
use opemail.Directory.Tables.{ℤ, pos, negsuc}
use opemail.Paths.{FilePath, enter}
use opemail.Disk.{Node, directory, file, Disk, Listed, read_dir, stat, read_file}
use opemail.Webmail.Folders.{
  WebmailError, attempted, lift, get_maildir_path, get_folder_dir, ensure_folders, is_seen,
  is_message,
}

pub data Paged {ℓ} (A : Type ℓ) : Type ℓ where
  paged : List A → ℕ → Paged A
  panics : Paged A

-- `xs[start:end]` with the end cut off at the length
abbrev pub slice {ℓ} : {A : Type ℓ} → List A → ℕ → ℕ → List A
slice xs start limit =
    if ltb (length xs) (start + limit)
    then take (length xs - start) (drop start xs)
    else take limit (drop start xs)

-- the part from `(page - 1) * limit` on, a product of 64 bits
unfoldable pub paginate {ℓ} : {A : Type ℓ} → List A → ℕ → ℕ → Paged A
paginate xs page limit =
    let start = ((page - 1) * limit) % 2 ^ 64 in
    if leb (2 ^ 63) start
    then panics
    else if ltb (length xs) start
    then paged [] (length xs)
    else paged (slice xs start limit) (length xs)

abbrev pub page_or_first : ℤ → ℕ
page_or_first (pos zero) = 1
page_or_first (pos (suc n)) = suc n
page_or_first (negsuc n) = 1

abbrev pub limit_or_default : ℤ → ℕ
limit_or_default (pos n) = if ltb n 1 || ltb 100 n then 25 else n
limit_or_default (negsuc n) = 25

pub record FileMeta : Type 0 where
  pub filename : Text
  pub sub_dir : Text
  pub mod_time : ℕ
  pub size : ℕ
  pub is_read : Bool

-- the header and the text of a message, decoded
pub record Mail : Type 0 where
  pub message_id : Text
  pub from : Text
  pub to : Text
  pub subject : Text
  pub date : Option ℕ
  pub snippet : Text
  pub has_attachments : Bool

pub record MessageSummary : Type 0 where
  pub id : Text
  pub folder : Text
  pub message_id : Text
  pub from : Text
  pub to : List Text
  pub subject : Text
  pub date : ℕ
  pub is_read : Bool
  pub has_attachments : Bool
  pub size : ℕ
  pub snippet : Text

abbrev pub meta_of : Text → Text → Option Node → Option FileMeta
meta_of sub name none = none
meta_of sub name (some (directory m)) = none
meta_of sub name (some (file c m t)) = some (record {
  filename = name;
  sub_dir = sub;
  mod_time = t;
  size = length c;
  is_read = eqb sub (codes "cur") && is_seen name;
})

abbrev pub and_meta : Option FileMeta → List FileMeta → List FileMeta
and_meta none ms = ms
and_meta (some m) ms = m ∷ ms

unfoldable pub metas_of : Text → Listed → List FileMeta
metas_of sub [] = []
metas_of sub (e ∷ es) =
    let rest = metas_of sub es in
    if is_message e then and_meta (meta_of sub e.0 (some e.1)) rest else rest

abbrev pub listed_metas : Text → Option Listed → List FileMeta
listed_metas sub none = []
listed_metas sub (some es) = metas_of sub es

-- behind the files that are not older
unfoldable pub insert_meta : FileMeta → List FileMeta → List FileMeta
insert_meta m [] = m ∷ []
insert_meta m (x ∷ xs) =
    let rest = insert_meta m xs in if ltb x.mod_time m.mod_time then m ∷ x ∷ xs else x ∷ rest

-- sort.Slice by the time of the change, the last one first
unfoldable pub newest_first : List FileMeta → List FileMeta
unfolding insert_meta
newest_first [] = []
newest_first (m ∷ ms) = insert_meta m (newest_first ms)

abbrev pub or_time : ℕ → Option ℕ → ℕ
or_time t none = t
or_time t (some d) = d

abbrev pub addressees : Text → List Text
addressees to = if is_empty to then [] else to ∷ []

module _ (read_mail : Text → Option Mail) where
  abbrev pub summary_of : Text → FileMeta → Option Mail → MessageSummary
  summary_of folder m none = record {
    id = m.filename;
    folder = folder;
    message_id = m.filename;
    from = codes "Unknown Sender";
    to = [];
    subject = codes "(Corrupted message)";
    date = m.mod_time;
    is_read = m.is_read;
    has_attachments = false;
    size = m.size;
    snippet = [];
  }
  summary_of folder m (some h) = record {
    id = m.filename;
    folder = folder;
    message_id = h.message_id;
    from = h.from;
    to = addressees h.to;
    subject = if is_empty h.subject then codes "(No Subject)" else h.subject;
    date = or_time m.mod_time h.date;
    is_read = m.is_read;
    has_attachments = h.has_attachments;
    size = m.size;
    snippet = h.snippet;
  }

  abbrev pub parse_summary : Text → FileMeta → Option Text → Option MessageSummary
  parse_summary folder m none = none
  parse_summary folder m (some content) = some (summary_of folder m (read_mail content))

  abbrev pub matches : Text → MessageSummary → Bool
  matches search s =
      is_empty search
      || contains (to_lower s.subject) search
      || contains (to_lower s.from) search
      || contains (to_lower s.snippet) search

  abbrev pub and_match : Text → Option MessageSummary → List MessageSummary → List MessageSummary
  and_match search none ss = ss
  and_match search (some s) ss = if matches search s then s ∷ ss else ss

  unfoldable pub summaries :
      FilePath → Text → Text → List FileMeta → Exec (Db Disk) WebmailError (List MessageSummary)
  unfolding read_file
  summaries dir folder search [] = lift (ok [])
  summaries dir folder search (m ∷ ms) = do
    content ← attempted (statement (read_file (enter (enter dir m.sub_dir) m.filename)))
    rest ← summaries dir folder search ms
    lift (ok (and_match search (parse_summary folder m content) rest))

  unfoldable pub list_messages :
      FilePath → Text → Text → ℤ → ℤ → Text → Exec (Db Disk) WebmailError (Paged MessageSummary)
  unfolding ensure_folders get_folder_dir metas_of newest_first summaries paginate
  list_messages root email folder page limit search = do
    maildir ← lift (get_maildir_path root email)
    ensure_folders maildir
    dir ← get_folder_dir maildir folder
    fresh ← attempted (statement (read_dir (enter dir (codes "new"))))
    kept ← attempted (statement (read_dir (enter dir (codes "cur"))))
    found ←
        summaries dir folder (to_lower (trim_space search))
          (newest_first (listed_metas (codes "new") fresh ++ listed_metas (codes "cur") kept))
    lift (ok (paginate found (page_or_first page) (limit_or_default limit)))
