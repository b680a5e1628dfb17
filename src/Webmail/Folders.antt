-- ===== src/Webmail/Folders.antt =====
-- The directories of an account in internal/webmail/service.go: `getMaildirPath`, `getFolderDir`, `ensureFolders`,
-- `ListFolders` and `countMaildir`. `root` is the directory of all mail.
pub mod Isolation
use opemail.Prelude.{
  ℕ, ◌+◌, Bool, true, false, not, ◌&&◌, ◌||◌, Option, none, some, List, [], ◌∷◌, ◌++◌,
  if◌then◌else◌,
}
use opemail.Text.{
  Text, codes, eqb, is_empty, canonical, split, contains, trim_space, to_lower, equal_fold,
  has_prefix,
}
use opemail.Text.Parts.{contains_any}
use opemail.Exec.{Result, ok, err, Exec, pure, ignore, ◌>>=◌, ◌>>◌}
use opemail.Database.{DbError, Db, statement}
use opemail.Paths.{FilePath, enter, clean_relative}
use opemail.Disk.{Node, directory, file, is_directory, Disk, Listed, mkdir_all, read_dir}

pub data WebmailError : Type 0 where
  invalid_email invalid_mailbox invalid_folder not_found failed : WebmailError

abbrev pub bad_part : Text → Bool
bad_part p = contains p (codes "..") || contains_any p (codes "/\\")

abbrev pub maildir_of : FilePath → List Text → Result WebmailError FilePath
maildir_of root (localpart ∷ domain ∷ []) =
    if is_empty localpart || is_empty domain
    then err invalid_email
    else if bad_part localpart || bad_part domain
    then err invalid_mailbox
    else ok (enter (enter (enter root domain) localpart) (codes "Maildir"))
maildir_of root _ = err invalid_email

unfoldable pub get_maildir_path : FilePath → Text → Result WebmailError FilePath
get_maildir_path root email = maildir_of root (split (canonical email) b'@')

-- the standard folders, whose names are matched without regard to case
unfoldable pub standard_folder : Text → Option Text
unfolding eqb
standard_folder f =
    if eqb f (codes "sent") || eqb f (codes ".sent")
    then some (codes ".Sent")
    else if eqb f (codes "drafts")
        || eqb f (codes "draft")
        || eqb f (codes ".drafts")
        || eqb f (codes ".draft")
    then some (codes ".Drafts")
    else if eqb f (codes "trash") || eqb f (codes ".trash")
    then some (codes ".Trash")
    else if eqb f (codes "junk")
        || eqb f (codes "spam")
        || eqb f (codes ".junk")
        || eqb f (codes ".spam")
    then some (codes ".Junk")
    else if eqb f (codes "archive") || eqb f (codes ".archive")
    then some (codes ".Archive")
    else none

-- the first directory with the name, without regard to case
unfoldable pub find_fold : Text → Listed → Option Text
unfolding equal_fold
find_fold n [] = none
find_fold n (e ∷ es) =
    if is_directory (some e.1) && equal_fold e.0 n then some e.0 else find_fold n es

-- the outcome of a call whose error is dropped
abbrev pub optional : {A : Type 0} → Result DbError A → Option A
optional (ok a) = some a
optional (err e) = none

abbrev pub attempted :
    {A : Type 0} → Exec (Db Disk) DbError A → Exec (Db Disk) WebmailError (Option A)
attempted m s = (ok (optional (m s).0), (m s).1)

abbrev pub lift : {A : Type 0} → Result WebmailError A → Exec (Db Disk) WebmailError A
lift r s = (r, s)

-- a folder that is not there yet
unfoldable pub new_folder : FilePath → Text → Result WebmailError FilePath
new_folder maildir name =
    let c = clean_relative name in
    if contains c (codes "..") || contains c (codes "/") || contains c (codes "\\")
    then err invalid_folder
    else ok (enter maildir c)

abbrev pub named_folder : FilePath → Text → Option Listed → Result WebmailError FilePath
named_folder maildir name none = new_folder maildir name
named_folder maildir name (some es) = elim (find_fold name es) [
  | none ↦ new_folder maildir name
  | some n ↦ ok (enter maildir n)
]

abbrev pub dotted : Text → Text
dotted f = if has_prefix f (codes ".") then f else b'.' ∷ f

unfoldable pub search_folder : FilePath → Text → Exec (Db Disk) WebmailError FilePath
unfolding read_dir
search_folder maildir name = do
  entries ← attempted (statement (read_dir maildir))
  lift (named_folder maildir name entries)

abbrev pub folder_dir_of : FilePath → Text → Option Text → Exec (Db Disk) WebmailError FilePath
folder_dir_of maildir folder (some n) = lift (ok (enter maildir n))
folder_dir_of maildir folder none = search_folder maildir (dotted folder)

unfoldable pub get_folder_dir : FilePath → Text → Exec (Db Disk) WebmailError FilePath
get_folder_dir maildir folder =
    let f = trim_space folder in
    if is_empty f || equal_fold f (codes "inbox")
    then lift (ok maildir)
    else folder_dir_of maildir f (standard_folder (to_lower f))

-- `_ = os.MkdirAll(dir, 0750)` for each directory
unfoldable pub make_all : List FilePath → Exec (Db Disk) WebmailError (Unit {0})
unfolding mkdir_all
make_all [] = lift (ok tt)
make_all (p ∷ ps) = do ignore (statement (mkdir_all 488 p)); make_all ps

abbrev pub boxes : FilePath → List FilePath
boxes dir = enter dir (codes "cur") ∷ enter dir (codes "new") ∷ enter dir (codes "tmp") ∷ []

unfoldable pub ensure_folders : FilePath → Exec (Db Disk) WebmailError (Unit {0})
unfolding make_all
ensure_folders maildir = make_all (
    boxes (enter maildir [])
    ++ (boxes (enter maildir (codes ".Sent"))
        ++ (boxes (enter maildir (codes ".Drafts"))
            ++ (boxes (enter maildir (codes ".Trash"))
                ++ (boxes (enter maildir (codes ".Junk"))
                    ++ boxes (enter maildir (codes ".Archive")))))))

-- a name is not read in `new`, and in `cur` where it has no flag `S`
abbrev pub is_seen : Text → Bool
is_seen name = contains name (codes ":2,") && contains name (codes "S")

abbrev pub is_message : Text × Node → Bool
is_message e = not (is_directory (some e.1) || has_prefix e.0 (codes "."))

unfoldable pub count_entries : Bool → Listed → ℕ × ℕ
count_entries is_new [] = (0, 0)
count_entries is_new (e ∷ es) =
    let rest = count_entries is_new es in
    if is_message e
    then (rest.0 + 1, (if is_new || not (is_seen e.0) then rest.1 + 1 else rest.1))
    else rest

abbrev pub counted : Bool → Option Listed → ℕ × ℕ
counted is_new none = (0, 0)
counted is_new (some es) = count_entries is_new es

-- all messages, and those that are not read
unfoldable pub count_maildir : FilePath → Exec (Db Disk) WebmailError (ℕ × ℕ)
unfolding read_dir count_entries
count_maildir dir = do
  n ← attempted (statement (read_dir (enter dir (codes "new"))))
  c ← attempted (statement (read_dir (enter dir (codes "cur"))))
  lift (ok ((counted true n).0 + (counted false c).0, (counted true n).1 + (counted false c).1))

pub record Folder : Type 0 where
  pub id : Text
  pub name : Text
  pub display_name : Text
  pub total_count : ℕ
  pub unread_count : ℕ
  pub icon : Text

pub record Standard : Type 0 where
  pub id : Text
  pub name : Text
  pub display_name : Text
  pub folder_dir : Text
  pub icon : Text

unfoldable pub standard_folders : List Standard
standard_folders =
    record {
      id = codes "inbox";
      name = codes "INBOX";
      display_name = codes "Inbox";
      folder_dir = [];
      icon = codes "inbox";
    }
    ∷ record {
      id = codes "sent";
      name = codes "Sent";
      display_name = codes "Sent Mail";
      folder_dir = codes ".Sent";
      icon = codes "send";
    }
    ∷ record {
      id = codes "drafts";
      name = codes "Drafts";
      display_name = codes "Drafts";
      folder_dir = codes ".Drafts";
      icon = codes "file-text";
    }
    ∷ record {
      id = codes "archive";
      name = codes "Archive";
      display_name = codes "Archive";
      folder_dir = codes ".Archive";
      icon = codes "archive";
    }
    ∷ record {
      id = codes "junk";
      name = codes "Junk";
      display_name = codes "Junk / Spam";
      folder_dir = codes ".Junk";
      icon = codes "alert-octagon";
    }
    ∷ record {
      id = codes "trash";
      name = codes "Trash";
      display_name = codes "Trash";
      folder_dir = codes ".Trash";
      icon = codes "trash-2";
    }
    ∷ []

abbrev pub folder_of : Standard → ℕ × ℕ → Folder
folder_of d c = record {
  id = d.id;
  name = d.name;
  display_name = d.display_name;
  total_count = c.0;
  unread_count = c.1;
  icon = d.icon;
}

unfoldable pub count_all : FilePath → List Standard → Exec (Db Disk) WebmailError (List Folder)
unfolding count_maildir
count_all maildir [] = lift (ok [])
count_all maildir (d ∷ ds) = do
  c ← count_maildir (enter maildir d.folder_dir)
  rest ← count_all maildir ds
  lift (ok (folder_of d c ∷ rest))

unfoldable pub list_folders : FilePath → Text → Exec (Db Disk) WebmailError (List Folder)
unfolding ensure_folders count_all standard_folders
list_folders root email = do
  maildir ← lift (get_maildir_path root email)
  ensure_folders maildir
  count_all maildir standard_folders
