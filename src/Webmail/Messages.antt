-- ===== src/Webmail/Messages.antt =====
-- The messages of a folder in internal/webmail/service.go: `findMessageFile`, `MarkMessageRead`, `MoveMessage` and
-- `DeleteMessage`, with net/url's unescaping.
pub mod Lookup
pub mod FolderLookup
pub mod Confined
use opemail.Prelude.{
  ℕ, ◌+◌, ◌-◌, ◌*◌, Bool, true, false, not, ◌&&◌, ◌||◌, Option, none, some, List, [], ◌∷◌, ◌++◌,
  leb, ◌==◌, if◌then◌else◌,
}
use opemail.Text.{Text, codes, eqb, has_prefix, equal_fold}
use opemail.Text.Parts.{before}
use opemail.Exec.{Result, ok, err, Exec, pure, ignore, ◌>>=◌, ◌>>◌}
use opemail.Database.{DbError, Db, statement}
use opemail.Paths.{FilePath, enter, base, same}
use opemail.Paths.Inside.{name_of}
use opemail.Disk.{Node, Disk, Listed, stat, read_dir, rename, remove, mkdir_all}
use opemail.Webmail.Folders.{
  WebmailError, not_found, failed, attempted, lift, get_maildir_path, get_folder_dir,
}

abbrev pub hex_value : ℕ → Option ℕ
hex_value c =
    if leb b'0' c && leb c b'9'
    then some (c - 48)
    else if leb b'A' c && leb c b'F'
    then some (c - 55)
    else if leb b'a' c && leb c b'f'
    then some (c - 87)
    else none

-- `c` in front of what the rest gives
abbrev pub and_then : ℕ → Option Text → Option Text
and_then c none = none
and_then c (some s) = some (c ∷ s)

-- two digits in front of what the rest gives
abbrev pub hex_then : Option ℕ → Option ℕ → Option Text → Option Text
hex_then (some h) (some l) rest = and_then (h * 16 + l) rest
hex_then _ _ rest = none

-- url.PathUnescape, and url.QueryUnescape, which turns `+` into a space; none for an error
unfoldable pub unescape : Bool → Text → Option Text
unescape query [] = some []
unescape query (c ∷ []) =
    if c == b'%' then none else if query && (c == b'+') then some (b' ' ∷ []) else some (c ∷ [])
unescape query (c ∷ d ∷ []) =
    let rest = unescape query (d ∷ []) in
    if c == b'%' then none else and_then (if query && (c == b'+') then b' ' else c) rest
unescape query (c ∷ d ∷ e ∷ s) =
    let rest = unescape query (d ∷ e ∷ s) in
    let after = unescape query s in
    if c == b'%'
    then hex_then (hex_value d) (hex_value e) after
    else and_then (if query && (c == b'+') then b' ' else c) rest

abbrev pub or_same : Text → Option Text → Text
or_same s none = s
or_same s (some t) = t

-- the message id as the two decoders leave it, and its last element
unfoldable pub clean_id : Text → Text
clean_id id = let once = or_same id (unescape false id) in base (or_same once (unescape true once))

-- the id without its flags and its size
unfoldable pub base_key : Text → Text
base_key clean = before (before (before clean (codes ":2,")) (codes ",U=")) (codes ":")

-- the first entry whose name begins with the key
unfoldable pub first_match : Text → Text → Listed → Option Text
first_match clean key [] = none
first_match clean key (e ∷ es) =
    if eqb e.0 clean || eqb e.0 key || has_prefix e.0 key
    then some e.0
    else first_match clean key es

abbrev pub matched : Text → Text → Option Listed → Option Text
matched clean key none = none
matched clean key (some es) = first_match clean key es

abbrev pub choose : {A B : Type 0} → Option A → (A → B) → B → B
choose none f b = b
choose (some a) f b = f a

-- the file and its subdirectory, the ones that are left to search
unfoldable pub find_in :
    Text → Text → FilePath → List Text → Exec (Db Disk) WebmailError (FilePath × Text)
unfolding stat read_dir first_match
find_in clean key dir [] = lift (err not_found)
find_in clean key dir (sub ∷ subs) = do
  here ← attempted (statement (stat (enter (enter dir sub) clean)))
  choose here (λ n. lift (ok (enter (enter dir sub) clean, sub)))
      (do
        entries ← attempted (statement (read_dir (enter dir sub)))
        choose (matched clean key entries) (λ name. lift (ok (enter (enter dir sub) name, sub)))
            (find_in clean key dir subs))

unfoldable pub find_message_file : FilePath → Text → Exec (Db Disk) WebmailError (FilePath × Text)
unfolding find_in clean_id base_key
find_message_file dir id =
    find_in (clean_id id) (base_key (clean_id id)) dir (codes "cur" ∷ codes "new" ∷ [])

abbrev pub dropped : {A : Type 0} → Exec (Db Disk) DbError A → Exec (Db Disk) WebmailError A
dropped m s = (opemail.Exec.recode_by (λ e. failed) (m s).0, (m s).1)

-- the name of a message with the flag of a read one, or without flags
unfoldable pub flagged : Bool → Text → Text
flagged read name = before name (codes ":2,") ++ (if read then codes ":2,S" else codes ":2,")

unfoldable pub rename_unless_same : FilePath → FilePath → Exec (Db Disk) WebmailError (Unit {0})
unfolding rename
rename_unless_same p q = if same p q then lift (ok tt) else ignore (statement (rename p q))

unfoldable pub mark_message_read :
    FilePath → Text → Text → Text → Bool → Exec (Db Disk) WebmailError (Unit {0})
unfolding get_folder_dir find_message_file rename_unless_same
mark_message_read root email folder id read = do
  maildir ← lift (get_maildir_path root email)
  dir ← get_folder_dir maildir folder
  found ← find_message_file dir id
  rename_unless_same found.0 (enter (enter dir (codes "cur")) (flagged read (name_of found.0)))

unfoldable pub move_message :
    FilePath → Text → Text → Text → Text → Exec (Db Disk) WebmailError (Unit {0})
unfolding get_folder_dir find_message_file mkdir_all rename
move_message root email from to id = do
  maildir ← lift (get_maildir_path root email)
  source ← get_folder_dir maildir from
  target ← get_folder_dir maildir to
  found ← find_message_file source id
  ignore (statement (mkdir_all 488 (enter target (codes "cur"))))
  dropped (statement (rename found.0 (enter (enter target (codes "cur")) (name_of found.0))))

-- a message in the trash goes for good
unfoldable pub remove_message :
    FilePath → Text → Text → Text → Exec (Db Disk) WebmailError (Unit {0})
unfolding get_folder_dir find_message_file remove
remove_message root email folder id = do
  maildir ← lift (get_maildir_path root email)
  dir ← get_folder_dir maildir folder
  found ← find_message_file dir id
  dropped (statement (remove found.0))

unfoldable pub delete_message :
    FilePath → Text → Text → Text → Exec (Db Disk) WebmailError (Unit {0})
unfolding remove_message move_message
delete_message root email folder id =
    if equal_fold folder (codes "trash") || equal_fold folder (codes ".trash")
    then remove_message root email folder id
    else move_message root email folder (codes "trash") id
