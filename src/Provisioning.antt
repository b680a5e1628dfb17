-- ===== src/Provisioning.antt =====
-- internal/provisioning/filesystem.go. `root` is the absolute directory of all mail, `owned` says that a user or a group is
-- configured, and `owner` stands for what Stat tells of the owner of a path.
pub mod Agreement
pub mod Removal
pub mod Ready
mod Examples
pub mod Made
use opemail.Prelude.{
  ℕ, ◌+◌, Bool, true, false, not, ◌&&◌, ◌||◌, Option, none, some, List, [], ◌∷◌, length, all, ltb,
  leb, ◌==◌, if◌then◌else◌,
}
use opemail.Text.{Text, codes, is_empty, canonical, split, join, contains, has_prefix}
use opemail.Text.Parts.{contains_any}
use opemail.Exec.{Result, ok, err, Exec, pure, ignore, fail_with, ◌>>=◌, ◌>>◌}
use opemail.Database.{DbError, Db, statement}
use opemail.Paths.{FilePath, parent, enter, forwards}
use opemail.Disk.{
  Node, directory, file, is_directory, Disk, below_part, mkdir_all, chmod, remove_all, stat,
}

pub data ProvisionError : Type 0 where
  invalid_mailbox path_traversal failed : ProvisionError

abbrev pub is_alphanumeric : ℕ → Bool
is_alphanumeric c = (leb b'a' c && leb c b'z') || (leb b'0' c && leb c b'9')

abbrev pub is_local_char : ℕ → Bool
is_local_char c = is_alphanumeric c || (c == b'_') || (c == b'.') || (c == b'+') || (c == b'-')

abbrev pub is_label_char : ℕ → Bool
is_label_char c = is_alphanumeric c || (c == b'-')

unfoldable pub last_char : ℕ → Text → ℕ
last_char c [] = c
last_char c (d ∷ s) = last_char d s

-- `^[a-z0-9](X*[a-z0-9])?$`, where X is a class that has the letters and digits too
unfoldable pub is_enclosed : (ℕ → Bool) → Text → Bool
unfolding last_char
is_enclosed p [] = false
is_enclosed p (c ∷ s) = is_alphanumeric c && all p s && is_alphanumeric (last_char c s)

-- localpartRegex
unfoldable pub is_localpart : Text → Bool
unfolding is_enclosed
is_localpart s = is_enclosed is_local_char s

abbrev pub is_label : Text → Bool
unfolding is_enclosed
is_label s = is_enclosed is_label_char s && leb (length s) 63

-- domainRegex
unfoldable pub is_domain : Text → Bool
unfolding is_label split
is_domain d = ltb 1 (length (split d b'.')) && all is_label (split d b'.')

-- `filepath.Rel(root, target)` fails or starts with two dots
abbrev pub escapes : Option FilePath → Bool
escapes none = true
escapes (some t) = has_prefix (join (forwards t) (codes "/")) (codes "..")

abbrev pub maildir_in : FilePath → Text → Text → FilePath
maildir_in root localpart domain = enter (enter (enter root domain) localpart) (codes "Maildir")

abbrev pub path_of : FilePath → List Text → Result ProvisionError FilePath
path_of root (localpart ∷ domain ∷ []) =
    if is_empty localpart || is_empty domain
    then err invalid_mailbox
    else if contains localpart (codes "..")
        || contains domain (codes "..")
        || contains_any localpart (codes "/\\")
        || contains_any domain (codes "/\\")
    then err path_traversal
    else if not (is_localpart localpart) || not (is_domain domain)
    then err invalid_mailbox
    else if escapes (below_part root (maildir_in root localpart domain))
    then err path_traversal
    else ok (maildir_in root localpart domain)
path_of root _ = err invalid_mailbox

unfoldable pub calculate_path : FilePath → Text → Result ProvisionError FilePath
calculate_path root email = path_of root (split (canonical email) b'@')

-- a system call whose error is returned
abbrev pub failing :
    {A : Type 0} → (Disk → Result DbError (A × Disk)) → Exec (Db Disk) ProvisionError A
failing run = fail_with failed (statement run)

abbrev pub lift : {A : Type 0} → Result ProvisionError A → Exec (Db Disk) ProvisionError A
lift r s = (r, s)

-- one turn of the loop; Chown changes no mode and no content
unfoldable pub make_directory : Bool → FilePath → Exec (Db Disk) ProvisionError (Unit {0})
unfolding mkdir_all chmod
make_directory owned p = do
  failing (mkdir_all 488 p)
  failing (chmod p 488)
  if owned then ignore (statement {A = Unit {0}} (λ d. ok (tt, d))) else pure tt

unfoldable pub make_directories : Bool → List FilePath → Exec (Db Disk) ProvisionError (Unit {0})
unfolding make_directory
make_directories owned [] = pure tt
make_directories owned (p ∷ ps) = do make_directory owned p; make_directories owned ps

abbrev pub directories_of : FilePath → List FilePath
directories_of m = m ∷ enter m (codes "cur") ∷ enter m (codes "new") ∷ enter m (codes "tmp") ∷ []

unfoldable pub provision : FilePath → Bool → Text → Exec (Db Disk) ProvisionError (Unit {0})
unfolding calculate_path make_directories enter
provision root owned email = do
  m ← lift (calculate_path root email)
  make_directories owned (directories_of m)

unfoldable pub deprovision : FilePath → Text → Exec (Db Disk) ProvisionError (Unit {0})
unfolding calculate_path remove_all
deprovision root email = do m ← lift (calculate_path root email); failing (remove_all (parent m))

-- the checks of the report that passed
pub record DoctorReport : Type 0 where
  pub maildir_exists : Bool
  pub cur_exists : Bool
  pub new_exists : Bool
  pub tmp_exists : Bool
  pub ownership : Bool
  pub permission : Bool
  pub healthy : Bool

-- `info, err := os.Stat(p); err == nil && info.IsDir()`
abbrev pub seen : Result DbError Node → Option Node
seen (ok n) = some n
seen (err e) = none

unfoldable pub look : FilePath → Exec (Db Disk) ProvisionError (Option Node)
unfolding stat
look p s = (ok (seen (statement (stat p) s).0), (statement (stat p) s).1)

-- checkPermissions
abbrev pub has_mode : Option Node → Bool
has_mode none = false
has_mode (some (directory m)) = m == 488
has_mode (some (file c m t)) = false

unfoldable pub inspect :
    FilePath → (FilePath → Bool) → Text → Exec (Db Disk) ProvisionError DoctorReport
unfolding calculate_path look enter
inspect root owner email = do
  m ← lift (calculate_path root email)
  maildir ← look m
  cur ← look (enter m (codes "cur"))
  new ← look (enter m (codes "new"))
  tmp ← look (enter m (codes "tmp"))
  pure (record {
    maildir_exists = is_directory maildir;
    cur_exists = is_directory cur;
    new_exists = is_directory new;
    tmp_exists = is_directory tmp;
    ownership = is_directory maildir && owner m;
    permission = has_mode maildir;
    healthy =
        is_directory maildir
        && is_directory cur
        && is_directory new
        && is_directory tmp
        && has_mode maildir
        && owner m;
  })
