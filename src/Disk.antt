-- ===== src/Disk.antt =====
-- The file system as Go's `os` shows it: a map from clean paths to files and directories. A system call fails as a
-- statement of a database does, with no effect, or it runs on the map: `no_rows` is ErrNotExist, `duplicate`
-- ErrExist, and `unavailable` any other error. Links and owners are left out.
pub mod Laws
use opemail.Prelude.{
  ℕ, Bool, true, false, not, ◌&&◌, ◌||◌, Option, none, some, List, [], ◌∷◌, ◌++◌, map, any, keep,
  ltb, ◌==◌, if◌then◌else◌,
}
use opemail.Text.{Text, codes, eqb, has_prefix}
use opemail.Exec.{Result, ok, err}
use opemail.Database.{DbError, unavailable, duplicate, no_rows}
use opemail.Paths.{FilePath, parent, same, below}

-- the mode, and for a file its bytes and the time of its last change
pub data Node : Type 0 where
  directory : ℕ → Node
  file : Text → ℕ → ℕ → Node

pub record Entry : Type 0 where
  pub path : FilePath
  pub node : Node

abbrev pub Disk : Type 0
Disk = List Entry

-- os.Stat
unfoldable pub node_at : FilePath → Disk → Option Node
unfolding same
node_at p [] = none
node_at p (e ∷ d) = if same e.path p then some e.node else node_at p d

unfoldable pub erase : FilePath → Disk → Disk
unfolding same
erase p d = keep (λ e. not (same e.path p)) d

unfoldable pub put : FilePath → Node → Disk → Disk
unfolding erase
put p n d = record { path = p; node = n } ∷ erase p d

abbrev pub is_directory : Option Node → Bool
is_directory none = false
is_directory (some (directory m)) = true
is_directory (some (file c m t)) = false

abbrev pub is_file : Option Node → Bool
is_file none = false
is_file (some (directory m)) = false
is_file (some (file c m t)) = true

-- the root is always there
abbrev pub holds : FilePath → Disk → Bool
holds [] d = true
holds (e ∷ p) d = is_directory (node_at (e ∷ p) d)

-- the outcome of a call that returns a value and changes the map
abbrev pub Outcome : Type 0 → Type 0
Outcome A = Result DbError (A × Disk)

abbrev pub content_of : Disk → Option Node → Outcome Text
content_of d none = err no_rows
content_of d (some (directory m)) = err unavailable
content_of d (some (file c m t)) = ok (c, d)

unfoldable pub read_file : FilePath → Disk → Outcome Text
unfolding node_at
read_file p d = content_of d (node_at p d)

abbrev pub stat_of : Disk → Option Node → Outcome Node
stat_of d none = err no_rows
stat_of d (some n) = ok (n, d)

unfoldable pub stat : FilePath → Disk → Outcome Node
unfolding node_at
stat p d = stat_of d (node_at p d)

-- os.MkdirAll: what is missing is made, and a file on the way is an error
unfoldable pub mkdir_all : ℕ → FilePath → Disk → Outcome (Unit {0})
unfolding node_at put
mkdir_all m [] d = ok (tt, d)
mkdir_all m (e ∷ p) d = elim (mkdir_all m p d) [
  | err x ↦ err x
  | ok (u, d') ↦
      if is_directory (node_at (e ∷ p) d')
      then ok (tt, d')
      else if is_file (node_at (e ∷ p) d')
      then err unavailable
      else ok (tt, put (e ∷ p) (directory m) d')
]

-- os.CreateTemp, or a file opened with O_EXCL: an empty file that was not there
unfoldable pub create_new : ℕ → ℕ → FilePath → Disk → Outcome (Unit {0})
unfolding node_at put
create_new m now p d =
    if is_directory (node_at p d) || is_file (node_at p d)
    then err duplicate
    else if holds (parent p) d
    then ok (tt, put p (file [] m now) d)
    else err no_rows

unfoldable pub written : FilePath → Text → ℕ → Disk → Option Node → Outcome (Unit {0})
unfolding put
written p c now d none = err no_rows
written p c now d (some (directory m)) = err unavailable
written p c now d (some (file b m t)) = ok (tt, put p (file c m now) d)

-- all bytes of a file that is there
unfoldable pub overwrite : FilePath → Text → ℕ → Disk → Outcome (Unit {0})
unfolding node_at written
overwrite p c now d = written p c now d (node_at p d)

-- os.WriteFile
unfoldable pub write_file : FilePath → Text → ℕ → ℕ → Disk → Outcome (Unit {0})
unfolding node_at put written
write_file p c m now d =
    if is_directory (node_at p d)
    then err unavailable
    else if is_file (node_at p d)
    then written p c now d (node_at p d)
    else if holds (parent p) d
    then ok (tt, put p (file c m now) d)
    else err no_rows

abbrev pub with_mode : ℕ → Node → Node
with_mode m (directory k) = directory m
with_mode m (file c k t) = file c m t

unfoldable pub chmod_of : FilePath → ℕ → Disk → Option Node → Outcome (Unit {0})
unfolding put
chmod_of p m d none = err no_rows
chmod_of p m d (some n) = ok (tt, put p (with_mode m n) d)

unfoldable pub chmod : FilePath → ℕ → Disk → Outcome (Unit {0})
unfolding node_at chmod_of
chmod p m d = chmod_of p m d (node_at p d)

-- there is an entry directly in the directory
unfoldable pub has_children : FilePath → Disk → Bool
unfolding same
has_children p d = any (λ e. is_child e.path) d
  where
    is_child : FilePath → Bool
    is_child [] = false
    is_child (f ∷ q) = same q p

unfoldable pub removed : FilePath → Disk → Option Node → Outcome (Unit {0})
unfolding erase has_children
removed p d none = err no_rows
removed p d (some (file c m t)) = ok (tt, erase p d)
removed p d (some (directory m)) = if has_children p d then err unavailable else ok (tt, erase p d)

-- os.Remove
unfoldable pub remove : FilePath → Disk → Outcome (Unit {0})
unfolding node_at removed
remove p d = removed p d (node_at p d)

unfoldable pub renamed : FilePath → FilePath → Disk → Option Node → Outcome (Unit {0})
unfolding erase put
renamed p q d none = err no_rows
renamed p q d (some n) = ok (tt, put q n (erase p d))

-- os.Rename of a file: onto a directory it fails, and a file that is there is replaced
unfoldable pub rename_file : FilePath → FilePath → Disk → Outcome (Unit {0})
unfolding node_at renamed
rename_file p q d =
    if is_directory (node_at q d)
    then err duplicate
    else if holds (parent q) d
    then renamed p q d (node_at p d)
    else err no_rows

-- the elements of `q` below `p`, where it lies there
unfoldable pub below_part : FilePath → FilePath → Option FilePath
unfolding same
below_part p [] = if same p [] then some [] else none
below_part p (f ∷ q) =
    let rest = below_part p q in
    if same p (f ∷ q) then some [] else elim rest [ none ↦ none | some r ↦ some (f ∷ r) ]

abbrev pub moved_path : FilePath → FilePath → FilePath → FilePath
moved_path p q r = elim (below_part p r) [ none ↦ r | some t ↦ t ++ q ]

-- a directory that moves takes along what is in it
unfoldable pub move_tree : FilePath → FilePath → Disk → Disk
unfolding below_part
move_tree p q d = map {A = Entry} {B = Entry} (λ e. record e { path = moved_path p q e.path }) d

unfoldable pub renamed_any : FilePath → FilePath → Disk → Option Node → Outcome (Unit {0})
unfolding erase put move_tree node_at
renamed_any p q d none = err no_rows
renamed_any p q d (some (file c m t)) = ok (tt, put q (file c m t) (erase p d))
renamed_any p q d (some (directory m)) =
    if is_file (node_at q d) || below p q then err unavailable else ok (tt, move_tree p q d)

-- os.Rename: onto a directory it fails, a file is replaced by a file only, and no directory moves into itself
unfoldable pub rename : FilePath → FilePath → Disk → Outcome (Unit {0})
unfolding node_at renamed_any
rename p q d =
    if is_directory (node_at q d)
    then err duplicate
    else if holds (parent q) d
    then renamed_any p q d (node_at p d)
    else err no_rows

-- `s` is before `t` in the order of bytes
unfoldable pub text_before : Text → Text → Bool
text_before [] [] = false
text_before [] (d ∷ t) = true
text_before (c ∷ s) [] = false
text_before (c ∷ s) (d ∷ t) = if c == d then text_before s t else ltb c d

abbrev pub Listed : Type 0
Listed = List (Text × Node)

unfoldable pub insert_name : Text × Node → Listed → Listed
unfolding text_before
insert_name e [] = e ∷ []
insert_name e (f ∷ fs) =
    let rest = insert_name e fs in if text_before f.0 e.0 then f ∷ rest else e ∷ f ∷ fs

-- the name of an entry directly in the directory
unfoldable pub child_of : FilePath → FilePath → Option Text
unfolding same
child_of p [] = none
child_of p (f ∷ q) = if same q p then some f else none

unfoldable pub children : FilePath → Disk → Listed
unfolding child_of insert_name
children p [] = []
children p (e ∷ d) =
    let rest = children p d in
    elim (child_of p e.path) [ none ↦ rest | some f ↦ insert_name (f, e.node) rest ]

-- os.ReadDir, in the order of the names
unfoldable pub read_dir : FilePath → Disk → Outcome Listed
unfolding children
read_dir p d = if holds p d then ok (children p d, d) else err no_rows

-- os.RemoveAll: all that lies at the path or below it, which may be nothing
unfoldable pub remove_all : FilePath → Disk → Outcome (Unit {0})
unfolding below
remove_all p d = ok (tt, keep (λ e. not (below p e.path)) d)
