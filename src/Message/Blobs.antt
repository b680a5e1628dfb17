-- ===== src/Message/Blobs.antt =====
-- internal/storage/filesystem.go: blobs are files named by the hash of their bytes. The file system fails
-- the way the database does: an operation does all or nothing. The shard directory of an id is a function
-- of the id, so the files are kept by id. SHA-256 in hex is a parameter.
pub mod Refinement
use opemail.Prelude.{
  ℕ, Bool, true, false, not, ◌&&◌, ◌||◌, Option, none, some, List, [], ◌∷◌, map, any, all, keep,
  length, leb, if◌then◌else◌,
}
use opemail.Text.{Text, eqb, is_empty}
use opemail.Exec.{Result, ok, err, Exec, pure, when, recode_by, ◌>>◌}
use opemail.Database.{DbError, unavailable, duplicate, no_rows, Db, statement}

pub data StorageError : Type 0 where
  empty_payload blob_not_found invalid_id io_failed : StorageError

pub record File : Type 0 where
  pub id : Text
  pub content : Text

abbrev pub Disk : Type 0
Disk = Db (List File)

pub record Blob : Type 0 where
  pub id : Text
  pub size_bytes : ℕ

unfoldable pub find_file : Text → List File → Option Text
find_file i [] = none
find_file i (f ∷ fs) = if eqb f.id i then some f.content else find_file i fs

unfoldable pub remove_file : Text → List File → List File
unfolding eqb
remove_file i fs = keep (λ f. not (eqb f.id i)) fs

-- a rename onto a file that exists replaces it
unfoldable pub write_file : Text → Text → List File → List File
unfolding remove_file
write_file i c fs = record { id = i; content = c } ∷ remove_file i fs

-- a digit of `[a-f0-9]`
unfoldable pub is_hex : ℕ → Bool
is_hex c = (leb 48 c && leb c 57) || (leb 97 c && leb c 102)

-- `^[a-f0-9]{32,64}$`
unfoldable pub is_id : Text → Bool
unfolding is_hex
is_id i = leb 32 (length i) && leb (length i) 64 && all is_hex i

abbrev pub of_io : DbError → StorageError
of_io unavailable = io_failed
of_io duplicate = io_failed
of_io no_rows = blob_not_found

abbrev pub on_disk :
    {A : Type 0} → (List File → Result DbError (A × List File)) → Exec Disk StorageError A
on_disk run s = (recode_by of_io (statement run s).0, (statement run s).1)

-- a rename that fails is no error where the blob is there already
abbrev pub moved : Bool → Result StorageError (Unit {0}) → Result StorageError (Unit {0})
moved there (ok u) = ok u
moved true (err e) = ok tt
moved false (err e) = err e

unfoldable pub move : Text → Text → Exec Disk StorageError (Unit {0})
unfolding write_file eqb
move i raw s =
    let after = on_disk (λ fs. ok (tt, write_file i raw fs)) s in
    (moved (any (λ f. eqb f.id i) s.rows) after.0, after.1)

-- the temporary file is written, the directory is made, and the file is moved to the id's place
unfoldable pub put : (Text → Text) → Text → Exec Disk StorageError Blob
unfolding is_empty move
put sha256 raw = do
  on_disk (λ fs. ok (tt, fs))
  when (is_empty raw) empty_payload
  on_disk (λ fs. ok (tt, fs))
  move (sha256 raw) raw
  pure (record { id = sha256 raw; size_bytes = length raw })

abbrev pub opened : List File → Option Text → Result DbError (Text × List File)
opened fs none = err no_rows
opened fs (some c) = ok (c, fs)

unfoldable pub get : Text → Exec Disk StorageError Text
unfolding is_id find_file
get i = do when (not (is_id i)) invalid_id; on_disk (λ fs. opened fs (find_file i fs))

unfoldable pub delete : Text → Exec Disk StorageError (Unit {0})
unfolding is_id remove_file eqb
delete i = do
  when (not (is_id i)) invalid_id
  on_disk (λ fs. if any (λ f. eqb f.id i) fs then ok (tt, remove_file i fs) else err no_rows)

unfoldable pub exists : Text → Exec Disk StorageError Bool
unfolding is_id eqb
exists i = do when (not (is_id i)) invalid_id; on_disk (λ fs. ok (any (λ f. eqb f.id i) fs, fs))

unfoldable pub list_ids : Exec Disk StorageError (List Text)
unfolding is_id
list_ids = on_disk (λ fs. ok (keep is_id (map (λ f. f.id) fs), fs))
