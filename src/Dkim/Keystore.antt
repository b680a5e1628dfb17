-- ===== src/Dkim/Keystore.antt =====
-- internal/dkim/keystore.go. `base` is the keystore's directory, and `drawn` the name that os.CreateTemp draws for
-- the temporary file.
use opemail.Prelude.{ℕ, Bool, false, not, some, ◌∷◌, ◌++◌}
use opemail.Text.{Text, codes, folded, is_empty}
use opemail.Exec.{Result, ok, err, Exec, pure, when, ignore, ◌>>◌}
use opemail.Database.{DbError, unavailable, duplicate, no_rows, Db}
use opemail.Paths.{FilePath, parent, enter}
use opemail.Disk.{
  Node, is_file, mkdir_all, create_new, overwrite, chmod, rename_file, remove, read_file, stat,
}
use opemail.Dkim.Model.{
  DkimError, failed, invalid_selector, private_key_not_found, World, on_disk, recoded,
}
use opemail.Dkim.Selector.{is_valid_selector}

unfoldable pub get_private_key_path : FilePath → Text → Text → FilePath
get_private_key_path base domain selector =
    enter (enter (enter base (folded domain)) (folded selector)) (codes "private.key")

abbrev pub is_there : Result DbError Node → Bool
is_there (ok n) = is_file (some n)
is_there (err e) = false

unfoldable pub has_private_key : FilePath → Text → Text → Exec (Db World) DkimError Bool
unfolding stat get_private_key_path
has_private_key base domain selector s =
    let r = on_disk (stat (get_private_key_path base domain selector)) s in (ok (is_there r.0), r.1)

unfoldable pub get_private_key : FilePath → Text → Text → Exec (Db World) DkimError Text
unfolding is_valid_selector get_private_key_path read_file
get_private_key base domain selector = do
  when (not (is_valid_selector selector)) invalid_selector
  recoded (λ e. private_key_not_found)
      (on_disk (read_file (get_private_key_path base domain selector)))

-- any error of a system call
abbrev pub failing : {A : Type 0} → Exec (Db World) DbError A → Exec (Db World) DkimError A
failing m = recoded (λ e. failed) m

-- `defer last()`
abbrev pub deferring :
    {A B : Type 0}
    → Exec (Db World) DbError B
    → Exec (Db World) DkimError A
    → Exec (Db World) DkimError A
deferring last m s = ((m s).0, (last (m s).1).1)

-- the temporary file from its creation on: written, flushed, closed, and renamed to the key's path
unfoldable pub replace_key : ℕ → FilePath → FilePath → Text → Exec (Db World) DkimError FilePath
unfolding overwrite chmod rename_file
replace_key now tmp target pem = do
  failing (on_disk (overwrite tmp pem now))
  failing (on_disk (λ d. ok (tt, d)))
  failing (on_disk (chmod tmp 384))
  failing (on_disk (λ d. ok (tt, d)))
  failing (on_disk (rename_file tmp target))
  pure target

unfoldable pub store_private_key :
    ℕ → Text → FilePath → Text → Text → Text → Exec (Db World) DkimError FilePath
unfolding is_valid_selector is_empty get_private_key_path mkdir_all create_new remove replace_key
store_private_key now drawn base domain selector pem = do
  when (not (is_valid_selector selector)) invalid_selector
  when (is_empty pem) failed
  let target = get_private_key_path base domain selector
  let tmp = (codes "private.key.tmp-" ++ drawn) ∷ parent target
  failing (on_disk (mkdir_all 488 (parent target)))
  failing (on_disk (create_new 384 now tmp))
  deferring (on_disk (remove tmp)) (replace_key now tmp target pem)

-- a file that is missing is no error of os.Remove here
abbrev pub removal : Result DbError (Unit {0}) → Result DkimError (Unit {0})
removal (ok u) = ok tt
removal (err no_rows) = ok tt
removal (err unavailable) = err failed
removal (err duplicate) = err failed

abbrev pub tolerant : Exec (Db World) DbError (Unit {0}) → Exec (Db World) DkimError (Unit {0})
tolerant m s = (removal (m s).0, (m s).1)

unfoldable pub delete_private_key : FilePath → Text → Text → Exec (Db World) DkimError (Unit {0})
unfolding is_valid_selector get_private_key_path remove
delete_private_key base domain selector = do
  when (not (is_valid_selector selector)) invalid_selector
  let target = get_private_key_path base domain selector
  tolerant (on_disk (remove target))
  ignore (on_disk (remove (parent target)))
