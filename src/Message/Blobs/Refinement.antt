-- ===== src/Message/Blobs/Refinement.antt =====
-- The directory of the blobs as a store of texts: what a run of `Put`, `Get` and `Delete` does to it, while any statement
-- may fail.
pub mod Runs
pub mod Files
use opemail.Prelude.{
  ℕ, ◌+◌, ◌≡◌, refl, sym, ap, ◌∙◌, ◌⊎◌, inl, inr, Bool, true, false, Option, none, some, List, [],
  ◌∷◌, any, arith, Bool-cases, Option-cases, if◌then◌else◌,
}
use opemail.Text.{Text, eqb, is_empty}
use opemail.Text.Laws.{eqb_refl, eqb_sound}
use opemail.Exec.{Result, ok, err, ◌>>=◌, when, pure}
use opemail.Message.Blobs.{
  Disk, File, Blob, StorageError, empty_payload, blob_not_found, invalid_id, io_failed, find_file,
  remove_file, write_file, is_id, move, put, get, delete,
}

abbrev pub Store : Type 0
Store = Text → Option Text

pub data Op : Type 0 where
  store fetch drop : Text → Op

pub data Reply : Type 0 where
  stored content : Text → Reply
  removed refused missing broken : Reply

abbrev pub view : List File → Store
view fs i = find_file i fs

-- the store with one text put or taken away
abbrev pub with_text : Text → Option Text → Store → Store
with_text i c m j = if eqb i j then c else m j

abbrev pub found : Option Text → Reply
found none = missing
found (some c) = content c

abbrev pub dropped : Text → Store → Option Text → Reply × Store
dropped i m none = (missing, m)
dropped i m (some c) = (removed, with_text i none m)

abbrev pub reply_of_error : StorageError → Reply
reply_of_error empty_payload = refused
reply_of_error invalid_id = refused
reply_of_error blob_not_found = missing
reply_of_error io_failed = broken

abbrev pub reply_of : {A : Type 0} → (A → Reply) → Result StorageError A → Reply
reply_of f (ok a) = f a
reply_of f (err e) = reply_of_error e

module _ (sha256 : Text → Text) where
  -- what an operation does to the store when nothing fails
  unfoldable pub serve : Op → Store → Reply × Store
  unfolding is_empty is_id
  serve (store raw) m =
      if is_empty raw
      then (refused, m)
      else (stored (sha256 raw), with_text (sha256 raw) (some raw) m)
  serve (fetch i) m = if is_id i then (found (m i), m) else (refused, m)
  serve (drop i) m = if is_id i then dropped i m (m i) else (refused, m)

  -- what it does to the directory
  unfoldable pub perform : Op → Disk → Reply × Disk
  unfolding put get delete
  perform (store raw) s = (reply_of (λ b. stored b.id) (put sha256 raw s).0, (put sha256 raw s).1)
  perform (fetch i) s = (reply_of content (get i s).0, (get i s).1)
  perform (drop i) s = (reply_of (λ u. removed) (delete i s).0, (delete i s).1)

  unfoldable pub perform_all : List Op → Disk → List (Op × Reply) × Disk
  unfolding perform
  perform_all [] s = ([], s)
  perform_all (op ∷ ops) s =
      let rest = perform_all ops (perform op s).1 in ((op, (perform op s).0) ∷ rest.0, rest.1)

  abbrev pub Agrees : Store → Store → Type 0
  Agrees m n = (i : Text) → m i ≡ n i

  -- one step of the store. Where the statement `k` fails, an operation may fail and change nothing, and a text whose id
  -- is there may keep the bytes that are there.
  pub data Step (down : ℕ → Bool) : Store → Op → Reply → Store → Type 0 where
    served : {m n : Store} (op : Op) → Agrees (serve op m).1 n → Step down m op (serve op m).0 n
    failed : {m n : Store} (op : Op) (k : ℕ) → down k ≡ true → Agrees m n → Step down m op broken n
    kept :
        {m n : Store} (raw c : Text) (k : ℕ)
        → down k ≡ true
        → m (sha256 raw) ≡ some c
        → Agrees m n
        → Step down m (store raw) (stored (sha256 raw)) n

  pub data Steps (down : ℕ → Bool) : Store → List (Op × Reply) → Store → Type 0 where
    stop : {m : Store} → Steps down m [] m
    step :
        {m n o : Store} {op : Op} {r : Reply} {rest : List (Op × Reply)}
        → Step down m op r n
        → Steps down n rest o
        → Steps down m ((op, r) ∷ rest) o
