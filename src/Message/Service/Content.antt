-- ===== src/Message/Service/Content.antt =====
-- When the bytes of a message can be read back.
use opemail.Prelude.{
  ℕ, ◌+◌, ◌≡◌, refl, sym, Bool, true, false, none, some, List, [], ◌∷◌, any, arith, Bool-cases,
  Option-cases, inl, inr,
}
use opemail.Text.{Text, eqb, is_empty}
use opemail.Text.Laws.{eqb_refl}
use opemail.Exec.{Result, ok, err, is_ok, recode_by, Result-cases, ◌>>=◌}
use opemail.Exec.Outcomes.{bind_ok}
use opemail.Message.Blobs.{
  Disk, File, find_file, remove_file, write_file, is_id, move, put, get, delete,
}
use opemail.Message.Service.{
  Message, World, find_message, get_by_id, get_content, delete_message, delete_by_id,
}

find_file-removed : (i : Text) (fs : List File) → find_file i (remove_file i fs) ≡ none
unfolding find_file remove_file
find_file-removed i [] = refl
find_file-removed i (f ∷ fs) = let rest = find_file-removed i fs in ground arith

find_file-absent :
    (i : Text) (fs : List File) → any (λ f. eqb f.id i) fs ≡ false → find_file i fs ≡ none
unfolding find_file
find_file-absent i [] h = refl
find_file-absent i (f ∷ fs) h = let rest = find_file-absent i fs (ground arith) in ground arith

put-disk :
    (sha256 : Text → Text) (raw : Text) (s : Disk)
    → is_empty raw ≡ false
    → s.down s.statements ≡ false
    → s.down (s.statements + 1) ≡ false
    → s.down (s.statements + 1 + 1) ≡ false
    → (put sha256 raw s).1 ≡ record s {
      rows = write_file (sha256 raw) raw s.rows;
      statements = s.statements + 1 + 1 + 1;
    }
unfolding put move ◌>>=◌
put-disk sha256 raw s filled u0 u1 u2 = rw u0 (rw filled (rw u1 (rw u2 refl)))

-- Bytes that are not empty, and that `put` stored under a valid id, `get` reads back, as long as the file system
-- does not fail.
get-put :
    (sha256 : Text → Text) (raw : Text) (s : Disk)
    → is_id (sha256 raw) ≡ true
    → is_empty raw ≡ false
    → ((n : ℕ) → s.down n ≡ false)
    → (get (sha256 raw) (put sha256 raw s).1).0 ≡ ok raw
unfolding get put move write_file find_file ◌>>=◌
get-put sha256 raw s valid filled up =
    rw
      (
        put-disk sha256 raw s filled (up s.statements) (up (s.statements + 1))
            (up (s.statements + 1 + 1)),
        valid,
        up (s.statements + 1 + 1 + 1),
        eqb_refl (sha256 raw),
      )
      refl

get-gone : (i : Text) (s : Disk) → find_file i s.rows ≡ none → is_ok (get i s).0 ≡ false
unfolding get ◌>>=◌
get-gone i s h = elim (Bool-cases (is_id i)) [
  | inl t ↦ elim (Bool-cases (s.down s.statements)) [
    | inl d ↦ rw (t, d) refl
    | inr d ↦ rw (t, d, h) refl
  ]
  | inr t ↦ rw t refl
]

invalid-get : (i : Text) (s : Disk) → is_id i ≡ false → is_ok (get i s).0 ≡ false
unfolding get ◌>>=◌
invalid-get i s t = rw t refl

get-delete :
    (i : Text) (s : Disk) → s.down s.statements ≡ false → is_ok (get i (delete i s).1).0 ≡ false
unfolding delete ◌>>=◌
get-delete i s up = elim (Bool-cases (is_id i)) [
  | inl t ↦ elim (Bool-cases (any (λ f. eqb f.id i) s.rows)) [
    | inl there ↦ get-gone i (delete i s).1 (rw (t, up, there) (find_file-removed i s.rows))
    | inr away ↦ get-gone i (delete i s).1 (rw (t, up, away) (find_file-absent i s.rows away))
  ]
  | inr t ↦ invalid-get i (delete i s).1 t
]

get_by_id-ok :
    (n : ℕ) (w : World) (m : Message)
    → (get_by_id n w).0 ≡ ok m
    → (find_message n w.db.rows.messages ≡ some m) × ((get_by_id n w).1.disk ≡ w.disk)
unfolding get_by_id
get_by_id-ok n w m h = elim (Bool-cases (w.db.down w.db.statements)) [
  | inl d ↦ ground arith
  | inr d ↦ elim (Option-cases (find_message n w.db.rows.messages)) [
    | inl e ↦ ground arith
    | inr (x, e) ↦ (ground arith, refl)
  ]
]

delete_by_id-disk :
    (n : ℕ) (w : World) (m : Message)
    → find_message n w.db.rows.messages ≡ some m
    → (delete_by_id n w).0 ≡ ok tt
    → (delete_by_id n w).1.disk ≡ (delete m.blob_id w.disk).1
unfolding delete_by_id get_by_id delete_message ◌>>=◌
delete_by_id-disk n w m here done = ground arith

recode_by-clash :
    {E F A : Type 0} (f : E → F) (q : Result E A) (c : A)
    → recode_by f q ≡ ok c
    → is_ok q ≡ false
    → (b : Bool) → b ≡ false
recode_by-clash f (ok a) c h e b = ground arith
recode_by-clash f (err x) c h e b = ground arith

-- Deleting a message by id takes the bytes of its blob away from every message: a message that is left and has the
-- same blob can no longer be read, as long as the file operation does not fail.
pub shared_blob_lost :
    (n k : ℕ) (w : World) (m other : Message)
    → find_message n w.db.rows.messages ≡ some m
    → (delete_by_id n w).0 ≡ ok tt
    → w.disk.down w.disk.statements ≡ false
    → find_message k (delete_by_id n w).1.db.rows.messages ≡ some other
    → other.blob_id ≡ m.blob_id
    → is_ok (get_content k (delete_by_id n w).1).0 ≡ false
unfolding get_content
shared_blob_lost n k w m other here done up left same =
    elim (Result-cases (get_content k (delete_by_id n w).1).0) [
      | inl (x, e) ↦
          let (y, got, read) = bind_ok _ _ (delete_by_id n w).1 x e in
          let (there, disk) = get_by_id-ok k (delete_by_id n w).1 y got in
          let (c, opened_now, _) = bind_ok _ _ _ x read in
          let y_is_other : other ≡ y = ground arith in
          let same_blob : y.blob_id ≡ m.blob_id = rw (sym y_is_other) same in
          let gone : is_ok (get y.blob_id (get_by_id k (delete_by_id n w).1).1.disk).0 ≡ false =
            rw (disk, delete_by_id-disk n w m here done, same_blob)
              (get-delete m.blob_id w.disk up) in
          recode_by-clash _ _ c opened_now gone _
      | inr (x, e) ↦ rw e refl
    ]
