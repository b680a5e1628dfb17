-- ===== src/Webmail/Messages/Confined.antt =====
-- The methods that change messages stay inside the Maildir.
use mathlib.Core.Path.{subst}
use opemail.Prelude.{
  ◌≡◌, refl, sym, take, ℕ, zero, suc, Bool, true, false, ◌||◌, List, [], ◌∷◌, ◌++◌, inl, inr, arith,
  any, Bool-cases, Option-cases, ◌==◌,
}
use opemail.Text.{Text, codes, is_empty, equal_fold}
use opemail.Text.Parts.{before, index}
use opemail.Exec.{ok, Exec, ◌>>=◌}
use opemail.Exec.Keeps.{Keeps, Keeps-bind, Keeps-ignore}
use opemail.Database.{DbError, Db, statement}
use opemail.Database.Statements.{statement-Keeps}
use opemail.Paths.{FilePath, enter, same}
use opemail.Paths.Inside.{
  name_of, Inside, HasPlainName, below_refl, enter-IsName, Inside-enter_above,
}
use opemail.Disk.{Disk, rename, remove, mkdir_all}
use opemail.Webmail.Folders.{
  WebmailError, lift, maildir_of, bad_part, get_maildir_path, get_folder_dir,
}
use opemail.Webmail.Folders.Isolation.{maildir-IsName}
use opemail.Webmail.Confinement.{
  Reads, Confines, Untouched, Reads-lift, Confines-bind, Confines-Keeps,
}
use opemail.Webmail.Messages.FolderLookup.{the_same, folder-Reads}
use opemail.Webmail.Messages.Lookup.{IsSane, cur-IsName, find-Reads}
use opemail.Webmail.Writes.{remove-Untouched, rename-Untouched, mkdir-Untouched}
use opemail.Webmail.Messages.{
  dropped, find_message_file, rename_unless_same, flagged, move_message, remove_message,
  delete_message, mark_message_read,
}

module _ (D : Disk) (m : FilePath) where
  dropped-Keeps :
      {A : Type 0} (P : Db Disk → Type 0) (x : Exec (Db Disk) DbError A)
      → Keeps P x
      → Keeps P (dropped x)
  dropped-Keeps P x k = record { after = k.after }

  rename-Confined :
      (p q : FilePath)
      → Inside m p
      → Inside m q
      → Keeps (λ s. Untouched D m s.rows) (statement (rename p q))
  rename-Confined p q hp hq =
      statement-Keeps (Untouched D m) (rename p q)
        (λ t u d e k. rename-Untouched D m p q t d u hp.0 hq.0 e k)

  remove-Confined :
      (p : FilePath) → Inside m p → Keeps (λ s. Untouched D m s.rows) (statement (remove p))
  remove-Confined p h =
      statement-Keeps (Untouched D m) (remove p) (λ t u d e k. remove-Untouched D m p t d u h.0 e k)

  mkdir-Confined :
      (i : ℕ) (p : FilePath) → Keeps (λ s. Untouched D m s.rows) (statement (mkdir_all i p))
  mkdir-Confined i p =
      statement-Keeps (Untouched D m) (mkdir_all i p)
        (λ t u d e k. mkdir-Untouched D m i p t d u e k)

  unless-Confined :
      (p q : FilePath)
      → Inside m p
      → Inside m q
      → Keeps (λ s. Untouched D m s.rows) (rename_unless_same p q)
  unfolding rename_unless_same
  unless-Confined p q hp hq = elim (Bool-cases (same p q)) [
    | inl t ↦ rw t (record { after = λ s h. h })
    | inr f ↦ rw f (Keeps-ignore _ (rename-Confined p q hp hq))
  ]

-- a name in the directory `cur` of a folder
cur-Inside :
    (m dir : FilePath) (e : Text)
    → Inside m dir
    → any (λ c. c == b'/') e ≡ false
    → Inside m (enter (enter dir (codes "cur")) e)
cur-Inside m dir e h n =
    rw (enter-IsName dir (codes "cur") cur-IsName)
      (Inside-enter_above m dir (codes "cur") e cur-IsName n h)

take-plain :
    (n : ℕ) (s : Text) → any (λ c. c == b'/') s ≡ false → any (λ c. c == b'/') (take n s) ≡ false
take-plain zero s h = refl
take-plain (suc n) [] h = refl
take-plain (suc n) (c ∷ s) h = ground (arith, take-plain n s)

before-plain :
    (s p : Text) → any (λ c. c == b'/') s ≡ false → any (λ c. c == b'/') (before s p) ≡ false
unfolding before
before-plain s p h = elim (Option-cases (index s p)) [
  | inl e ↦ rw (before, e) h
  | inr (i, e) ↦ rw (before, e) (take-plain i s h)
]

any-append :
    (s t : Text)
    → any (λ c. c == b'/') s ≡ false
    → any (λ c. c == b'/') t ≡ false
    → any (λ c. c == b'/') (s ++ t) ≡ false
any-append [] t h k = k
any-append (c ∷ s) t h k = ground (arith, any-append s t)

flagged-plain :
    (read : Bool) (s : Text)
    → any (λ c. c == b'/') s ≡ false
    → any (λ c. c == b'/') (flagged read s) ≡ false
unfolding flagged
flagged-plain true s h =
    any-append (before s (codes ":2,")) (codes ":2,S") (before-plain s _ h) refl
flagged-plain false s h =
    any-append (before s (codes ":2,")) (codes ":2,") (before-plain s _ h) refl

maildir-plain :
    (root : FilePath) (ps : List Text) (m : FilePath) → maildir_of root ps ≡ ok m → HasPlainName m
maildir-plain root [] m h = ground arith
maildir-plain root (l ∷ []) m h = ground arith
maildir-plain root (l ∷ d ∷ e ∷ ps) m h = ground arith
maildir-plain root (l ∷ d ∷ []) m h = elim (Bool-cases (is_empty l || is_empty d)) [
  | inl a ↦ ground arith
  | inr a ↦ elim (Bool-cases (bad_part l || bad_part d)) [
    | inl b ↦ ground arith
    | inr b ↦
        let is : enter (enter (enter root d) l) (codes "Maildir") ≡ m = ground arith in
        subst HasPlainName is (
          subst HasPlainName
            (sym (enter-IsName (enter (enter root d) l) (codes "Maildir") maildir-IsName)) refl)
  ]
]

maildir-Inside :
    (root : FilePath) (email : Text) (m : FilePath)
    → get_maildir_path root email ≡ ok m
    → Inside m m
unfolding get_maildir_path
maildir-Inside root email m h = (below_refl m, maildir-plain root _ m h)

module _ {D : Disk} (sane : IsSane D) (root : FilePath) (email : Text) (m : FilePath)
    (is_maildir : get_maildir_path root email ≡ ok m) where
  maildir-Reads : Reads D (λ p. p ≡ m) (lift (get_maildir_path root email))
  maildir-Reads = Reads-lift _ _ (λ p h. the_same p m _ h is_maildir)

  in_folder :
      {A : Type 0} (folder id : Text)
      (f : FilePath → FilePath × Text → Exec (Db Disk) WebmailError A)
      → ((dir : FilePath) (found : FilePath × Text)
          → Inside m dir
          → Inside m found.0
          → Confines D m (f dir found))
      → Confines D m
          (do dir ← get_folder_dir m folder; found ← find_message_file dir id; f dir found)
  in_folder folder id f k =
      Confines-bind m _ _ _ (folder-Reads sane m (maildir-Inside root email m is_maildir) folder)
        (λ dir h. Confines-bind m _ _ _ (find-Reads sane m dir id h) (λ found i. k dir found h i))

  mark-Confines :
      (folder id : Text) (read : Bool) → Confines D m (mark_message_read root email folder id read)
  unfolding mark_message_read
  mark-Confines folder id read = Confines-bind m _ _ _ maildir-Reads (λ p e. rw e (
      in_folder folder id _ (λ dir found h k. Confines-Keeps m _ (
        unless-Confined D m found.0 _ k
          (cur-Inside m dir _ h (flagged-plain read (name_of found.0) k.1))))))

  remove-Confines : (folder id : Text) → Confines D m (remove_message root email folder id)
  unfolding remove_message
  remove-Confines folder id = Confines-bind m _ _ _ maildir-Reads (λ p e. rw e (
      in_folder folder id _ (λ dir found h k.
        Confines-Keeps m _ (dropped-Keeps D m _ _ (remove-Confined D m found.0 k)))))

  move-Confines : (from to id : Text) → Confines D m (move_message root email from to id)
  unfolding move_message
  move-Confines from to id =
      let top = maildir-Inside root email m is_maildir in
      Confines-bind m _ _ _ maildir-Reads (λ p e. rw e (
        Confines-bind m _ _ _ (folder-Reads sane m top from) (λ source h.
          Confines-bind m _ _ _ (folder-Reads sane m top to) (λ target i.
            Confines-bind m _ _ _ (find-Reads sane m source id h) (λ found k. Confines-Keeps m _ (
              Keeps-bind _ _ (Keeps-ignore _ (mkdir-Confined D m 488 (enter target (codes "cur"))))
                (λ _.
                  dropped-Keeps D m _ _
                    (rename-Confined D m found.0 _ k (cur-Inside m target _ i k.1)))))))))

  delete-Confines : (folder id : Text) → Confines D m (delete_message root email folder id)
  unfolding delete_message
  delete-Confines folder id =
      elim (Bool-cases (equal_fold folder (codes "trash") || equal_fold folder (codes ".trash"))) [
        | inl t ↦ rw t (remove-Confines folder id)
        | inr f ↦ rw f (move-Confines folder (codes "trash") id)
      ]

  -- Whatever calls fail and whatever the folder and the message id are, marking, moving and deleting a message leave each
  -- file and directory that was outside the Maildir of the address where and as it was.
  pub messages_confined :
      (folder to id : Text) (read : Bool)
      → Confines D m (mark_message_read root email folder id read)
        × Confines D m (move_message root email folder to id)
        × Confines D m (delete_message root email folder id)
  messages_confined folder to id read =
      (mark-Confines folder id read, move-Confines folder to id, delete-Confines folder id)
