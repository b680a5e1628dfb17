-- ===== src/Webmail/Messages/Lookup.antt =====
-- What a folder's look-up finds lies in the Maildir.
use mathlib.Core.Path.{subst}
use opemail.Prelude.{
  ◌≡◌, refl, Bool, true, false, ◌||◌, ◌&&◌, Option, none, some, List, [], ◌∷◌, All, inl, inr, arith,
  Bool-cases, Option-cases, if◌then◌else◌,
}
use opemail.Text.{Text, codes, eqb, is_empty, has_prefix, equal_fold}
use opemail.Exec.{ok, err, Exec, ◌>>=◌}
use opemail.Database.{no_rows, Db, statement}
use opemail.Paths.{FilePath, enter, base, same}
use opemail.Paths.Inside.{
  IsName, enter-IsName, IsElement, Inside, Inside-enter, Inside-cons, Inside-base,
}
use opemail.Disk.{
  Node, Disk, Listed, Outcome, Entry, node_at, put, erase, stat, stat_of, read_dir, children,
  child_of, insert_name, rename, remove, removed, mkdir_all, holds, has_children, directory, file,
}
use opemail.Webmail.Folders.{WebmailError, attempted, lift, find_fold}
use opemail.Webmail.Confinement.{Reads, Reads-lift, Reads-attempted, Reads-bind}
use opemail.Webmail.Messages.{find_in, find_message_file, first_match, matched, clean_id, choose}

-- the names on the disk are elements of paths, as an operating system has it
abbrev pub IsSane : Disk → Type 0
IsSane d = All (λ e. All IsElement e.path) d

abbrev pub AreElements : Listed → Type 0
AreElements es = All (λ e. IsElement e.0) es

abbrev pub AreListed : Option Listed → Type 0
AreListed none = Unit
AreListed (some es) = AreElements es

insert-elements :
    (e : Text × Node) (es : Listed)
    → IsElement e.0
    → AreElements es
    → AreElements (insert_name e es)
unfolding insert_name
insert-elements e [] n h = (n, tt)
insert-elements e (f ∷ fs) n (k, h) = elim (Bool-cases (opemail.Disk.text_before f.0 e.0)) [
  | inl t ↦ rw t (k, insert-elements e fs n h)
  | inr g ↦ rw g (n, (k, h))
]

child-IsElement :
    (p q : FilePath) (f : Text) → All IsElement q → child_of p q ≡ some f → IsElement f
unfolding child_of
child-IsElement p [] f h e = ground arith
child-IsElement p (g ∷ q) f (n, h) e = elim (Bool-cases (same q p)) [
  | inl t ↦ let is : g ≡ f = ground arith in subst IsElement is n
  | inr o ↦ ground arith
]

children-elements : (p : FilePath) (d : Disk) → IsSane d → AreElements (children p d)
unfolding children
children-elements p [] h = tt
children-elements p (e ∷ d) (n, h) = elim (Option-cases (child_of p e.path)) [
  | inl o ↦ rw (children, o) (children-elements p d h)
  | inr (f, o) ↦
      rw (children, o)
        (insert-elements (f, e.node) (children p d) (child-IsElement p e.path f n o)
          (children-elements p d h))
]

pub find_fold-IsElement :
    (n : Text) (es : Listed) (m : Text) → AreElements es → find_fold n es ≡ some m → IsElement m
unfolding find_fold
find_fold-IsElement n [] m h e = ground arith
find_fold-IsElement n (x ∷ es) m (k, h) e =
    elim (Bool-cases (opemail.Disk.is_directory (some x.1) && equal_fold x.0 n)) [
      | inl t ↦ let same : x.0 ≡ m = ground arith in subst IsElement same k
      | inr f ↦ find_fold-IsElement n es m h (ground arith)
    ]

first_match-IsElement :
    (c k : Text) (es : Listed) (m : Text)
    → AreElements es
    → first_match c k es ≡ some m
    → IsElement m
unfolding first_match
first_match-IsElement c k [] m h e = ground arith
first_match-IsElement c k (x ∷ es) m (n, h) e =
    elim (Bool-cases (eqb x.0 c || eqb x.0 k || has_prefix x.0 k)) [
      | inl t ↦ let is : x.0 ≡ m = ground arith in subst IsElement is n
      | inr f ↦ first_match-IsElement c k es m h (ground arith)
    ]

pub cur-IsName : IsName (codes "cur")
unfolding is_empty eqb
cur-IsName = record { not_empty = refl; not_dot = refl; not_dots = refl; no_slash = refl }

new-IsName : IsName (codes "new")
unfolding is_empty eqb
new-IsName = record { not_empty = refl; not_dot = refl; not_dots = refl; no_slash = refl }

module _ {D : Disk} (sane : IsSane D) where
  pub read_dir-Reads : (p : FilePath) → Reads D AreListed (attempted (statement (read_dir p)))
  unfolding read_dir
  read_dir-Reads p = Reads-attempted _ (read_dir p) tt (λ es d h. listed (holds p D) es d h)
    where
      found : Outcome Listed
      found = ok (children p D, D)

      listed :
          (b : Bool) (es : Listed) (d : Disk)
          → (if b then found else err no_rows) ≡ ok (es, d)
          → (d ≡ D) × AreElements es
      listed true es d h =
          let is : children p D ≡ es = ground arith in
          (ground arith, subst AreElements is (children-elements p D sane))
      listed false es d h = ground arith

  stat-Reads : (p : FilePath) → Reads D (λ o. Unit {0}) (attempted (statement (stat p)))
  unfolding stat
  stat-Reads p = Reads-attempted _ (stat p) tt (λ n d h. (looked (node_at p D) n d h, tt))
    where
      looked : (o : Option Node) (n : Node) (d : Disk) → stat_of D o ≡ ok (n, d) → d ≡ D
      looked none n d h = ground arith
      looked (some x) n d h = ground arith

  module _ (m : FilePath) where
    module _ (id key : Text) (dir : FilePath) (sub : Text) (h : Inside m dir) (named : IsName sub)
        (rest : Exec (Db Disk) WebmailError (FilePath × Text))
        (next : Reads D (λ r. Inside m r.0) rest) where
      of_entry :
          (o : Option Listed)
          → AreListed o
          → (q : Option Text) → matched (base id) key o ≡ q
          → Reads D
              (λ r. Inside m r.0)
              (choose q (λ name. lift (ok (enter (sub ∷ dir) name, sub))) rest)
      of_entry o r none e = next
      of_entry none r (some f) e = ground arith
      of_entry (some es) r (some f) e = Reads-lift _ _ (λ a k.
          let is : (enter (sub ∷ dir) f, sub) ≡ a = ground arith in
          subst (λ a. Inside m a.0) is
            (Inside-enter m (sub ∷ dir) f (first_match-IsElement (base id) key es f r e)
              (Inside-cons m dir sub named h)))

      of_stat :
          (o : Option Node)
          → Reads D
              (λ r. Inside m r.0)
              (choose o
                (λ n. lift (ok (enter (sub ∷ dir) (base id), sub)))
                (attempted (statement (read_dir (sub ∷ dir))) >>= λ entries.
                  choose
                    (matched (base id) key entries)
                    (λ name. lift (ok (enter (sub ∷ dir) name, sub)))
                    rest))
      of_stat none = Reads-bind _ _ _ _ (read_dir-Reads _) (λ o r. of_entry o r _ refl)
      of_stat (some n) = Reads-lift _ _ (λ a k.
          let is : (enter (sub ∷ dir) (base id), sub) ≡ a = ground arith in
          subst (λ a. Inside m a.0) is (Inside-base m dir sub id named h))

    find_in-Reads :
        (id key : Text) (dir : FilePath) (subs : List Text)
        → Inside m dir
        → All IsName subs
        → Reads D (λ r. Inside m r.0) (find_in (base id) key dir subs)
    unfolding find_in
    find_in-Reads id key dir [] h n = Reads-lift _ _ (λ a e. ground arith)
    find_in-Reads id key dir (sub ∷ subs) h (n, ns) = rw (enter-IsName dir sub n) (
        Reads-bind _ _ _ _ (stat-Reads _)
          (λ o _. of_stat id key dir sub h n _ (find_in-Reads id key dir subs h ns) o))

    -- the file that a look-up finds lies in the Maildir
    pub find-Reads :
        (dir : FilePath) (id : Text)
        → Inside m dir
        → Reads D (λ r. Inside m r.0) (find_message_file dir id)
    unfolding find_message_file clean_id
    find-Reads dir id h =
        find_in-Reads _ _ dir (codes "cur" ∷ codes "new" ∷ []) h (cur-IsName, (new-IsName, tt))
