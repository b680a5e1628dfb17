-- ===== src/Webmail/Confinement.antt =====
-- What a method of the service may touch: it reads the file system as it was, and then changes only what lies in the
-- Maildir. `D` is the file system at the call.
use opemail.Prelude.{◌≡◌, refl, Bool, true, false, Option, none, some, inl, inr, arith, Bool-cases}
use mathlib.Core.Path.{subst}
use opemail.Exec.{Result, ok, err, Exec, Result-cases, ◌>>=◌}
use opemail.Exec.Keeps.{Keeps}
use opemail.Database.{Db, statement, answer, attempt}
use opemail.Paths.{FilePath, same, below}
use opemail.Paths.Inside.{same_sound}
use opemail.Disk.{Node, Disk, Outcome, node_at, put, erase}
use opemail.Disk.Laws.{node_at-erase_other, node_at-put_other}
use opemail.Webmail.Folders.{WebmailError, attempted, optional, lift}

module _ (D : Disk) where
  -- the action changes no file, and what it returns has the property
  pub record Reads {A : Type 0} (R : A → Type 0) (m : Exec (Db Disk) WebmailError A) : Type 0 where
    pub after : (s : Db Disk) → s.rows ≡ D → ((m s).1.rows ≡ D) × ((a : A) → (m s).0 ≡ ok a → R a)

  -- what was outside the directory is there still, as it was
  abbrev pub Untouched : FilePath → Disk → Type 0
  Untouched m d =
      (q : FilePath) (n : Node) → below m q ≡ false → node_at q D ≡ some n → node_at q d ≡ some n

  pub record Confines {A : Type 0} (m : FilePath) (x : Exec (Db Disk) WebmailError A) : Type 0 where
    pub after : (s : Db Disk) → s.rows ≡ D → Untouched m (x s).1.rows

ok_same : {E A : Type 0} (q : Result E A) (a b : A) → q ≡ ok a → q ≡ ok b → a ≡ b
ok_same q a b h k = ground arith

module _ {D : Disk} {A : Type 0} where
  pub Reads-lift :
      (R : A → Type 0) (r : Result WebmailError A) → ((a : A) → r ≡ ok a → R a) → Reads D R (lift r)
  Reads-lift R r k = record { after = λ s e. (e, k) }

  -- a call that only looks
  pub Reads-attempted :
      (R : Option A → Type 0) (run : Disk → Outcome A)
      → R none
      → ((a : A) (d : Disk) → run D ≡ ok (a, d) → (d ≡ D) × R (some a))
      → Reads D R (attempted (statement run))
  Reads-attempted R run n k = record {
    after = λ s e.
        let (same, r) = looked s e (s.down s.statements) in
        (same, λ a h. subst R (ok_same _ _ a refl h) r);
  }
    where
      answered :
          (s : Db Disk) (q : Outcome A)
          → s.rows ≡ D
          → run D ≡ q
          → ((answer s q).1.rows ≡ D) × R (optional (answer s q).0)
      answered s (ok (a, d)) e h = k a d h
      answered s (err x) e h = (e, n)

      looked :
          (s : Db Disk)
          → s.rows ≡ D
          → (b : Bool) → ((attempt b run s).1.rows ≡ D) × R (optional (attempt b run s).0)
      looked s e true = (e, n)
      looked s e false = answered s (run s.rows) e (rw e refl)

module _ {D : Disk} {A B : Type 0} where
  pub Reads-bind :
      (R : A → Type 0) (Q : B → Type 0) (m : Exec (Db Disk) WebmailError A)
      (f : A → Exec (Db Disk) WebmailError B)
      → Reads D R m
      → ((a : A) → R a → Reads D Q (f a))
      → Reads D Q (m >>= f)
  unfolding ◌>>=◌
  Reads-bind R Q m f r k = record {
    after = λ s e.
        let (same, g) = r.after s e in
        elim (Result-cases (m s).0) [
          | inl (a, i) ↦ rw i ((k a (g a i)).after (m s).1 same)
          | inr (x, i) ↦ rw i (same, λ b h. ground arith)
        ];
  }

  pub Confines-bind :
      (m : FilePath) (R : A → Type 0) (x : Exec (Db Disk) WebmailError A)
      (f : A → Exec (Db Disk) WebmailError B)
      → Reads D R x
      → ((a : A) → R a → Confines D m (f a))
      → Confines D m (x >>= f)
  unfolding ◌>>=◌
  Confines-bind m R x f r k = record {
    after = λ s e.
        let (same, g) = r.after s e in
        elim (Result-cases (x s).0) [
          | inl (a, i) ↦ rw i ((k a (g a i)).after (x s).1 same)
          | inr (y, i) ↦ rw i (λ q n o h. rw same h)
        ];
  }

module _ {D : Disk} {A : Type 0} (m : FilePath) where
  -- an action that changes files of the Maildir alone
  pub Confines-Keeps :
      (x : Exec (Db Disk) WebmailError A) → Keeps (λ s. Untouched D m s.rows) x → Confines D m x
  Confines-Keeps x k = record { after = λ s e. k.after s (λ q n o h. rw e h) }

-- a path outside the directory is none of those in it
pub outside : (m p q : FilePath) → below m p ≡ true → below m q ≡ false → same p q ≡ false
outside m p q h k = elim (Bool-cases (same p q)) [
  | inl t ↦
      let is = same_sound p q t in
      let both : below m q ≡ true = subst (λ r. below m r ≡ true) is h in ground arith
  | inr f ↦ f
]

module _ (D : Disk) (m : FilePath) where
  pub Untouched-erase :
      (p : FilePath) (d : Disk) → below m p ≡ true → Untouched D m d → Untouched D m (erase p d)
  Untouched-erase p d h u q n o k = rw (node_at-erase_other p q d (outside m p q h o)) (u q n o k)

  pub Untouched-put :
      (p : FilePath) (x : Node) (d : Disk)
      → below m p ≡ true
      → Untouched D m d
      → Untouched D m (put p x d)
  Untouched-put p x d h u q n o k = rw (node_at-put_other p q x d (outside m p q h o)) (u q n o k)
