-- ===== src/Provisioning/Made.antt =====
-- The directories that a provisioning makes.
use opemail.Prelude.{
  ◌≡◌, refl, sym, Bool, true, some, inl, inr, List, [], ◌∷◌, any, arith, Bool-cases, Option-cases,
  if◌then◌else◌,
}
use mathlib.Core.Path.{subst}
use opemail.Text.{Text}
use opemail.Exec.{ok, pure, ignore, Result-cases}
use opemail.Exec.Keeps.{Keeps, Keeps-pure, Keeps-if, Keeps-ignore, Keeps-fail_with, Keeps-bind}
use opemail.Exec.Brings.{Brings, Brings-fail_with, Brings-bind, Brings-Keeps}
use opemail.Database.{statement}
use opemail.Database.Statements.{statement-Keeps, statement-Brings}
use opemail.Paths.{FilePath, same}
use opemail.Paths.Inside.{same_sound}
use opemail.Disk.{
  directory, file, is_directory, is_file, Disk, node_at, put, mkdir_all, chmod, chmod_of, with_mode,
}
use opemail.Disk.Laws.{node_at-put, node_at-put_other}
use opemail.Provisioning.{ProvisionError, make_directory, make_directories}
use opemail.Webmail.Writes.{ok_right, mkdir-keeps}

-- a directory with the mode 0750
abbrev pub Has : FilePath → Disk → Type 0
Has p d = node_at p d ≡ some (directory 488)

made :
    (e : Text) (p : FilePath) (t d : Disk) (u : Unit {0})
    → mkdir_all 488 (e ∷ p) t ≡ ok (u, d)
    → is_directory (node_at (e ∷ p) d) ≡ true
unfolding mkdir_all
made e p t d u h = elim (Result-cases (mkdir_all 488 p t)) [
  | inr (x, r) ↦ ground arith
  | inl ((v, c), r) ↦ elim (Bool-cases (is_directory (node_at (e ∷ p) c))) [
    | inl x ↦
        subst (λ d. is_directory (node_at (e ∷ p) d) ≡ true)
          (ok_right (mkdir_all 488 (e ∷ p) t) c u (rw (r, x) refl) h) x
    | inr x ↦ elim (Bool-cases (is_file (node_at (e ∷ p) c))) [
      | inl y ↦ ground arith
      | inr y ↦
          subst (λ d. is_directory (node_at (e ∷ p) d) ≡ true)
            (ok_right (mkdir_all 488 (e ∷ p) t) (put (e ∷ p) (directory 488) c) u
              (rw (r, x, y) refl) h)
            (rw (node_at-put (e ∷ p) (directory 488) c) refl)
    ]
  ]
]

-- the mode of the directory itself
set :
    (p : FilePath) (t d : Disk) (u : Unit {0})
    → chmod p 488 t ≡ ok (u, d)
    → is_directory (node_at p t) ≡ true
    → Has p d
unfolding chmod chmod_of
set p t d u h k = elim (Option-cases (node_at p t)) [
  | inl o ↦ ground arith
  | inr (file c m n, o) ↦ ground arith
  | inr (directory m, o) ↦
      subst (Has p) (ok_right (chmod p 488 t) (put p (directory 488) t) u (rw o refl) h)
        (node_at-put p (directory 488) t)
]

-- and of any other path
chmod-Has :
    (p q : FilePath) (t d : Disk) (u : Unit {0}) → chmod p 488 t ≡ ok (u, d) → Has q t → Has q d
unfolding chmod chmod_of
chmod-Has p q t d u h k = elim (Option-cases (node_at p t)) [
  | inl o ↦ ground arith
  | inr (n, o) ↦
      subst (Has q) (ok_right (chmod p 488 t) (put p (with_mode 488 n) t) u (rw o refl) h)
        (elim (Bool-cases (same p q)) [
          | inr f ↦ rw (node_at-put_other p q (with_mode 488 n) t f) k
          | inl s ↦
              let is = same_sound p q s in
              let here : some n ≡ some (directory 488) = rw (sym o, is) k in
              let node : n ≡ directory 488 = ground arith in
              subst (λ x. Has x (put p (with_mode 488 n) t)) is
                (rw (node_at-put p (with_mode 488 n) t, node) refl)
        ])
]

module _ (owned : Bool) where
  chown-Keeps :
      (q : FilePath)
      → Keeps
          (λ s. Has q s.rows)
          (if owned
            then ignore {F = ProvisionError} (statement {R = Disk} {A = Unit {0}} (λ d. ok (tt, d)))
            else pure tt)
  chown-Keeps q =
      let same_disk =
        statement-Keeps {A = Unit {0}} (Has q) (λ d. ok (tt, d))
          (λ t u d e h. subst (Has q) (ok_right _ t u refl e) h) in
      Keeps-if owned _ _ (Keeps-ignore _ same_disk) (Keeps-pure tt)

  turn-Keeps : (q p : FilePath) → Keeps (λ s. Has q s.rows) (make_directory owned p)
  unfolding make_directory
  turn-Keeps q p =
      Keeps-bind _ _
        (Keeps-fail_with _ _ (
          statement-Keeps (Has q) (mkdir_all 488 p) (λ t u d e h. mkdir-keeps 488 p q _ t d u e h)))
        (λ _.
          Keeps-bind _ _
            (Keeps-fail_with _ _
              (statement-Keeps (Has q) (chmod p 488) (λ t u d e h. chmod-Has p q t d u e h)))
            (λ _. chown-Keeps q))

  turns-Keeps :
      (q : FilePath) (ps : List FilePath) → Keeps (λ s. Has q s.rows) (make_directories owned ps)
  unfolding make_directories
  turns-Keeps q [] = Keeps-pure tt
  turns-Keeps q (p ∷ ps) = Keeps-bind _ _ (turn-Keeps q p) (λ _. turns-Keeps q ps)

  turn-Brings :
      (e : Text) (p : FilePath)
      → Brings (λ s. Unit {0}) (λ s. Has (e ∷ p) s.rows) (make_directory owned (e ∷ p))
  unfolding make_directory
  turn-Brings e p =
      Brings-bind _ _
        (Brings-fail_with _ _ (
          statement-Brings (λ d. Unit {0}) (λ d. is_directory (node_at (e ∷ p) d) ≡ true) _
            (λ t u d h g. made e p t d u h)))
        (λ _.
          Brings-bind _ _
            (Brings-fail_with _ _ (
              statement-Brings (λ d. is_directory (node_at (e ∷ p) d) ≡ true) (Has (e ∷ p)) _
                (λ t u d h g. set (e ∷ p) t d u h g)))
            (λ _. Brings-Keeps _ (chown-Keeps (e ∷ p))))

  -- a path that is no root, of those in the list
  abbrev pub Named : FilePath → Type 0
  Named [] = ⊥
  Named (e ∷ p) = Unit

  pub turns-Brings :
      (q : FilePath) (ps : List FilePath)
      → Named q
      → any (λ p. same p q) ps ≡ true
      → Brings (λ s. Unit {0}) (λ s. Has q s.rows) (make_directories owned ps)
  unfolding make_directories
  turns-Brings q [] n h = absurd (cc)
  turns-Brings [] (p ∷ ps) n h = absurd n
  turns-Brings (e ∷ q) (p ∷ ps) n h = elim (Bool-cases (same p (e ∷ q))) [
    | inl s ↦
        let is = same_sound p (e ∷ q) s in
        rw is (Brings-bind _ _ (turn-Brings e q) (λ _. Brings-Keeps _ (turns-Keeps (e ∷ q) ps)))
    | inr f ↦
        Brings-bind {Q = λ s. Unit {0}} _ _ (record { after = λ s a u r. tt })
          (λ _. turns-Brings (e ∷ q) ps n (ground arith))
  ]
