-- ===== src/Webmail/Writes.antt =====
-- The system calls that change files, and what they leave alone.
use mathlib.Core.Path.{subst}
use opemail.Prelude.{
  ◌≡◌, refl, sym, ap, ◌∙◌, ℕ, true, false, ◌||◌, some, [], ◌∷◌, ◌++◌, inl, inr, arith, Bool-cases,
  Option-cases,
}
use opemail.Exec.{ok, Result-cases}
use opemail.Paths.{FilePath, parent, same, below}
use opemail.Paths.Inside.{same_sound, below-cons}
use opemail.Disk.{
  Node, Disk, Outcome, node_at, put, erase, directory, file, is_file, is_directory, holds,
  below_part, moved_path, move_tree, renamed_any, rename, remove, removed, has_children, mkdir_all,
}
use opemail.Disk.Laws.{node_at-put_other}
use opemail.Webmail.Confinement.{Untouched, Untouched-erase, Untouched-put, outside}

below-append : (m q : FilePath) (t : FilePath) → below m q ≡ true → below m (t ++ q) ≡ true
below-append m q [] h = h
below-append m q (e ∷ t) h = below-cons m (t ++ q) e (below-append m q t h)

below_part_sound : (p r t : FilePath) → below_part p r ≡ some t → r ≡ t ++ p
unfolding below_part
below_part_sound p [] t h = elim (Bool-cases (same p [])) [
  | inl e ↦
      let is = same_sound p [] e in
      let none_left : [] ≡ t = ground arith in rw (is, sym none_left) refl
  | inr e ↦ ground arith
]
below_part_sound p (f ∷ r) t h = elim (Bool-cases (same p (f ∷ r))) [
  | inl e ↦
      let is = same_sound p (f ∷ r) e in
      let none_left : [] ≡ t = ground arith in rw (is, sym none_left) refl
  | inr e ↦ elim (Option-cases (below_part p r)) [
    | inl o ↦ ground arith
    | inr (u, o) ↦
        let rest = below_part_sound p r u o in
        let is : f ∷ u ≡ t = ground arith in subst (λ t. f ∷ r ≡ t ++ p) is (ap (λ x. f ∷ x) rest)
  ]
]

module _ (m p q : FilePath) (hp : below m p ≡ true) (hq : below m q ≡ true) where
  -- a path that is not in the directory does not move, and nothing moves to it
  moved-outside : (r e : FilePath) → below m r ≡ false → same (moved_path p q e) r ≡ same e r
  moved-outside r e o = elim (Option-cases (below_part p e)) [
    | inl n ↦ rw (moved_path, n) refl
    | inr (t, n) ↦
        let is = below_part_sound p e t n in
        rw (moved_path, n)
          (outside m (t ++ q) r (below-append m q t hq) o
            ∙ sym (outside m e r (rw is (below-append m p t hp)) o))
  ]

  node_at-move_tree :
      (r : FilePath) (d : Disk) → below m r ≡ false → node_at r (move_tree p q d) ≡ node_at r d
  unfolding node_at move_tree
  node_at-move_tree r [] o = refl
  node_at-move_tree r (e ∷ d) o = rw (moved-outside r e.path o, node_at-move_tree r d o) refl

pub ok_right :
    {d : Disk} (q : Outcome (Unit {0})) (t : Disk) (u : Unit {0})
    → q ≡ ok (tt, t)
    → q ≡ ok (u, d)
    → t ≡ d
ok_right q t u h k = ground arith

module _ (D : Disk) (m : FilePath) where
  pub remove-Untouched :
      (p : FilePath) (t d : Disk) (u : Unit {0})
      → below m p ≡ true
      → remove p t ≡ ok (u, d)
      → Untouched D m t
      → Untouched D m d
  unfolding remove removed
  remove-Untouched p t d u h e k = elim (Option-cases (node_at p t)) [
    | inl o ↦ ground arith
    | inr (file c i n, o) ↦
        subst (Untouched D m) (ok_right _ _ u (rw o refl) e) (Untouched-erase D m p t h k)
    | inr (directory i, o) ↦ elim (Bool-cases (has_children p t)) [
      | inl b ↦ ground arith
      | inr b ↦
          subst (Untouched D m) (ok_right _ _ u (rw (o, b) refl) e) (Untouched-erase D m p t h k)
    ]
  ]

  pub rename-Untouched :
      (p q : FilePath) (t d : Disk) (u : Unit {0})
      → below m p ≡ true
      → below m q ≡ true
      → rename p q t ≡ ok (u, d)
      → Untouched D m t
      → Untouched D m d
  unfolding rename renamed_any
  rename-Untouched p q t d u hp hq e k = elim (Bool-cases (is_directory (node_at q t))) [
    | inl x ↦ ground arith
    | inr x ↦ elim (Bool-cases (holds (parent q) t)) [
      | inr y ↦ ground arith
      | inl y ↦ elim (Option-cases (node_at p t)) [
        | inl o ↦ ground arith
        | inr (file c i n, o) ↦
            subst (Untouched D m)
              (ok_right (rename p q t) (put q (file c i n) (erase p t)) u (rw (x, y, o) refl) e)
              (Untouched-put D m q (file c i n) (erase p t) hq (Untouched-erase D m p t hp k))
        | inr (directory i, o) ↦ elim (Bool-cases (is_file (node_at q t) || below p q)) [
          | inl b ↦ ground arith
          | inr b ↦
              subst (Untouched D m)
                (ok_right (rename p q t) (move_tree p q t) u (rw (x, y, o, b) refl) e)
                (λ r n z w. rw (node_at-move_tree m p q hp hq r t z) (k r n z w))
        ]
      ]
    ]
  ]

-- a node that is there is at another path than one where there is none
absent :
    (p q : FilePath) (n : Node) (d : Disk)
    → is_directory (node_at p d) ≡ false
    → is_file (node_at p d) ≡ false
    → node_at q d ≡ some n
    → same p q ≡ false
absent p q n d x y k = elim (Bool-cases (same p q)) [
  | inr f ↦ f
  | inl t ↦
      let is = same_sound p q t in
      let here : node_at p d ≡ some n = rw is k in
      of_node n (subst (λ o. is_directory o ≡ false) here x) (subst (λ o. is_file o ≡ false) here y)
]
  where
    of_node :
        (n : Node) → is_directory (some n) ≡ false → is_file (some n) ≡ false → same p q ≡ false
    of_node (directory i) x y = ground arith
    of_node (file c i t) x y = ground arith

-- what is there stays when directories are made
pub mkdir-keeps :
    (i : ℕ) (p q : FilePath) (n : Node) (t d : Disk) (u : Unit {0})
    → mkdir_all i p t ≡ ok (u, d)
    → node_at q t ≡ some n
    → node_at q d ≡ some n
unfolding mkdir_all
mkdir-keeps i [] q n t d u e k = subst (λ d. node_at q d ≡ some n) (ok_right _ t u refl e) k
mkdir-keeps i (f ∷ p) q n t d u e k = elim (Result-cases (mkdir_all i p t)) [
  | inr (x, r) ↦ ground arith
  | inl ((v, c), r) ↦
      let kept = mkdir-keeps i p q n t c v r k in
      elim (Bool-cases (is_directory (node_at (f ∷ p) c))) [
        | inl x ↦
            subst (λ d. node_at q d ≡ some n)
              (ok_right (mkdir_all i (f ∷ p) t) c u (rw (r, x) refl) e) kept
        | inr x ↦ elim (Bool-cases (is_file (node_at (f ∷ p) c))) [
          | inl y ↦ ground arith
          | inr y ↦
              subst (λ d. node_at q d ≡ some n)
                (ok_right (mkdir_all i (f ∷ p) t) (put (f ∷ p) (directory i) c) u
                  (rw (r, x, y) refl) e)
                (rw (node_at-put_other (f ∷ p) q (directory i) c (absent (f ∷ p) q n c x y kept))
                  kept)
        ]
      ]
]

pub mkdir-Untouched :
    (D : Disk) (m : FilePath) (i : ℕ) (p : FilePath) (t d : Disk) (u : Unit {0})
    → mkdir_all i p t ≡ ok (u, d)
    → Untouched D m t
    → Untouched D m d
mkdir-Untouched D m i p t d u e k q n z w = mkdir-keeps i p q n t d u e (k q n z w)
