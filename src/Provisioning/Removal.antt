-- ===== src/Provisioning/Removal.antt =====
-- What the removal of an account leaves.
use opemail.Prelude.{
  ◌≡◌, ◌≢◌, refl, sym, ap, ◌∙◌, true, false, not, ◌||◌, some, inl, inr, List, [], ◌∷◌, ◌++◌, keep,
  length, length-append, append_assoc, arith, Bool-cases,
}
use mathlib.Core.Path.{subst}
use opemail.Text.Laws.{eqb_sound}
use opemail.Text.{Text, join, codes, is_empty, eqb, canonical, split}
use opemail.Exec.{ok, ◌>>=◌}
use opemail.Database.{Db}
use opemail.Paths.{FilePath, parent, same, below}
use opemail.Paths.Inside.{same_sound}
use opemail.Disk.{Node, Disk, node_at, remove_all}
use opemail.Database.Statements.{statement-Keeps}
use opemail.Provisioning.{path_of, calculate_path, is_localpart, is_domain, deprovision}
use opemail.Provisioning.Agreement.{accepted, webmail_agrees}
use opemail.Webmail.Folders.Isolation.{IsPlain, maildir_below, join-split}

-- what lies below a path ends with it
below_sound : (p q : FilePath) → below p q ≡ true → (t : FilePath) × (q ≡ t ++ p)
unfolding below
below_sound p [] h = let is = same_sound p [] h in ([], sym is)
below_sound p (e ∷ q) h = elim (Bool-cases (same p (e ∷ q))) [
  | inl s ↦ let is = same_sound p (e ∷ q) s in ([], sym is)
  | inr f ↦ let (t, is) = below_sound p q (ground arith) in (e ∷ t, ap (λ x. e ∷ x) is)
]

tail : {A : Type 0} → List A → List A
tail [] = []
tail (x ∷ xs) = xs

-- two ends of one list that are of one length
same_end : (x y p q : FilePath) → x ++ p ≡ y ++ q → length p ≡ length q → p ≡ q
unfolding tail
same_end [] [] p q h n = h
same_end [] (b ∷ y) p q h n =
    let total = ap length h in
    let part = length-append y q in absurd (omega (arith, total, part, n))
same_end (a ∷ x) [] p q h n =
    let total = ap length h in
    let part = length-append x p in absurd (omega (arith, total, part, n))
same_end (a ∷ x) (b ∷ y) p q h n = same_end x y p q (ap tail h) n

-- what does not lie below the path is kept
kept :
    (p q : FilePath) (n : Node) (d : Disk)
    → below p q ≡ false
    → node_at q d ≡ some n
    → node_at q (keep (λ e. not (below p e.path)) d) ≡ some n
unfolding node_at
kept p q n [] o h = ground arith
kept p q n (e ∷ d) o h = elim (Bool-cases (same e.path q)) [
  | inl s ↦
      let is = same_sound e.path q s in
      let outside : below p e.path ≡ false = rw is o in rw outside (rw s (ground arith))
  | inr f ↦
      let rest = kept p q n d o (ground arith) in
      elim (Bool-cases (below p e.path)) [ inl b ↦ rw b rest | inr b ↦ rw b (rw f rest) ]
]

head_or : {A : Type 0} → A → List A → A
head_or a [] = a
head_or a (x ∷ xs) = x

dot_no_localpart : is_localpart (codes ".") ≡ false
unfolding is_localpart
dot_no_localpart = refl

dot_no_domain : is_domain (codes ".") ≡ false
unfolding is_domain
dot_no_domain = refl

not_dot_localpart : (l : Text) → is_localpart l ≡ true → eqb l (codes ".") ≡ false
not_dot_localpart l h = elim (Bool-cases (eqb l (codes "."))) [
  | inr f ↦ f
  | inl t ↦ refuted (subst (λ s. is_localpart s ≡ true) (eqb_sound l (codes ".") t) h)
]
  where
    refuted : is_localpart (codes ".") ≡ true → eqb l (codes ".") ≡ false
    refuted k = let no = dot_no_localpart in ground arith

not_dot_domain : (d : Text) → is_domain d ≡ true → eqb d (codes ".") ≡ false
not_dot_domain d h = elim (Bool-cases (eqb d (codes "."))) [
  | inr f ↦ f
  | inl t ↦ refuted (subst (λ s. is_domain s ≡ true) (eqb_sound d (codes ".") t) h)
]
  where
    refuted : is_domain (codes ".") ≡ true → eqb d (codes ".") ≡ false
    refuted k = let no = dot_no_domain in ground arith

IsPlain-parts :
    (root : FilePath) (ps : List Text) (p : FilePath) → path_of root ps ≡ ok p → IsPlain ps
IsPlain-parts root [] p h = tt
IsPlain-parts root (l ∷ []) p h = ground arith
IsPlain-parts root (l ∷ d ∷ e ∷ ps) p h = ground arith
IsPlain-parts root (l ∷ d ∷ []) p h =
    let (a, b, c, e, same) = accepted (is_empty l || is_empty d) _ _ _ _ p h in
    (not_dot_localpart l (ground arith), (not_dot_domain d (ground arith), tt))

-- the path of an address, by its two parts
pub path_parts :
    (root : FilePath) (email : Text) (p : FilePath)
    → calculate_path root email ≡ ok p
    → (l : Text) × (d : Text) × (split (canonical email) b'@' ≡ l ∷ d ∷ [])
      × (p ≡ codes "Maildir" ∷ l ∷ d ∷ root)
path_parts root email p h =
    maildir_below root email p (unfold calculate_path in IsPlain-parts root _ p h)
      (webmail_agrees root email p h)

user_directory :
    (root : FilePath) (l d k e : Text) (r : FilePath)
    → below (l ∷ d ∷ root) r ≡ true
    → below (codes "Maildir" ∷ k ∷ e ∷ root) r ≡ true
    → l ∷ d ∷ [] ≡ k ∷ e ∷ []
unfolding head_or tail
user_directory root l d k e r h g =
    let (x, is_x) = below_sound (l ∷ d ∷ root) r h in
    let (y, is_y) = below_sound (codes "Maildir" ∷ k ∷ e ∷ root) r g in
    let both : x ++ (l ∷ d ∷ root) ≡ (y ++ codes "Maildir" ∷ []) ++ (k ∷ e ∷ root) =
      sym is_x ∙ (is_y ∙ sym (append_assoc y (codes "Maildir" ∷ []) (k ∷ e ∷ root))) in
    let ends = same_end x (y ++ codes "Maildir" ∷ []) (l ∷ d ∷ root) (k ∷ e ∷ root) both refl in
    let first : l ≡ k = ap (head_or []) ends in
    let second : d ≡ e = ap (λ z. head_or [] (tail z)) ends in rw (first, second) refl

module _ (root : FilePath) (a b : Text) (p q : FilePath) (of_a : calculate_path root a ≡ ok p)
    (of_b : calculate_path root b ≡ ok q) (differ : canonical a ≢ canonical b) where
  apart : (r : FilePath) → below q r ≡ true → below (parent p) r ≡ false
  apart r h =
      let (l, d, parts_a, is_p) = path_parts root a p of_a in
      let (k, e, parts_b, is_q) = path_parts root b q of_b in
      elim (Bool-cases (below (parent p) r)) [
        | inr f ↦ f
        | inl t ↦
            let one =
              user_directory root l d k e r (subst (λ z. below (parent z) r ≡ true) is_p t)
                (subst (λ z. below z r ≡ true) is_q h) in
            elim (differ (
              sym (join-split (canonical a) b'@')
              ∙ (ap (λ ps. join ps (b'@' ∷ [])) (parts_a ∙ (one ∙ sym parts_b))
                  ∙ join-split (canonical b) b'@'))) [ ]
      ]

  -- Of two addresses that differ, not only in case and white space around them, the removal of one leaves every file
  -- and directory of the other's Maildir where and as it was, whichever calls fail.
  pub deprovision_spares :
      (s : Db Disk) (r : FilePath) (n : Node)
      → below q r ≡ true
      → node_at r s.rows ≡ some n
      → node_at r (deprovision root a s).1.rows ≡ some n
  unfolding deprovision ◌>>=◌
  deprovision_spares s r n h there = rw of_a (
      (statement-Keeps (λ d. node_at r d ≡ some n) (remove_all (parent p))
          (λ t u d done g.
            let now : keep (λ e. not (below (parent p) e.path)) t ≡ d =
              unfold remove_all in ground arith in
            subst (λ d. node_at r d ≡ some n) now (kept (parent p) r n t (apart r h) g))).after
        s there)
