-- ===== src/Webmail/Folders/Isolation.antt =====
-- Where the directories of an account lie.
use opemail.Prelude.{
  ◌≡◌, refl, sym, ap, ◌∙◌, ℕ, Bool, true, false, ◌||◌, inl, inr, List, [], ◌∷◌, any, arith,
  Bool-cases, ◌==◌, if◌then◌else◌,
}
use mathlib.Core.Path.{subst}
use opemail.Text.Laws.{eqb_sound}
use opemail.Text.{
  Text, codes, eqb, is_empty, canonical, split, join, onto_first, contains, has_prefix,
}
use opemail.Text.Parts.{contains_any}
use opemail.Exec.{ok, err}
use opemail.Paths.{FilePath, enter}
use opemail.Paths.Inside.{IsName, enter-IsName}
use opemail.Webmail.Folders.{invalid_email, invalid_mailbox, get_maildir_path, maildir_of, bad_part}

split_some : (s : Text) (b : ℕ) → (p : Text) × (ps : List Text) × (split s b ≡ p ∷ ps)
unfolding split onto_first
split_some [] b = ([], [], refl)
split_some (c ∷ s) b =
    let (p, ps, e) = split_some s b in
    elim (Bool-cases (c == b)) [
      | inl t ↦ ([], split s b, rw t refl)
      | inr f ↦ (c ∷ p, ps, rw (f, e) refl)
    ]

join-onto_first :
    (c b : ℕ) (p : Text) (ps : List Text)
    → join (onto_first c (p ∷ ps)) (b ∷ []) ≡ c ∷ join (p ∷ ps) (b ∷ [])
unfolding join onto_first
join-onto_first c b p [] = refl
join-onto_first c b p (q ∷ ps) = refl

join-empty :
    (b : ℕ) (p : Text) (ps : List Text) → join ([] ∷ p ∷ ps) (b ∷ []) ≡ b ∷ join (p ∷ ps) (b ∷ [])
unfolding join
join-empty b p ps = refl

-- the parts of a split put together again
pub join-split : (s : Text) (b : ℕ) → join (split s b) (b ∷ []) ≡ s
unfolding split
join-split [] b = unfold join in refl
join-split (c ∷ s) b =
    let (p, ps, e) = split_some s b in
    let rest : join (p ∷ ps) (b ∷ []) ≡ s = rw (sym e) (join-split s b) in
    elim (Bool-cases (c == b)) [
      | inl t ↦
          let same : b ≡ c = ground arith in
          rw (t, e, join-empty b p ps, rest) (ap (λ x. x ∷ s) same)
      | inr f ↦ rw (f, e, join-onto_first c b p ps, rest) refl
    ]

-- a part that the service accepts has no slash in it
no_slash : (s : Text) → contains_any s (codes "/\\") ≡ false → any (λ c. c == b'/') s ≡ false
unfolding contains_any
no_slash [] h = refl
no_slash (c ∷ s) h = ground (arith, no_slash s)

dots_inside : contains (codes "..") (codes "..") ≡ true
unfolding contains has_prefix
dots_inside = refl

pub no_dots : (e : Text) → contains e (codes "..") ≡ false → eqb e (codes "..") ≡ false
no_dots e h = elim (Bool-cases (eqb e (codes ".."))) [
  | inl t ↦ absurd (subst (λ s. contains s (codes "..") ≡ false) (eqb_sound e (codes "..") t) h)
  | inr f ↦ f
]
  where
    absurd : contains (codes "..") (codes "..") ≡ false → eqb e (codes "..") ≡ false
    absurd k = let there = dots_inside in ground arith

part-IsName :
    (e : Text) → is_empty e ≡ false → eqb e (codes ".") ≡ false → bad_part e ≡ false → IsName e
part-IsName e some_letter not_dot h = record {
  not_empty = some_letter;
  not_dot = not_dot;
  not_dots = no_dots e (ground arith);
  no_slash = no_slash e (ground arith);
}

pub maildir-IsName : IsName (codes "Maildir")
unfolding is_empty eqb
maildir-IsName = record { not_empty = refl; not_dot = refl; not_dots = refl; no_slash = refl }

-- the two parts of an address are not a single dot
abbrev pub IsPlain : List Text → Type 0
IsPlain [] = Unit
IsPlain (p ∷ ps) = (eqb p (codes ".") ≡ false) × IsPlain ps

parts_path :
    (root : FilePath) (ps : List Text) (p : FilePath)
    → IsPlain ps
    → maildir_of root ps ≡ ok p
    → (l : Text) × (d : Text) × (ps ≡ l ∷ d ∷ []) × (p ≡ codes "Maildir" ∷ l ∷ d ∷ root)
parts_path root [] p n h = ground arith
parts_path root (l ∷ []) p n h = ground arith
parts_path root (l ∷ d ∷ e ∷ ps) p n h = ground arith
parts_path root (l ∷ d ∷ []) p (nl, (nd, u)) h =
    let (a, b, e) = accepted (is_empty l || is_empty d) (bad_part l || bad_part d) h in
    let name_l = part-IsName l (ground arith) nl (ground arith) in
    let name_d = part-IsName d (ground arith) nd (ground arith) in
    (l, d, refl, sym e ∙ within name_l name_d)
  where
    accepted :
        (b c : Bool)
        → (if b
            then err invalid_email
            else if c
            then err invalid_mailbox
            else ok (enter (enter (enter root d) l) (codes "Maildir")))
          ≡ ok p
        → (b ≡ false) × (c ≡ false) × (enter (enter (enter root d) l) (codes "Maildir") ≡ p)
    accepted true c h = ground arith
    accepted false true h = ground arith
    accepted false false h = (refl, refl, ground arith)

    within :
        IsName l
        → IsName d
        → enter (enter (enter root d) l) (codes "Maildir") ≡ codes "Maildir" ∷ l ∷ d ∷ root
    within nl nd =
        rw (enter-IsName root d nd, enter-IsName (d ∷ root) l nl)
          (enter-IsName (l ∷ d ∷ root) (codes "Maildir") maildir-IsName)

tail : {A : Type 0} → List A → List A
tail [] = []
tail (x ∷ xs) = xs

head_or : {A : Type 0} → A → List A → A
head_or a [] = a
head_or a (x ∷ xs) = x

parts_same :
    (l d k e : Text) (root : FilePath)
    → codes "Maildir" ∷ l ∷ d ∷ root ≡ codes "Maildir" ∷ k ∷ e ∷ root
    → l ∷ d ∷ [] ≡ k ∷ e ∷ []
unfolding tail head_or
parts_same l d k e root h =
    let first : l ≡ k = ap (λ p. head_or [] (tail p)) h in
    let second : d ≡ e = ap (λ p. head_or [] (tail (tail p))) h in rw (first, second) refl

-- Two addresses that get the same Maildir are the same up to case and white space around them, where no part of
-- either is a single dot.
pub maildir_isolated :
    (root : FilePath) (a b : Text) (p : FilePath)
    → IsPlain (split (canonical a) b'@')
    → IsPlain (split (canonical b) b'@')
    → get_maildir_path root a ≡ ok p
    → get_maildir_path root b ≡ ok p
    → canonical a ≡ canonical b
unfolding get_maildir_path
maildir_isolated root a b p na nb ha hb =
    let (l, d, ea, pa) = parts_path root _ p na ha in
    let (k, e, eb, pb) = parts_path root _ p nb hb in
    let same = parts_same l d k e root (sym pa ∙ pb) in
    sym (join-split (canonical a) b'@')
    ∙ (ap (λ ps. join ps (b'@' ∷ [])) (ea ∙ (same ∙ sym eb)) ∙ join-split (canonical b) b'@')

-- The Maildir of an address lies three levels below the root, under the domain and the local part.
pub maildir_below :
    (root : FilePath) (a : Text) (p : FilePath)
    → IsPlain (split (canonical a) b'@')
    → get_maildir_path root a ≡ ok p
    → (l : Text) × (d : Text) × (split (canonical a) b'@' ≡ l ∷ d ∷ [])
      × (p ≡ codes "Maildir" ∷ l ∷ d ∷ root)
unfolding get_maildir_path
maildir_below root a p n h = parts_path root _ p n h
