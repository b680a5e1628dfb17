-- ===== src/Paths/Inside.antt =====
-- Where a path that is put together ends.
use opemail.Prelude.{
  ℕ, inl, inr, All, ◌≡◌, refl, true, false, ◌||◌, List, [], ◌∷◌, any, arith, Bool-cases, ◌==◌,
}
use opemail.Text.{Text, codes, eqb, is_empty, split, onto_first}
use opemail.Text.Laws.{eqb_sound, eqb_refl}
use opemail.Paths.{FilePath, walk, walk_all, enter, base, last_element, same, below}

-- a text without a slash is one element
pub split_plain : (s : Text) (b : ℕ) → any (λ c. c == b) s ≡ false → split s b ≡ s ∷ []
unfolding split onto_first
split_plain [] b h = refl
split_plain (c ∷ s) b h = let rest = split_plain s b (ground arith) in ground arith

-- a name that `filepath.Join` does not change: not empty, no dot or two, and no slash
pub record IsName (e : Text) : Type 0 where
  pub not_empty : is_empty e ≡ false
  pub not_dot : eqb e (codes ".") ≡ false
  pub not_dots : eqb e (codes "..") ≡ false
  pub no_slash : any (λ c. c == b'/') e ≡ false

pub enter-IsName : (p : FilePath) (e : Text) → IsName e → enter p e ≡ e ∷ p
unfolding enter walk_all walk
enter-IsName p e n = rw (split_plain e b'/' n.no_slash, n.not_empty, n.not_dot, n.not_dots) refl

pub same_sound : (p q : FilePath) → same p q ≡ true → p ≡ q
unfolding same
same_sound [] [] h = refl
same_sound [] (e ∷ q) h = cc
same_sound (e ∷ p) [] h = cc
same_sound (e ∷ p) (f ∷ q) h = ground (arith, eqb_sound e f, same_sound p q)

pub same_refl : (p : FilePath) → same p p ≡ true
unfolding same
same_refl [] = refl
same_refl (e ∷ p) = ground (arith, eqb_refl e, same_refl p)

pub below_refl : (p : FilePath) → below p p ≡ true
unfolding below
below_refl [] = unfold same in refl
below_refl (e ∷ p) = let is = same_refl (e ∷ p) in ground arith

pub below-cons : (p q : FilePath) (e : Text) → below p q ≡ true → below p (e ∷ q) ≡ true
unfolding below
below-cons p q e h = ground arith

-- a name that a directory lists: one element, and not the one above
pub record IsElement (e : Text) : Type 0 where
  pub no_slash : any (λ c. c == b'/') e ≡ false
  pub not_above : eqb e (codes "..") ≡ false

enter-below :
    (m p : FilePath) (e : Text) → IsElement e → below m p ≡ true → below m (enter p e) ≡ true
unfolding enter walk_all walk
enter-below m p e n h =
    rw (split_plain e b'/' n.no_slash, n.not_above)
      (elim (Bool-cases (is_empty e || eqb e (codes "."))) [
        | inl t ↦ rw t h
        | inr f ↦ rw f (below-cons m p e h)
      ])

-- even where the element is the one above
enter-below_above :
    (m p : FilePath) (d e : Text)
    → any (λ c. c == b'/') e ≡ false
    → below m p ≡ true
    → below m (enter (d ∷ p) e) ≡ true
unfolding enter walk_all walk
enter-below_above m p d e n h =
    let inside = below-cons m p d h in
    rw (split_plain e b'/' n) (elim (Bool-cases (is_empty e || eqb e (codes "."))) [
      | inl t ↦ rw t inside
      | inr f ↦ elim (Bool-cases (eqb e (codes ".."))) [
        | inl t ↦ rw (f, t) h
        | inr g ↦ rw (f, g) (below-cons m (d ∷ p) e inside)
      ]
    ])

split-no_slash : (s : Text) (b : ℕ) → All (λ p. any (λ c. c == b) p ≡ false) (split s b)
unfolding split onto_first
split-no_slash [] b = (refl, tt)
split-no_slash (c ∷ s) b = elim (Bool-cases (c == b)) [
  | inl t ↦ rw t (refl, split-no_slash s b)
  | inr f ↦ rw f (onto c f (split s b) (split-no_slash s b))
]
  where
    onto :
        (c : ℕ)
        → (c == b) ≡ false
        → (ps : List Text) → All (λ p. any (λ c. c == b) p ≡ false) ps
        → All (λ p. any (λ c. c == b) p ≡ false) (onto_first c ps)
    onto c f [] h = (rw f refl, tt)
    onto c f (p ∷ ps) (h, k) = (rw f h, k)

last-no_slash :
    (ps : List Text)
    → All (λ p. any (λ c. c == b'/') p ≡ false) ps
    → any (λ c. c == b'/') (last_element ps) ≡ false
unfolding last_element
last-no_slash [] h = refl
last-no_slash (p ∷ ps) (h, k) = let rest = last-no_slash ps k in ground arith

root_element : (d : Text) (p : FilePath) → enter (d ∷ p) (codes "/") ≡ d ∷ p
unfolding enter walk_all walk split onto_first is_empty
root_element d p = refl

-- filepath.Base of a clean path
abbrev pub name_of : FilePath → Text
name_of [] = codes "/"
name_of (e ∷ p) = e

abbrev pub HasPlainName : FilePath → Type 0
HasPlainName p = any (λ c. c == b'/') (name_of p) ≡ false

plain-enter :
    (p : FilePath) (e : Text)
    → any (λ c. c == b'/') e ≡ false
    → eqb e (codes "..") ≡ false
    → HasPlainName p
    → HasPlainName (enter p e)
unfolding enter walk_all walk
plain-enter p e n a h =
    rw (split_plain e b'/' n, a)
      (elim (Bool-cases (is_empty e || eqb e (codes "."))) [ inl t ↦ rw t h | inr f ↦ rw f n ])

plain-enter_above :
    (p : FilePath) (d e : Text)
    → any (λ c. c == b'/') e ≡ false
    → any (λ c. c == b'/') d ≡ false
    → HasPlainName p
    → HasPlainName (enter (d ∷ p) e)
unfolding enter walk_all walk
plain-enter_above p d e n k h =
    rw (split_plain e b'/' n) (elim (Bool-cases (is_empty e || eqb e (codes "."))) [
      | inl t ↦ rw t k
      | inr f ↦ elim (Bool-cases (eqb e (codes ".."))) [ inl t ↦ rw (f, t) h | inr g ↦ rw (f, g) n ]
    ])

-- the path lies in the directory, and its name has no slash
abbrev pub Inside : FilePath → FilePath → Type 0
Inside m p = (below m p ≡ true) × HasPlainName p

pub Inside-enter : (m p : FilePath) (e : Text) → IsElement e → Inside m p → Inside m (enter p e)
Inside-enter m p e n (h, k) = (enter-below m p e n h, plain-enter p e n.no_slash n.not_above k)

pub Inside-cons : (m p : FilePath) (e : Text) → IsName e → Inside m p → Inside m (e ∷ p)
Inside-cons m p e n (h, k) = (below-cons m p e h, n.no_slash)

-- even where the element is the one above
pub Inside-enter_above :
    (m p : FilePath) (d e : Text)
    → IsName d
    → any (λ c. c == b'/') e ≡ false
    → Inside m p
    → Inside m (enter (d ∷ p) e)
Inside-enter_above m p d e n k (h, l) =
    (enter-below_above m p d e k h, plain-enter_above p d e k n.no_slash l)

-- what `filepath.Base` leaves of a text stays next to the directory
pub Inside-base :
    (m p : FilePath) (d s : Text) → IsName d → Inside m p → Inside m (enter (d ∷ p) (base s))
unfolding base
Inside-base m p d s n h = elim (Bool-cases (is_empty s)) [
  | inl t ↦ rw t (Inside-enter_above m p d (codes ".") n refl h)
  | inr f ↦ elim (Bool-cases (is_empty (last_element (split s b'/')))) [
    | inl t ↦ rw (f, t) (rw (root_element d p) (Inside-cons m p d n h))
    | inr g ↦ rw (f, g) (Inside-enter_above m p d _ n (last-no_slash _ (split-no_slash s b'/')) h)
  ]
]
