-- ===== src/Text/Laws.antt =====
-- What the functions of `Text` promise.
use opemail.Prelude.{
  ℕ, ◌≡◌, refl, sym, ap, true, false, ◌↔◌, inl, inr, [], ◌∷◌, ◌++◌, arith, Bool-cases,
}
use opemail.Text.{
  Text, eqb, lower, to_lower, is_space, trim_left, put_front, trim_right, trim_space, canonical,
  folded, has_suffix, has_prefix,
}

pub eqb_sound : (s t : Text) → eqb s t ≡ true → s ≡ t
unfolding eqb
eqb_sound [] [] h = refl
eqb_sound [] (d ∷ t) h = cc
eqb_sound (c ∷ s) [] h = cc
eqb_sound (c ∷ s) (d ∷ t) h = ground (arith, eqb_sound s t)

pub eqb_refl : (s : Text) → eqb s s ≡ true
unfolding eqb
eqb_refl [] = refl
eqb_refl (c ∷ s) = ground (arith, eqb_refl s)

pub eqb_iff : (s t : Text) → (eqb s t ≡ true) ↔ (s ≡ t)
eqb_iff s t = (eqb_sound s t, λ e. rw e (eqb_refl t))

lower-lower : (c : ℕ) → lower (lower c) ≡ lower c
unfolding lower
lower-lower c = ground arith

pub to_lower-to_lower : (s : Text) → to_lower (to_lower s) ≡ to_lower s
unfolding to_lower
to_lower-to_lower [] = refl
to_lower-to_lower (c ∷ s) = simp (lower-lower, to_lower-to_lower s)

-- White space has no letters.
is_space-lower : (c : ℕ) → is_space (lower c) ≡ is_space c
unfolding is_space lower
is_space-lower c = ground arith

trim_left-to_lower : (s : Text) → trim_left (to_lower s) ≡ to_lower (trim_left s)
unfolding trim_left to_lower
trim_left-to_lower [] = refl
trim_left-to_lower (c ∷ s) = ground (arith, is_space-lower c, trim_left-to_lower s)

put_front-to_lower :
    (c : ℕ) (s : Text) → put_front (lower c) (to_lower s) ≡ to_lower (put_front c s)
unfolding put_front to_lower
put_front-to_lower c [] = ground (arith, is_space-lower c)
put_front-to_lower c (d ∷ s) = refl

trim_right-to_lower : (s : Text) → trim_right (to_lower s) ≡ to_lower (trim_right s)
unfolding trim_right to_lower
trim_right-to_lower [] = refl
trim_right-to_lower (c ∷ s) = rw (trim_right-to_lower s) (put_front-to_lower c (trim_right s))

-- Trimming and lowering commute.
pub trim_space-to_lower : (s : Text) → trim_space (to_lower s) ≡ to_lower (trim_space s)
unfolding trim_space
trim_space-to_lower s = rw (trim_left-to_lower s) (trim_right-to_lower (trim_left s))

trim_right-put_front :
    (c : ℕ) (s : Text) → trim_right s ≡ s → trim_right (put_front c s) ≡ put_front c s
unfolding put_front trim_right
trim_right-put_front c [] h = ground arith
trim_right-put_front c (d ∷ s) h = ap (put_front c) h

trim_right-trim_right : (s : Text) → trim_right (trim_right s) ≡ trim_right s
unfolding trim_right
trim_right-trim_right [] = refl
trim_right-trim_right (c ∷ s) = trim_right-put_front c (trim_right s) (trim_right-trim_right s)

trim_left-put_front :
    (c : ℕ) (s : Text) → is_space c ≡ false → trim_left (put_front c s) ≡ put_front c s
unfolding put_front trim_left
trim_left-put_front c [] h = ground arith
trim_left-put_front c (d ∷ s) h = ground arith

trim_left-trim_space : (s : Text) → trim_left (trim_right (trim_left s)) ≡ trim_right (trim_left s)
unfolding trim_left
trim_left-trim_space [] = unfold trim_right in refl
trim_left-trim_space (c ∷ s) = elim (Bool-cases (is_space c)) [
  | inl space ↦ rw space (trim_left-trim_space s)
  | inr other ↦ rw other (unfold trim_right in trim_left-put_front c (trim_right s) other)
]

-- Trimming twice is trimming once.
pub trim_space-trim_space : (s : Text) → trim_space (trim_space s) ≡ trim_space s
unfolding trim_space
trim_space-trim_space s = rw (trim_left-trim_space s) (trim_right-trim_right (trim_left s))

-- A canonical text is its own canonical form.
pub canonical-canonical : (s : Text) → canonical (canonical s) ≡ canonical s
unfolding canonical
canonical-canonical s = simp (trim_space-to_lower, trim_space-trim_space, to_lower-to_lower)

has_prefix-append : (s p : Text) → has_prefix (p ++ s) p ≡ true
unfolding has_prefix
has_prefix-append s [] = refl
has_prefix-append s (c ∷ p) = ground (arith, has_prefix-append s p)

pub eqb_sym : (s t : Text) → eqb s t ≡ eqb t s
unfolding eqb
eqb_sym [] [] = refl
eqb_sym [] (d ∷ t) = refl
eqb_sym (c ∷ s) [] = refl
eqb_sym (c ∷ s) (d ∷ t) = ground (arith, eqb_sym s t)

pub has_suffix_sound : (s p : Text) → has_suffix s p ≡ true → (t : Text) × (s ≡ t ++ p)
unfolding has_suffix
has_suffix_sound [] p h = ([], eqb_sound [] p h)
has_suffix_sound (c ∷ s) p h = elim (Bool-cases (eqb (c ∷ s) p)) [
  | inl same ↦ ([], eqb_sound (c ∷ s) p same)
  | inr other ↦ let (t, e) = has_suffix_sound s p (ground arith) in (c ∷ t, ap (λ r. c ∷ r) e)
]

pub has_suffix-append : (t p : Text) → has_suffix (t ++ p) p ≡ true
unfolding has_suffix
has_suffix-append [] [] = refl
has_suffix-append [] (c ∷ p) = ground (arith, eqb_refl (c ∷ p))
has_suffix-append (c ∷ t) p = ground (arith, has_suffix-append t p)

pub folded-canonical : (s : Text) → folded s ≡ canonical s
unfolding folded canonical
folded-canonical s = sym (trim_space-to_lower s)
