-- ===== src/Ldap/Escape.antt =====
-- Escaped values cannot change a search filter.
use opemail.Prelude.{
  ℕ, ◌+◌, ◌*◌, ◌-◌, ◌≡◌, ◌≢◌, refl, sym, ◌∙◌, ap, Bool, not, ◌&&◌, ◌||◌, Option, none, some, [],
  ◌∷◌, ◌++◌, leb, ◌==◌, if◌then◌else◌, All, All-append, keep, length, zero, suc, arith, Bool-cases,
  inl, inr,
}
use opemail.Text.{Text, codes, contains, has_prefix}
use opemail.Exec.{Result, ok, err}
use opemail.Ldap.Filter.{
  escape_byte, escape_filter, count, replace_from, replace_all, default_user_filter, or_default,
  build_user_filter, FilterError, missing_placeholder, injection_detected,
}

-- a byte that the filter grammar does not read as its own
abbrev pub IsPlain : ℕ → Type 0
IsPlain c = (c ≢ b'*') × (c ≢ b'(') × (c ≢ b')') × (c ≢ 0)

escape_byte-IsPlain : (c : ℕ) → All IsPlain (escape_byte c)
unfolding escape_byte
escape_byte-IsPlain c = ground arith

-- An escaped value holds no asterisk, no parenthesis and no NUL, whatever the value.
escape_filter-IsPlain : (s : Text) → All IsPlain (escape_filter s)
unfolding escape_filter
escape_filter-IsPlain [] = tt
escape_filter-IsPlain (c ∷ s) =
    All-append IsPlain (escape_byte c) (escape_filter s) (escape_byte-IsPlain c)
      (escape_filter-IsPlain s)

-- The value of a hexadecimal digit.
unfoldable pub hex_value : ℕ → Option ℕ
hex_value c =
    if leb b'0' c && leb c b'9'
    then some (c - b'0')
    else if leb b'a' c && leb c b'f'
    then some (c - b'a' + 10)
    else none

-- RFC 4515: where a server stands in an assertion value; after a backslash it reads two digits.
pub data Reading : Type 0 where
  plain : Reading
  first : Reading
  second : ℕ → Reading

abbrev pub push : ℕ → Option Text → Option Text
push c none = none
push c (some s) = some (c ∷ s)

-- RFC 4515: the value that a server reads, or `none` where an escape is broken off or no hexadecimal.
unfoldable pub read_value : Reading → Text → Option Text
unfolding hex_value
read_value plain [] = some []
read_value first [] = none
read_value (second x) [] = none
read_value plain (c ∷ s) =
    let escape = read_value first s in
    let literal = push c (read_value plain s) in if c == b'\\' then escape else literal
read_value first (a ∷ s) = elim (hex_value a) [ none ↦ none | some x ↦ read_value (second x) s ]
read_value (second x) (b ∷ s) = elim (hex_value b) [
  | none ↦ none
  | some y ↦ push (x * 16 + y) (read_value plain s)
]

read_value-escape_byte :
    (c : ℕ) (rest : Text)
    → read_value plain (escape_byte c ++ rest) ≡ push c (read_value plain rest)
unfolding read_value escape_byte
read_value-escape_byte c rest = ground arith

-- A server that decodes by RFC 4515 reads from the escaped value exactly the value that was given.
read_value-escape_filter : (s : Text) → read_value plain (escape_filter s) ≡ some s
unfolding escape_filter
read_value-escape_filter [] = unfold read_value in refl
read_value-escape_filter (c ∷ s) =
    rw (read_value-escape_byte c (escape_filter s), read_value-escape_filter s)

-- the bytes that give a filter its structure
unfoldable pub is_special : ℕ → Bool
is_special c = c == b'*' || c == b'(' || c == b')' || c == 0

unfoldable pub skeleton : Text → Text
unfolding is_special
skeleton s = keep is_special s

skeleton-append : (s t : Text) → skeleton (s ++ t) ≡ skeleton s ++ skeleton t
unfolding skeleton
skeleton-append [] t = refl
skeleton-append (c ∷ s) t = ground (arith, skeleton-append s t)

skeleton-cons : (c : ℕ) (s t : Text) → skeleton s ≡ skeleton t → skeleton (c ∷ s) ≡ skeleton (c ∷ t)
unfolding skeleton
skeleton-cons c s t h = ground arith

skeleton-escape_byte : (c : ℕ) → skeleton (escape_byte c) ≡ []
unfolding skeleton escape_byte
skeleton-escape_byte c = ground arith

skeleton-escape_filter : (s : Text) → skeleton (escape_filter s) ≡ []
unfolding escape_filter
skeleton-escape_filter [] = unfold skeleton in refl
skeleton-escape_filter (c ∷ s) = rw (
  skeleton-append (escape_byte c) (escape_filter s),
  skeleton-escape_byte c,
  skeleton-escape_filter s,
)

skeleton-replace_from :
    (k : ℕ) (s old new : Text)
    → skeleton new ≡ []
    → skeleton (replace_from k s old new) ≡ skeleton (replace_from k s old [])
unfolding replace_from
skeleton-replace_from k [] old new h = refl
skeleton-replace_from (suc k) (c ∷ s) old new h = skeleton-replace_from k s old new h
skeleton-replace_from zero (c ∷ s) old new h = elim (Bool-cases (has_prefix (c ∷ s) old)) [
  | inl hit ↦
      rw (hit, skeleton-append new (replace_from (length old - 1) s old new), h)
        (skeleton-replace_from (length old - 1) s old new h)
  | inr miss ↦ rw miss (skeleton-cons c _ _ (skeleton-replace_from zero s old new h))
]

count-skeleton-open : (s : Text) → count s b'(' ≡ count (skeleton s) b'('
unfolding count skeleton
count-skeleton-open [] = refl
count-skeleton-open (c ∷ s) = ground (arith, count-skeleton-open s)

count-skeleton-close : (s : Text) → count s b')' ≡ count (skeleton s) b')'
unfolding count skeleton
count-skeleton-close [] = refl
count-skeleton-close (c ∷ s) = ground (arith, count-skeleton-close s)

-- the filter before its parentheses are counted
filled : Text → Text → Text
filled template u =
    replace_all (or_default default_user_filter template) (codes "{username}") (escape_filter u)

skeleton-filled :
    (template u v : Text) → skeleton (filled template u) ≡ skeleton (filled template v)
unfolding filled replace_all
skeleton-filled template u v =
    let t = or_default default_user_filter template in
    skeleton-replace_from 0 t (codes "{username}") (escape_filter u) (skeleton-escape_filter u)
    ∙ sym (
        skeleton-replace_from 0 t (codes "{username}") (escape_filter v) (skeleton-escape_filter v))

count-filled_open :
    (template u v : Text) → count (filled template u) b'(' ≡ count (filled template v) b'('
count-filled_open template u v =
    count-skeleton-open (filled template u)
    ∙ ap (λ s. count s b'(') (skeleton-filled template u v)
    ∙ sym (count-skeleton-open (filled template v))

count-filled_close :
    (template u v : Text) → count (filled template u) b')' ≡ count (filled template v) b')'
count-filled_close template u v =
    count-skeleton-close (filled template u)
    ∙ ap (λ s. count s b')') (skeleton-filled template u v)
    ∙ sym (count-skeleton-close (filled template v))

-- the error of a refused filter
abbrev pub refusal : Result FilterError Text → Option FilterError
refusal (ok f) = none
refusal (err e) = some e

built : Text → Text → Text → Result FilterError Text
built template u f =
    let t = or_default default_user_filter template in
    if not (contains t (codes "{username}"))
    then err missing_placeholder
    else if not (count f b'(' == count f b')') || count f b'(' == 0
    then err injection_detected
    else ok f

build_user_filter-built :
    (template u : Text) → build_user_filter template u ≡ built template u (filled template u)
unfolding build_user_filter built filled
build_user_filter-built template u = refl

built-ok : (template u f g : Text) → built template u f ≡ ok g → f ≡ g
unfolding built
built-ok template u f g h = ground arith

-- Whether a template is refused, and with which error, does not depend on the user name.
refusal-build_user_filter :
    (template u v : Text)
    → refusal (build_user_filter template u) ≡ refusal (build_user_filter template v)
unfolding built
refusal-build_user_filter template u v =
    rw (build_user_filter-built template u, build_user_filter-built template v)
      (ground (arith, count-filled_open template u v, count-filled_close template u v))

-- Two filters that are built from one template have the same parentheses, asterisks and NULs in
-- the same order, whatever the user names.
pub skeleton-build_user_filter :
    (template u v : Text) {f g : Text}
    → build_user_filter template u ≡ ok f
    → build_user_filter template v ≡ ok g
    → skeleton f ≡ skeleton g
skeleton-build_user_filter template u v {f} {g} p q =
    ap skeleton (sym (built-ok template u _ f (sym (build_user_filter-built template u) ∙ p)))
    ∙ skeleton-filled template u v
    ∙ ap skeleton (built-ok template v _ g (sym (build_user_filter-built template v) ∙ q))
