-- ===== src/Dkim/Record/RoundTrip.antt =====
-- The record that is built for a key is parsed back to the key.
use opemail.Prelude.{
  ◌≡◌, refl, ap, ℕ, Bool, true, false, ◌&&◌, ◌||◌, some, [], ◌∷◌, ◌++◌, all, any, keep, leb, ◌==◌,
  arith,
}
use opemail.Text.{
  Text, codes, eqb, to_lower, is_empty, is_space, trim_space, trim_left, trim_right, put_front,
  trim_quotes, trim_quotes_left, trim_quotes_right, quote_front, split, onto_first,
}
use opemail.Text.Parts.{cut, without, to_upper}
use opemail.Paths.Inside.{split_plain}
use opemail.Dkim.Selector.{build_dns_txt_value}
use opemail.Dkim.Record.{
  parse_dns_txt_record, tags_of, read_tags, read_tag, no_tags, without_blanks,
}

-- the letters of the standard base64 alphabet, with its padding
unfoldable pub is_base64 : ℕ → Bool
is_base64 c =
    (leb b'A' c && leb c b'Z')
    || (leb b'a' c && leb c b'z')
    || (leb b'0' c && leb c b'9')
    || (c == b'+')
    || (c == b'/')
    || (c == b'=')

-- a text of such letters that is not empty
pub record IsBase64 (s : Text) : Type 0 where
  pub letters : all is_base64 s ≡ true
  pub some_letter : is_empty s ≡ false

base64_plain :
    (c : ℕ) → is_base64 c ≡ true → (is_space c ≡ false) × ((c == 59) ≡ false) × ((c == 34) ≡ false)
unfolding is_base64 is_space
base64_plain c h = ground arith

keep-all : (p : ℕ → Bool) (s : Text) → all p s ≡ true → keep p s ≡ s
keep-all p [] h = refl
keep-all p (c ∷ s) h = ground (arith, keep-all p s)

module _ where
  no_semicolon : (s : Text) → all is_base64 s ≡ true → any (λ c. c == 59) s ≡ false
  no_semicolon [] h = refl
  no_semicolon (c ∷ s) h = ground (arith, base64_plain c, no_semicolon s)

  trim_right_base64 : (s : Text) → all is_base64 s ≡ true → trim_right s ≡ s
  unfolding trim_right put_front
  trim_right_base64 [] h = refl
  trim_right_base64 (c ∷ []) h = ground (arith, base64_plain c)
  trim_right_base64 (c ∷ d ∷ s) h = rw (trim_right_base64 (d ∷ s) (ground arith)) refl

  trim_quotes_base64 : (s : Text) → all is_base64 s ≡ true → trim_quotes_right s ≡ s
  unfolding trim_quotes_right quote_front
  trim_quotes_base64 [] h = refl
  trim_quotes_base64 (c ∷ []) h = ground (arith, base64_plain c)
  trim_quotes_base64 (c ∷ d ∷ s) h = rw (trim_quotes_base64 (d ∷ s) (ground arith)) refl

  without_blanks_base64 : (s : Text) → all is_base64 s ≡ true → without_blanks s ≡ s
  unfolding without_blanks without is_base64
  without_blanks_base64 [] h = refl
  without_blanks_base64 (c ∷ s) h = ground (arith, without_blanks_base64 s)

-- text in front of a key does not change where it ends
put_front-some : (c : ℕ) (s : Text) → is_empty s ≡ false → put_front c s ≡ c ∷ s
unfolding put_front is_empty
put_front-some c [] h = ground arith
put_front-some c (d ∷ s) h = refl

quote_front-some : (c : ℕ) (s : Text) → is_empty s ≡ false → quote_front c s ≡ c ∷ s
unfolding quote_front is_empty
quote_front-some c [] h = ground arith
quote_front-some c (d ∷ s) h = refl

empty-append : (p s : Text) → is_empty s ≡ false → is_empty (p ++ s) ≡ false
unfolding is_empty
empty-append [] s h = h
empty-append (c ∷ p) s h = refl

trim_right-append : (p s : Text) → IsBase64 s → trim_right (p ++ s) ≡ p ++ s
unfolding trim_right
trim_right-append [] s b = trim_right_base64 s b.letters
trim_right-append (c ∷ p) s b =
    rw (trim_right-append p s b) (put_front-some c (p ++ s) (empty-append p s b.some_letter))

quotes-append : (p s : Text) → IsBase64 s → trim_quotes_right (p ++ s) ≡ p ++ s
unfolding trim_quotes_right
quotes-append [] s b = trim_quotes_base64 s b.letters
quotes-append (c ∷ p) s b =
    rw (quotes-append p s b) (quote_front-some c (p ++ s) (empty-append p s b.some_letter))

tags_of-build :
    (key : Text)
    → IsBase64 key
    → tags_of (build_dns_txt_value key)
      ≡ read_tags no_tags (codes "v=DKIM1" ∷ codes " k=rsa" ∷ (codes " p=" ++ key) ∷ [])
unfolding tags_of build_dns_txt_value trim_space trim_left is_space trim_quotes trim_quotes_left
    split onto_first
tags_of-build key b = rw (trim_right-append (codes "v=DKIM1; k=rsa; p=") key b) (
    rw (quotes-append (codes "v=DKIM1; k=rsa; p=") key b)
      (rw (split_plain key 59 (no_semicolon key b.letters)) refl))

trim_left_base64 : (s : Text) → all is_base64 s ≡ true → trim_left s ≡ s
unfolding trim_left
trim_left_base64 [] h = refl
trim_left_base64 (c ∷ s) h = ground (arith, base64_plain c)

trim_space_base64 : (s : Text) → IsBase64 s → trim_space s ≡ s
unfolding trim_space
trim_space_base64 s b = rw (trim_left_base64 s b.letters) (trim_right_base64 s b.letters)

part_p : (key : Text) → IsBase64 key → trim_space (codes " p=" ++ key) ≡ codes "p=" ++ key
unfolding trim_space trim_left is_space
part_p key b = trim_right-append (codes "p=") key b

-- The parser gives back the key that the record was built for.
pub parse-build :
    (key : Text) → IsBase64 key → parse_dns_txt_record (build_dns_txt_value key) ≡ some key
unfolding parse_dns_txt_record read_tags read_tag cut eqb to_lower to_upper
parse-build key b =
    rw (tags_of-build key b, part_p key b)
      (rw (trim_space_base64 key b)
        (rw b.some_letter (ap some (without_blanks_base64 key b.letters))))
