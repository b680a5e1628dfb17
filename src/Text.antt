-- ===== src/Text.antt =====
-- Go's `strings` on ASCII text: a text is the list of its bytes. `ToLower` and `TrimSpace` act on
-- the ASCII letters and the ASCII white space, as Go does on such text.
pub mod Laws
pub mod Parts
use Prim.Native.Char.{code}
use Prim.Native.String.{String}
use opemail.Prelude.{
  ℕ, zero, suc, ◌+◌, ◌≡◌, refl, Bool, true, false, ◌&&◌, ◌||◌, not, List, [], ◌∷◌, ◌++◌, map, ltb,
  leb, ◌==◌, if◌then◌else◌,
}

abbrev pub Text : Type 0
Text = List ℕ

-- the bytes of a literal
abbrev pub codes : String → Text
codes String.[] = []
codes (String.◌∷◌ c s) = code c ∷ codes s

-- `s == t`
unfoldable pub eqb : Text → Text → Bool
eqb [] [] = true
eqb [] (d ∷ t) = false
eqb (c ∷ s) [] = false
eqb (c ∷ s) (d ∷ t) = (c == d) && eqb s t

unfoldable pub is_empty : Text → Bool
is_empty [] = true
is_empty (c ∷ s) = false

unfoldable pub lower : ℕ → ℕ
lower c = if leb b'A' c && leb c b'Z' then c + 32 else c

-- strings.ToLower
unfoldable pub to_lower : Text → Text
unfolding lower
to_lower [] = []
to_lower (c ∷ s) = lower c ∷ to_lower s

unfoldable pub is_space : ℕ → Bool
is_space c = c == b' ' || (leb 9 c && leb c 13)

unfoldable pub trim_left : Text → Text
unfolding is_space
trim_left [] = []
trim_left (c ∷ s) = let rest = trim_left s in if is_space c then rest else c ∷ s

-- `c` in front of a text that has no space at its end
unfoldable pub put_front : ℕ → Text → Text
unfolding is_space
put_front c [] = if is_space c then [] else c ∷ []
put_front c (d ∷ s) = c ∷ d ∷ s

unfoldable pub trim_right : Text → Text
unfolding put_front
trim_right [] = []
trim_right (c ∷ s) = put_front c (trim_right s)

-- strings.TrimSpace
unfoldable pub trim_space : Text → Text
unfolding trim_left trim_right
trim_space s = trim_right (trim_left s)

-- strings.HasPrefix(s, p)
unfoldable pub has_prefix : Text → Text → Bool
has_prefix s [] = true
has_prefix [] (d ∷ p) = false
has_prefix (c ∷ s) (d ∷ p) = (c == d) && has_prefix s p

-- strings.HasSuffix(s, p)
unfoldable pub has_suffix : Text → Text → Bool
unfolding eqb
has_suffix [] p = eqb [] p
has_suffix (c ∷ s) p = eqb (c ∷ s) p || has_suffix s p

-- strings.Contains(s, p)
unfoldable pub contains : Text → Text → Bool
unfolding has_prefix
contains [] p = has_prefix [] p
contains (c ∷ s) p = has_prefix (c ∷ s) p || contains s p

-- `c` in front of the first part
unfoldable pub onto_first : ℕ → List Text → List Text
onto_first c [] = (c ∷ []) ∷ []
onto_first c (p ∷ ps) = (c ∷ p) ∷ ps

-- strings.Split(s, sep) for a separator of one byte
unfoldable pub split : Text → ℕ → List Text
unfolding onto_first
split [] sep = [] ∷ []
split (c ∷ s) sep = let parts = split s sep in if c == sep then [] ∷ parts else onto_first c parts

-- strings.Join(parts, sep)
unfoldable pub join : List Text → Text → Text
join [] sep = []
join (p ∷ []) sep = p
join (p ∷ q ∷ ps) sep = p ++ (sep ++ join (q ∷ ps) sep)

-- strings.Fields, where `cur` is the word that is being read
unfoldable pub fields_from : Text → Text → List Text
unfolding is_space is_empty
fields_from cur [] = if is_empty cur then [] else cur ∷ []
fields_from cur (c ∷ s) =
    let ends = fields_from [] s in
    let goes_on = fields_from (cur ++ c ∷ []) s in
    if is_space c then (if is_empty cur then ends else cur ∷ ends) else goes_on

unfoldable pub fields : Text → List Text
unfolding fields_from
fields s = fields_from [] s

-- strings.EqualFold
unfoldable pub equal_fold : Text → Text → Bool
unfolding eqb to_lower
equal_fold s t = eqb (to_lower s) (to_lower t)

-- `strings.TrimSpace(strings.ToLower(s))`, the key under which the services look an account up
unfoldable pub canonical : Text → Text
unfolding trim_space to_lower
canonical s = trim_space (to_lower s)

-- `s[n:]`
abbrev pub drop : ℕ → Text → Text
drop zero s = s
drop (suc n) [] = []
drop (suc n) (c ∷ s) = drop n s

unfoldable pub trim_quotes_left : Text → Text
trim_quotes_left [] = []
trim_quotes_left (c ∷ s) = let rest = trim_quotes_left s in if c == 34 then rest else c ∷ s

unfoldable pub quote_front : ℕ → Text → Text
quote_front c [] = if c == 34 then [] else c ∷ []
quote_front c (d ∷ s) = c ∷ d ∷ s

unfoldable pub trim_quotes_right : Text → Text
unfolding quote_front
trim_quotes_right [] = []
trim_quotes_right (c ∷ s) = quote_front c (trim_quotes_right s)

-- strings.Trim(s, "\"")
unfoldable pub trim_quotes : Text → Text
unfolding trim_quotes_left trim_quotes_right
trim_quotes s = trim_quotes_right (trim_quotes_left s)

-- the last part, `parts[len(parts)-1]`
unfoldable pub last_part : List Text → Text
last_part [] = []
last_part (p ∷ []) = p
last_part (p ∷ q ∷ ps) = last_part (q ∷ ps)

-- `strings.ToLower(strings.TrimSpace(s))`
unfoldable pub folded : Text → Text
unfolding trim_space to_lower
folded s = to_lower (trim_space s)

-- a Go map with text keys, a missing key standing for the zero value; `m[k] = v`
abbrev pub update : {A : Type 0} → (Text → A) → Text → A → Text → A
update m k v j = if eqb k j then v else m j
