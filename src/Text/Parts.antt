-- ===== src/Text/Parts.antt =====
-- More of Go's `strings` on ASCII text: the functions that cut a text into parts.
use opemail.Prelude.{
  ℕ, suc, ◌-◌, Bool, not, ◌&&◌, Option, none, some, [], ◌∷◌, any, keep, take, leb, ◌==◌,
  if◌then◌else◌,
}
use opemail.Text.{Text, has_prefix}

unfoldable pub upper : ℕ → ℕ
upper c = if leb b'a' c && leb c b'z' then c - 32 else c

-- strings.ToUpper
unfoldable pub to_upper : Text → Text
unfolding upper
to_upper [] = []
to_upper (c ∷ s) = upper c ∷ to_upper s

-- strings.SplitN(s, sep, 2) for a separator of one byte: what is before the first one and, if there is one, what is
-- after it
unfoldable pub cut : Text → ℕ → Text × Option Text
cut [] sep = ([], none)
cut (c ∷ s) sep = let rest = cut s sep in if c == sep then ([], some s) else (c ∷ rest.0, rest.1)

-- strings.ReplaceAll(s, b, "") for a text `b` of one byte
unfoldable pub without : ℕ → Text → Text
without b s = keep (λ c. not (c == b)) s

-- strings.ContainsAny(s, bs)
unfoldable pub contains_any : Text → Text → Bool
contains_any s bs = any (λ c. any (λ b. c == b) bs) s

-- strings.Index(s, p); `-1` is none
unfoldable pub index : Text → Text → Option ℕ
unfolding has_prefix
index [] p = if has_prefix [] p then some 0 else none
index (c ∷ s) p =
    let rest = index s p in
    if has_prefix (c ∷ s) p then some 0 else elim rest [ none ↦ none | some i ↦ some (suc i) ]

-- `if idx := strings.Index(s, p); idx != -1 { s = s[:idx] }`
unfoldable pub before : Text → Text → Text
unfolding index
before s p = elim (index s p) [ none ↦ s | some i ↦ take i s ]

-- strings.TrimPrefix(s, p) for a text `p` of one byte
unfoldable pub trim_first : ℕ → Text → Text
trim_first b [] = []
trim_first b (c ∷ s) = if c == b then s else c ∷ s

-- strings.TrimSuffix(s, p) for a text `p` of one byte
unfoldable pub trim_last : ℕ → Text → Text
trim_last b [] = []
trim_last b (c ∷ []) = if c == b then [] else c ∷ []
trim_last b (c ∷ d ∷ s) = c ∷ trim_last b (d ∷ s)
