-- ===== src/Ldap/Filter.antt =====
-- internal/identity/ldap/filter.go: escaping by RFC 4515 and RFC 4514, and the filter builders.
use opemail.Prelude.{ℕ, zero, suc, ◌+◌, ◌-◌, length, not, ◌||◌, [], ◌∷◌, ◌++◌, ◌==◌, if◌then◌else◌}
use opemail.Text.{Text, codes, is_empty, contains, has_prefix}
use opemail.Exec.{Result, ok, err}

pub data FilterError : Type 0 where
  missing_placeholder injection_detected : FilterError

-- one round of the loop of `EscapeFilter`
unfoldable pub escape_byte : ℕ → Text
escape_byte c =
    if c == b'\\'
    then codes "\\5c"
    else if c == b'*'
    then codes "\\2a"
    else if c == b'('
    then codes "\\28"
    else if c == b')'
    then codes "\\29"
    else if c == 0
    then codes "\\00"
    else c ∷ []

unfoldable pub escape_filter : Text → Text
unfolding escape_byte
escape_filter [] = []
escape_filter (c ∷ s) = escape_byte c ++ escape_filter s

-- the `switch` of `EscapeDN`
unfoldable pub escape_dn_byte : ℕ → Text
escape_dn_byte c =
    if c == b'\\'
      || c == b','
      || c == b'+'
      || c == 34
      || c == b'<'
      || c == b'>'
      || c == b';'
      || c == b'='
    then b'\\' ∷ c ∷ []
    else if c == 0
    then codes "\\00"
    else c ∷ []

-- the rounds of `EscapeDN` after the first one, where the last byte has a rule of its own
unfoldable pub escape_dn_rest : Text → Text
unfolding escape_dn_byte
escape_dn_rest [] = []
escape_dn_rest (c ∷ []) = if c == b' ' then b'\\' ∷ c ∷ [] else escape_dn_byte c
escape_dn_rest (c ∷ d ∷ s) = escape_dn_byte c ++ escape_dn_rest (d ∷ s)

unfoldable pub escape_dn : Text → Text
unfolding escape_dn_rest
escape_dn [] = []
escape_dn (c ∷ s) =
    if c == b' ' || c == b'#' then b'\\' ∷ c ∷ escape_dn_rest s else escape_dn_rest (c ∷ s)

-- strings.ReplaceAll(s, old, new) for an `old` that is not empty; `skip` counts the bytes of a match that
-- are still to be passed over
unfoldable pub replace_from : ℕ → Text → Text → Text → Text
unfolding has_prefix
replace_from skip [] old new = []
replace_from (suc k) (c ∷ s) old new = replace_from k s old new
replace_from zero (c ∷ s) old new =
    let hit = new ++ replace_from (length old - 1) s old new in
    let miss = c ∷ replace_from zero s old new in if has_prefix (c ∷ s) old then hit else miss

unfoldable pub replace_all : Text → Text → Text → Text
unfolding replace_from
replace_all s old new = replace_from 0 s old new

-- strings.Count(s, string(b))
unfoldable pub count : Text → ℕ → ℕ
count [] b = 0
count (c ∷ s) b = (if c == b then 1 else 0) + count s b

abbrev pub default_user_filter : Text
default_user_filter = codes "(|(mail={username})(uid={username}))"

abbrev pub default_group_filter : Text
default_group_filter = codes "(|(member={dn})(uniqueMember={dn}))"

abbrev pub or_default : Text → Text → Text
or_default default template = if is_empty template then default else template

unfoldable pub build_user_filter : Text → Text → Result FilterError Text
unfolding escape_filter replace_all contains count
build_user_filter template username =
    let t = or_default default_user_filter template in
    let filter = replace_all t (codes "{username}") (escape_filter username) in
    if not (contains t (codes "{username}"))
    then err missing_placeholder
    else if not (count filter b'(' == count filter b')') || count filter b'(' == 0
    then err injection_detected
    else ok filter

unfoldable pub build_group_filter : Text → Text → Text → Text
unfolding escape_filter replace_all
build_group_filter template user_dn username =
    replace_all
      (replace_all (or_default default_group_filter template) (codes "{dn}")
        (escape_filter user_dn))
      (codes "{username}") (escape_filter username)
