-- ===== src/Dkim/Record.antt =====
-- `ParseDNSTXTRecord` of internal/dkim/validator.go.
pub mod RoundTrip
use opemail.Prelude.{
  ℕ, Bool, true, false, not, ◌||◌, Option, none, some, List, [], ◌∷◌, if◌then◌else◌, ◌==◌,
}
use opemail.Text.{Text, codes, eqb, is_empty, trim_space, trim_quotes, split, to_lower, update}
use opemail.Text.Parts.{cut, without, to_upper}

abbrev pub Tags : Type 0
Tags = Text → Option Text

abbrev pub no_tags : Tags
no_tags k = none

abbrev pub tag_of : Tags → Text × Option Text → Tags
tag_of tags (k, none) = tags
tag_of tags (k, some v) = update tags (trim_space (to_lower k)) (some (trim_space v))

-- one part between semicolons
unfoldable pub read_tag : Tags → Text → Tags
unfolding is_empty trim_space cut
read_tag tags part =
    if is_empty (trim_space part) then tags else tag_of tags (cut (trim_space part) b'=')

unfoldable pub read_tags : Tags → List Text → Tags
unfolding read_tag
read_tags tags [] = tags
read_tags tags (p ∷ ps) = read_tags (read_tag tags p) ps

unfoldable pub tags_of : Text → Tags
unfolding read_tags split trim_quotes trim_space
tags_of txt = read_tags no_tags (split (trim_quotes (trim_space txt)) b';')

-- the value of the tag `v` is DKIM1
abbrev pub is_dkim1 : Option Text → Bool
is_dkim1 none = false
is_dkim1 (some v) = eqb (to_upper v) (codes "DKIM1")

unfoldable pub without_blanks : Text → Text
unfolding without
without_blanks p = without 13 (without 10 (without 9 (without 32 p)))

abbrev pub key_of : Option Text → Option Text
key_of none = none
key_of (some p) = if is_empty p then none else some (without_blanks p)

-- the public key, and none for an error
unfoldable pub parse_dns_txt_record : Text → Option Text
unfolding tags_of
parse_dns_txt_record txt =
    if is_dkim1 (tags_of txt (codes "v")) then key_of (tags_of txt (codes "p")) else none
