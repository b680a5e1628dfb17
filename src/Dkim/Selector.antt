-- ===== src/Dkim/Selector.antt =====
-- internal/dkim/selector.go.
use opemail.Prelude.{
  ℕ, Bool, false, ◌&&◌, ◌||◌, [], ◌∷◌, ◌++◌, all, length, leb, ◌==◌, if◌then◌else◌,
}
use opemail.Text.{Text, codes, canonical, contains, folded, is_empty}

abbrev pub is_selector_start : ℕ → Bool
is_selector_start c = (leb b'a' c && leb c b'z') || (leb b'0' c && leb c b'9')

abbrev pub is_selector_char : ℕ → Bool
is_selector_char c = is_selector_start c || (c == b'.') || (c == b'_') || (c == b'-')

-- `^[a-z0-9][a-z0-9._-]{0,62}$`
unfoldable pub matches_selector : Text → Bool
matches_selector [] = false
matches_selector (c ∷ s) = is_selector_start c && leb (length s) 62 && all is_selector_char s

-- `ValidateSelector(selector) == nil`
unfoldable pub is_valid_selector : Text → Bool
is_valid_selector selector =
    let s = canonical selector in
    if is_empty s
    then false
    else if contains s (codes "/") || contains s (codes "\\") || contains s (codes "..")
    then false
    else matches_selector s

unfoldable pub build_dns_name : Text → Text → Text
build_dns_name domain selector = folded selector ++ (codes "._domainkey." ++ folded domain)

unfoldable pub build_dns_txt_value : Text → Text
build_dns_txt_value public_key_dns = codes "v=DKIM1; k=rsa; p=" ++ public_key_dns
