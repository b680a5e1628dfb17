-- ===== src/Ldap/Examples.antt =====
-- Filters for a hostile user name.
use opemail.Prelude.{◌≡◌, refl}
use opemail.Text.{Text, codes}
use opemail.Ldap.Filter.{build_user_filter}
use opemail.Ldap.Escape.{skeleton, skeleton-build_user_filter}

abbrev hostile : Text
hostile = codes "*)(uid=*"

skeleton-build_user_filter_example :
    skeleton (codes "(uid=\\2a\\29\\28uid=\\2a)") ≡ skeleton (codes "(uid=ana)")
unfolding build_user_filter opemail.Text.is_empty
skeleton-build_user_filter_example =
    skeleton-build_user_filter (codes "(uid={username})") hostile (codes "ana") refl refl
