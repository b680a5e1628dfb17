-- ===== src/Provisioning/Agreement.antt =====
-- The provisioner and the webmail on where mail lies.
use opemail.Prelude.{◌≡◌, refl, Bool, true, false, ◌||◌, List, [], ◌∷◌, arith, if◌then◌else◌}
use opemail.Text.{Text, is_empty, canonical, split}
use opemail.Exec.{ok, err}
use opemail.Paths.{FilePath}
use opemail.Provisioning.{invalid_mailbox, path_traversal, path_of, calculate_path}
use opemail.Webmail.Folders.{bad_part, maildir_of, get_maildir_path}

-- the four tests were passed
pub accepted :
    (a b c d : Bool) (m p : FilePath)
    → (if a
        then err invalid_mailbox
        else if b
        then err path_traversal
        else if c
        then err invalid_mailbox
        else if d
        then err path_traversal
        else ok m)
      ≡ ok p
    → (a ≡ false) × (b ≡ false) × (c ≡ false) × (d ≡ false) × (m ≡ p)
accepted true b c d m p h = ground arith
accepted false true c d m p h = ground arith
accepted false false true d m p h = ground arith
accepted false false false true m p h = ground arith
accepted false false false false m p h = (refl, refl, refl, refl, ground arith)

agree :
    (root : FilePath) (ps : List Text) (p : FilePath)
    → path_of root ps ≡ ok p
    → maildir_of root ps ≡ ok p
agree root [] p h = ground arith
agree root (l ∷ []) p h = ground arith
agree root (l ∷ d ∷ e ∷ ps) p h = ground arith
agree root (l ∷ d ∷ []) p h =
    let (a, b, c, e, same) = accepted (is_empty l || is_empty d) _ _ _ _ p h in
    let plain : bad_part l || bad_part d ≡ false = ground arith in rw (a, plain, same) refl

-- Wherever the provisioner puts the mail of an address, the webmail looks for it.
pub webmail_agrees :
    (root : FilePath) (email : Text) (p : FilePath)
    → calculate_path root email ≡ ok p
    → get_maildir_path root email ≡ ok p
unfolding calculate_path get_maildir_path
webmail_agrees root email p h = agree root (split (canonical email) b'@') p h
