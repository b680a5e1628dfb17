-- ===== src/Tls/Loading.antt =====
-- `Load` after `Install`.
use opemail.Prelude.{◌≡◌, refl, sym, ◌+◌, ℕ}
use mathlib.Core.Path.{subst}
use opemail.Text.{Text}
use opemail.Exec.{ok, fail_with, pure, ◌>>=◌}
use opemail.Exec.Outcomes.{bind_ok}
use opemail.Database.{Db, IsUp}
use opemail.Paths.{FilePath}
use opemail.Disk.{Disk, Node, file, read_file}
use opemail.Tls.Model.{Certificate, CertificateReport, Library}
use opemail.Tls.Store.{get_paths, install, load}
use opemail.Tls.Validation.{validate_bytes}
use opemail.Tls.Renewal.{Pair, renewal_atomic}

-- the certificate with the paths of its files
abbrev pub with_paths : FilePath → Text → Certificate → Certificate
with_paths base hostname c = record c {
  cert_file = (get_paths base hostname).0;
  key_file = (get_paths base hostname).1;
}

module _ (lib : Library) (base : FilePath) (now : ℕ) (hostname cert_pem key_pem : Text) where
  load-Pair :
      (s : Db Disk) (c : Certificate) (m m' t t' : ℕ)
      → IsUp s
      → Pair base hostname (file key_pem m t) (file cert_pem m' t') s.rows
      → (validate_bytes lib now cert_pem key_pem hostname).1 ≡ ok c
      → (load lib base now hostname s).0 ≡ ok (with_paths base hostname c)
  unfolding load read_file fail_with pure ◌>>=◌
  load-Pair s c m m' t t' up p valid =
      rw (up s.statements, p.cert_node, up (s.statements + 1), p.key_node, valid) refl

  -- Over a certificate that is there, what `install` installs can be loaded: once it has returned, `load` at the same
  -- time, with the disk as it was left and a disk that answers, returns the certificate that `validate_bytes` made of
  -- the two texts, with the paths of its files.
  pub load-install :
      (drawn drawn' : Text) (k c : Node) (s later : Db Disk) (report : CertificateReport)
      → Pair base hostname k c s.rows
      → (install lib base now drawn drawn' hostname cert_pem key_pem s).0 ≡ ok report
      → later.rows ≡ (install lib base now drawn drawn' hostname cert_pem key_pem s).1.rows
      → IsUp later
      → (x : Certificate) × ((validate_bytes lib now cert_pem key_pem hostname).1 ≡ ok x)
        × ((load lib base now hostname later).0 ≡ ok (with_paths base hostname x))
  unfolding install
  load-install drawn drawn' k c s later report p h same up =
      let (x, valid, h1) = bind_ok _ _ s report h in
      let there =
        (renewal_atomic lib base now drawn drawn' hostname cert_pem key_pem k c s p).0 report h in
      (
        x,
        valid,
        load-Pair later x 384 420 now now up
            (subst (Pair base hostname (file key_pem 384 now) (file cert_pem 420 now)) (sym same)
              there)
            valid,
      )
