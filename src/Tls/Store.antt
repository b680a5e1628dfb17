-- ===== src/Tls/Store.antt =====
-- internal/tls/filesystem.go, and `Install` of service.go.
use opemail.Prelude.{ℕ, Option, none, some, [], ◌∷◌, ◌++◌}
use opemail.Text.{Text, codes}
use opemail.Exec.{Result, ok, err, Exec, pure, fail_with, ◌>>=◌, ◌>>◌}
use opemail.Database.{DbError, Db, statement}
use opemail.Paths.{FilePath, enter}
use opemail.Disk.{Disk, mkdir_all, create_new, overwrite, chmod, rename_file, remove, read_file}
use opemail.Tls.Model.{
  TlsError, Library, Certificate, CertificateReport, certificate_not_found, failed,
}
use opemail.Tls.Validation.{empty_report, Verdict, validate_bytes}

unfoldable pub get_paths : FilePath → Text → FilePath × FilePath
unfolding enter
get_paths base hostname =
    (codes "fullchain.pem" ∷ enter base hostname, codes "privkey.pem" ∷ enter base hostname)

-- a system call whose error is returned
abbrev pub failing :
    {A : Type 0} → TlsError → (Disk → Result DbError (A × Disk)) → Exec (Db Disk) TlsError A
failing e run = fail_with e (statement run)

abbrev pub lift : {A : Type 0} → Result TlsError A → Exec (Db Disk) TlsError A
lift r s = (r, s)

-- the temporary file from its creation on: written, flushed, given its mode, closed, and renamed
unfoldable pub write_and_rename :
    ℕ → FilePath → FilePath → Text → ℕ → Exec (Db Disk) TlsError (Unit {0})
unfolding overwrite chmod rename_file
write_and_rename now tmp target content perm = do
  failing failed (overwrite tmp content now)
  failing failed (λ d. ok (tt, d))
  failing failed (chmod tmp perm)
  failing failed (λ d. ok (tt, d))
  failing failed (rename_file tmp target)

-- `defer func() { _ = os.Remove(tmp) }()`
abbrev pub removing :
    {A : Type 0} → FilePath → Exec (Db Disk) TlsError A → Exec (Db Disk) TlsError A
removing tmp m s = ((m s).0, (statement (remove tmp) (m s).1).1)

abbrev pub temporary : FilePath → Text → FilePath
temporary [] drawn = []
temporary (name ∷ dir) drawn = (name ++ (codes ".tmp-" ++ drawn)) ∷ dir

unfoldable pub atomic_write_secret :
    ℕ → Text → FilePath → Text → ℕ → Exec (Db Disk) TlsError (Unit {0})
unfolding create_new remove write_and_rename
atomic_write_secret now drawn target content perm = do
  failing failed (create_new 384 now (temporary target drawn))
  removing (temporary target drawn)
      (write_and_rename now (temporary target drawn) target content perm)

abbrev pub error_of : {A : Type 0} → Result TlsError A → Option TlsError
error_of (ok a) = none
error_of (err e) = some e

abbrev pub reported : Verdict → CertificateReport × Option TlsError
reported (report, r) = (report, error_of r)

-- a file that cannot be read leaves the empty report
abbrev pub or_missing :
    CertificateReport
    → Exec (Db Disk) TlsError (CertificateReport × Option TlsError)
    → Exec (Db Disk) TlsError (CertificateReport × Option TlsError)
or_missing report m s = elim (m s).0 [
  | ok v ↦ (ok v, (m s).1)
  | err e ↦ (ok (report, some e), (m s).1)
]

module _ (lib : Library) (base : FilePath) where
  -- `drawn` and `drawn'` are the ends of the names that os.CreateTemp picks
  unfoldable pub install :
      ℕ → Text → Text → Text → Text → Text → Exec (Db Disk) TlsError CertificateReport
  unfolding validate_bytes get_paths enter mkdir_all atomic_write_secret
  install now drawn drawn' hostname cert_pem key_pem = do
    cert ← lift (validate_bytes lib now cert_pem key_pem hostname).1
    failing failed (mkdir_all 488 (enter base hostname))
    atomic_write_secret now drawn (get_paths base hostname).1 key_pem 384
    atomic_write_secret now drawn' (get_paths base hostname).0 cert_pem 420
    pure (validate_bytes lib now cert_pem key_pem hostname).0

  unfoldable pub load : ℕ → Text → Exec (Db Disk) TlsError Certificate
  unfolding validate_bytes get_paths read_file
  load now hostname = do
    cert_pem ← failing certificate_not_found (read_file (get_paths base hostname).0)
    key_pem ← failing certificate_not_found (read_file (get_paths base hostname).1)
    c ← lift (validate_bytes lib now cert_pem key_pem hostname).1
    pure (record c {
      cert_file = (get_paths base hostname).0;
      key_file = (get_paths base hostname).1;
    })

  -- with its error, where there is one
  unfoldable pub validate : ℕ → Text → Exec (Db Disk) TlsError (CertificateReport × Option TlsError)
  unfolding validate_bytes get_paths read_file
  validate now hostname = or_missing (empty_report hostname) (do
    cert_pem ← failing certificate_not_found (read_file (get_paths base hostname).0)
    key_pem ← failing certificate_not_found (read_file (get_paths base hostname).1)
    pure (reported (validate_bytes lib now cert_pem key_pem hostname)))

  -- `Install` of the service
  unfoldable pub install_files :
      ℕ → Text → Text → Text → FilePath → FilePath → Exec (Db Disk) TlsError CertificateReport
  unfolding read_file install
  install_files now drawn drawn' hostname cert_file key_file = do
    cert_pem ← failing failed (read_file cert_file)
    key_pem ← failing failed (read_file key_file)
    install now drawn drawn' hostname cert_pem key_pem
