-- ===== src/Tls/Renewal.antt =====
-- `Install` over a certificate that is there.
use opemail.Prelude.{◌≡◌, refl, ◌∙◌, ◌⊎◌, inl, inr, ℕ, some}
use opemail.Text.{Text, eqb}
use opemail.Exec.{Result, ok, err}
use opemail.Exec.Ends.{Ends, Ends-bind, Ends-pure, Ends-weaken, Ends-fail_with}
use opemail.Database.{Db, statement}
use opemail.Database.Statements.{statement-Ends}
use opemail.Paths.{FilePath, enter, same}
use opemail.Disk.{Node, Disk, node_at, file, mkdir_all}
use opemail.Webmail.Writes.{mkdir-keeps}
use opemail.Tls.Model.{TlsError, CertificateReport, Library, failed}
use opemail.Tls.Store.{failing, lift, atomic_write_secret, temporary, get_paths, install}
use opemail.Tls.Replace.Writes.{atomic_write_secret-Ends}
use opemail.Tls.Replace.{Replaced-target, Replaced-other}

-- the nodes of the two files of a host
pub record Pair (base : FilePath) (hostname : Text) (key cert : Node) (d : Disk) : Type 0 where
  pub key_node : node_at (get_paths base hostname).1 d ≡ some key
  pub cert_node : node_at (get_paths base hostname).0 d ≡ some cert

lift-Ends :
    {A : Type 0} (r : Result TlsError A) (P : Disk → Type 0)
    → Ends (λ s. P s.rows) (λ a s. P s.rows) (λ s. P s.rows) (lift r)
lift-Ends r P = record { value = λ s p a e. p; error = λ s p x e. p }

module _ (base : FilePath) (hostname : Text) where
  mkdir-Ends :
      (k c : Node)
      → Ends
          (λ s. Pair base hostname k c s.rows)
          (λ u s. Pair base hostname k c s.rows)
          (λ s. Pair base hostname k c s.rows)
          (failing failed (mkdir_all 488 (enter base hostname)))
  mkdir-Ends k c = Ends-fail_with failed (statement (mkdir_all 488 (enter base hostname))) (
      statement-Ends (Pair base hostname k c) (Pair base hostname k c) _ (λ t u r p e. record {
        key_node = mkdir-keeps 488 (enter base hostname) _ k t r u e p.key_node;
        cert_node = mkdir-keeps 488 (enter base hostname) _ c t r u e p.cert_node;
      }))

  module _ (now : ℕ) (drawn : Text) (pem : Text) (k c : Node) where
    key-Ends :
        Ends
          (λ s. Pair base hostname k c s.rows)
          (λ u s. Pair base hostname (file pem 384 now) c s.rows)
          (λ s. Pair base hostname k c s.rows)
          (atomic_write_secret now drawn (get_paths base hostname).1 pem 384)
    unfolding get_paths same eqb
    key-Ends = record {
      value = λ s p u e.
          let after =
            (atomic_write_secret-Ends now drawn (get_paths base hostname).1 pem 384 s.rows).value s
              refl u e in
          record {
            key_node =
                Replaced-target (temporary (get_paths base hostname).1 drawn)
                  (get_paths base hostname).1 (file pem 384 now) s.rows _ after refl;
            cert_node =
                Replaced-other (temporary (get_paths base hostname).1 drawn)
                  (get_paths base hostname).1 (file pem 384 now) s.rows _ after _ refl refl
                ∙ p.cert_node;
          };
      error = λ s p x e.
          let after =
            (atomic_write_secret-Ends now drawn (get_paths base hostname).1 pem 384 s.rows).error s
              refl x e in
          record { key_node = after _ refl ∙ p.key_node; cert_node = after _ refl ∙ p.cert_node };
    }

    cert-Ends :
        Ends
          (λ s. Pair base hostname k c s.rows)
          (λ u s. Pair base hostname k (file pem 420 now) s.rows)
          (λ s. Pair base hostname k c s.rows)
          (atomic_write_secret now drawn (get_paths base hostname).0 pem 420)
    unfolding get_paths same eqb
    cert-Ends = record {
      value = λ s p u e.
          let after =
            (atomic_write_secret-Ends now drawn (get_paths base hostname).0 pem 420 s.rows).value s
              refl u e in
          record {
            key_node =
                Replaced-other (temporary (get_paths base hostname).0 drawn)
                  (get_paths base hostname).0 (file pem 420 now) s.rows _ after _ refl refl
                ∙ p.key_node;
            cert_node =
                Replaced-target (temporary (get_paths base hostname).0 drawn)
                  (get_paths base hostname).0 (file pem 420 now) s.rows _ after refl;
          };
      error = λ s p x e.
          let after =
            (atomic_write_secret-Ends now drawn (get_paths base hostname).0 pem 420 s.rows).error s
              refl x e in
          record { key_node = after _ refl ∙ p.key_node; cert_node = after _ refl ∙ p.cert_node };
    }

module _ (lib : Library) (base : FilePath) (now : ℕ) (drawn drawn' hostname cert_pem key_pem : Text)
    (k c : Node) where
  -- what `Install` left of the pair: the old one, the new key beside the old certificate, or the new one
  abbrev pub OldPair : Disk → Type 0
  OldPair = Pair base hostname k c

  abbrev pub NewKey : Disk → Type 0
  NewKey = Pair base hostname (file key_pem 384 now) c

  abbrev pub NewPair : Disk → Type 0
  NewPair = Pair base hostname (file key_pem 384 now) (file cert_pem 420 now)

  install-Ends :
      Ends
        (λ s. OldPair s.rows)
        (λ r s. NewPair s.rows)
        (λ s. OldPair s.rows ⊎ NewKey s.rows)
        (install lib base now drawn drawn' hostname cert_pem key_pem)
  unfolding install
  install-Ends =
      Ends-bind _ _ (Ends-weaken _ (λ s p. p) (λ u s q. q) (λ s r. inl r) (lift-Ends _ OldPair))
        (λ cert.
          Ends-bind _ _
            (Ends-weaken _ (λ s p. p) (λ u s q. q) (λ s r. inl r) (mkdir-Ends base hostname k c))
            (λ u.
              Ends-bind _ _
                (Ends-weaken _ (λ s p. p) (λ u s q. q) (λ s r. inl r)
                  (key-Ends base hostname now drawn key_pem k c))
                (λ u.
                  Ends-bind _ _
                    (Ends-weaken _ (λ s p. p) (λ u s q. q) (λ s r. inr r)
                      (cert-Ends base hostname now drawn' cert_pem (file key_pem 384 now) c))
                    (λ u. Ends-pure _ (λ s q. q)))))

  -- A renewal, whatever system calls fail: where both files of the host are there, an `install` that returns leaves
  -- exactly the new key with mode 0600 and the new chain with mode 0644, and one that fails leaves each file either
  -- as it was or wholly new, the certificate always as it was.
  pub renewal_atomic :
      (s : Db Disk)
      → Pair base hostname k c s.rows
      → ((report : CertificateReport)
          → (install lib base now drawn drawn' hostname cert_pem key_pem s).0 ≡ ok report
          → NewPair (install lib base now drawn drawn' hostname cert_pem key_pem s).1.rows)
        × ((e : TlsError)
            → (install lib base now drawn drawn' hostname cert_pem key_pem s).0 ≡ err e
            → OldPair (install lib base now drawn drawn' hostname cert_pem key_pem s).1.rows
              ⊎ NewKey (install lib base now drawn drawn' hostname cert_pem key_pem s).1.rows)
  renewal_atomic s p = (install-Ends.value s p, install-Ends.error s p)
