-- ===== src/Tls/Examples.antt =====
-- The renewal of a certificate; in this library every character is a block, and a key is its own public part.
use opemail.Prelude.{
  ℕ, ◌≡◌, ◌≢◌, ◌<◌, ◌⊎◌, refl, sym, Bool, true, false, Option, none, some, [], ◌∷◌, length, arith,
}
use opemail.Text.{Text, codes, eqb}
use opemail.Exec.{ok, err}
use opemail.Database.{Db}
use opemail.Paths.{FilePath}
use opemail.Disk.{Disk, directory, file}
use opemail.Tls.Model.{
  TlsError, out_of_fuel, rsa_key, rsa_private, X509, Block, Library, CertificateReport, Certificate,
}
use opemail.Tls.Store.{get_paths, install, load}
use opemail.Tls.Validation.{some_certificate, parse_blocks, parse_certificates, validate_bytes}
use opemail.Tls.Parsing.{Shrinks, parse_certificates_ends}
use opemail.Tls.Renewal.{OldPair, NewKey, NewPair, renewal_atomic}
use opemail.Tls.Loading.{with_paths, load-install}

abbrev decode : Text → Option (Block × Text)
decode [] = none
decode (c ∷ t) = some (record { kind = codes "CERTIFICATE"; bytes = c ∷ [] }, t)

abbrev certificate : Text → X509
certificate b = record {
  public = rsa_key b;
  not_before = 1;
  not_after = 100;
  issuer = codes "ca";
  organizations = [];
  subject = codes "b.id";
  dns_names = codes "b.id" ∷ [];
  raw = b;
}

abbrev lib : Library
lib = record {
  pem_decode = decode;
  parse_certificate = λ b. some (certificate b);
  parse_pkcs8 = λ b. some (rsa_private b);
  parse_pkcs1 = λ b. none;
  parse_ec = λ b. none;
  same_rsa = eqb;
  same_ecdsa = eqb;
  deep_equal = λ k p. false;
  verify_hostname = λ c h. true;
  sha256_hex = λ b. codes "0a";
}

decode-Shrinks : Shrinks lib
decode-Shrinks [] block rest h = absurd (ground arith)
decode-Shrinks (c ∷ t) block rest h =
    let same : t ≡ rest = ground arith in rw (sym same) (omega arith)

parse_certificates_ends_example :
    (parse_certificates lib (codes "ab") ≢ err out_of_fuel)
    × ((fuel : ℕ)
        → length (codes "ab") < fuel
        → some_certificate (parse_blocks lib fuel (codes "ab"))
          ≡ parse_certificates lib (codes "ab"))
parse_certificates_ends_example = parse_certificates_ends lib decode-Shrinks (codes "ab")

abbrev base : FilePath
base = codes "tls" ∷ []

abbrev host : FilePath
host = codes "b.id" ∷ base

abbrev disk : (ℕ → Bool) → Db Disk
disk down = record {
  rows =
      record { path = base; node = directory 488 }
      ∷ record { path = host; node = directory 488 }
      ∷ record { path = (get_paths base (codes "b.id")).1; node = file (codes "x") 384 1 }
      ∷ record { path = (get_paths base (codes "b.id")).0; node = file (codes "x") 420 1 }
      ∷ [];
  down = down;
  statements = 0;
}

abbrev installed : Db Disk
installed =
    (install lib base 5 (codes "1") (codes "2") (codes "b.id") (codes "ab") (codes "a")
      (disk (λ n. false))).1

renewal_atomic_example :
    ((report : CertificateReport)
      → (install lib base 5
          (codes "1")
          (codes "2")
          (codes "b.id")
          (codes "ab")
          (codes "a")
          (disk (λ n. false))).0
        ≡ ok report
      → NewPair lib base 5
          (codes "1")
          (codes "2")
          (codes "b.id")
          (codes "ab")
          (codes "a")
          (file (codes "x") 384 1)
          (file (codes "x") 420 1)
          installed.rows)
    × ((e : TlsError)
        → (install lib base 5
            (codes "1")
            (codes "2")
            (codes "b.id")
            (codes "ab")
            (codes "a")
            (disk (λ n. false))).0
          ≡ err e
        → OldPair lib base 5
            (codes "1")
            (codes "2")
            (codes "b.id")
            (codes "ab")
            (codes "a")
            (file (codes "x") 384 1)
            (file (codes "x") 420 1)
            installed.rows
          ⊎ NewKey lib base 5
              (codes "1")
              (codes "2")
              (codes "b.id")
              (codes "ab")
              (codes "a")
              (file (codes "x") 384 1)
              (file (codes "x") 420 1)
              installed.rows)
unfolding opemail.Disk.node_at get_paths
renewal_atomic_example =
    renewal_atomic lib base 5 (codes "1") (codes "2") (codes "b.id") (codes "ab") (codes "a")
      (file (codes "x") 384 1) (file (codes "x") 420 1) (disk (λ n. false))
      (record { key_node = refl; cert_node = refl })

load-install_example :
    (x : Certificate) × ((validate_bytes lib 5 (codes "ab") (codes "a") (codes "b.id")).1 ≡ ok x)
    × ((load lib base 5 (codes "b.id") installed).0 ≡ ok (with_paths base (codes "b.id") x))
unfolding opemail.Disk.node_at get_paths install opemail.Exec.◌>>=◌
load-install_example =
    load-install lib base 5 (codes "b.id") (codes "ab") (codes "a") (codes "1") (codes "2")
      (file (codes "x") 384 1) (file (codes "x") 420 1) (disk (λ n. false)) installed
      (validate_bytes lib 5 (codes "ab") (codes "a") (codes "b.id")).0
      (record { key_node = refl; cert_node = refl }) refl refl (λ n. refl)
