-- ===== src/Tls/Model.antt =====
-- The types of internal/tls, and the libraries it calls.
use opemail.Prelude.{ℕ, Bool, Option, List}
use opemail.Text.{Text}
use opemail.Directory.Tables.{ℤ}
use opemail.Paths.{FilePath}

pub data TlsError : Type 0 where
  certificate_not_found invalid_pem unparsable invalid_private_key key_mismatch : TlsError
  hostname_mismatch certificate_expired failed out_of_fuel : TlsError

pub data PublicKey : Type 0 where
  rsa_key ecdsa_key ed25519_key other_key : Text → PublicKey

-- a private key with its public part; `signer` is any other `crypto.Signer`
pub data PrivateKey : Type 0 where
  rsa_private ecdsa_private ed25519_private : Text → PrivateKey
  signer : PublicKey → PrivateKey
  unknown : PrivateKey

pub record X509 : Type 0 where
  pub public : PublicKey
  pub not_before : ℕ
  pub not_after : ℕ
  pub issuer : Text
  pub organizations : List Text
  pub subject : Text
  pub dns_names : List Text
  pub raw : Text

pub record Block : Type 0 where
  pub kind : Text
  pub bytes : Text

pub record Library : Type 0 where
  -- the first block and what follows it
  pub pem_decode : Text → Option (Block × Text)
  pub parse_certificate : Text → Option X509
  pub parse_pkcs8 : Text → Option PrivateKey
  pub parse_pkcs1 : Text → Option PrivateKey
  pub parse_ec : Text → Option PrivateKey
  pub same_rsa : Text → Text → Bool
  pub same_ecdsa : Text → Text → Bool
  pub deep_equal : PublicKey → PublicKey → Bool
  pub verify_hostname : X509 → Text → Bool
  -- the SHA-256 in lower-case hexadecimal digits
  pub sha256_hex : Text → Text

pub data ExpirationStatus : Type 0 where
  unset healthy warning critical expired_status : ExpirationStatus

pub record Certificate : Type 0 where
  pub hostname : Text
  pub cert_file : FilePath
  pub key_file : FilePath
  pub issuer : Text
  pub subject : Text
  pub dns_names : List Text
  pub not_before : ℕ
  pub not_after : ℕ
  pub fingerprint : Text

pub record CertificateReport : Type 0 where
  pub hostname : Text
  pub exists : Bool
  pub certificate_ok : Bool
  pub private_key_ok : Bool
  pub key_matches : Bool
  pub hostname_matches : Bool
  pub expired : Bool
  pub days_remaining : ℤ
  pub status : ExpirationStatus
  pub issuer : Text
  pub not_after : ℕ
