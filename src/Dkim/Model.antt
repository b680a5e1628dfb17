-- ===== src/Dkim/Model.antt =====
-- internal/dkim/model.go, and what the service reads and writes: the directory, the two tables of the migration
-- 000006, and the disk. UUIDs and times are numbers, a float64 is its bits, and RSA and its encodings are parameters.
pub mod Rules
use opemail.Prelude.{ℕ, Bool, Option, List}
use opemail.Text.{Text}
use opemail.Exec.{Result, ok, err, Exec, recode_by}
use opemail.Database.{DbError, Db, statement}
use opemail.Directory.Tables.{ℤ, Tables}
use opemail.Disk.{Disk}

pub data DkimError : Type 0 where
  key_not_found key_exists invalid_selector invalid_key_bits private_key_not_found key_mismatch :
      DkimError
  policy_not_found domain_not_found failed : DkimError

pub data DkimStatus : Type 0 where
  pending active revoked : DkimStatus

-- a row of `domain_dkim`; `domain` is filled by the join with `domains`
pub record Key : Type 0 where
  pub id : ℕ
  pub domain_id : ℕ
  pub domain : Text
  pub selector : Text
  pub algorithm : Text
  pub key_bits : ℕ
  pub status : DkimStatus
  pub created_at : ℕ
  pub activated_at : Option ℕ
  pub revoked_at : Option ℕ

-- a row of `domain_mail_policy`; `domain` is filled by the join with `domains`
pub record Policy : Type 0 where
  pub domain_id : ℕ
  pub domain : Text
  pub spf_policy : Text
  pub dmarc_policy : Text
  pub spam_threshold : ℕ
  pub reject_threshold : ℕ
  pub quarantine_enabled : Bool
  pub max_message_size : ℤ
  pub rbl_policy : Text
  pub rdns_policy : Text
  pub created_at : ℕ
  pub updated_at : ℕ

pub record Keypair : Type 0 where
  pub private_key_pem : Text
  pub public_key_pem : Text
  pub public_key_dns : Text

pub record DnsRecord : Type 0 where
  pub name : Text
  pub kind : Text
  pub value : Text

pub record World : Type 0 where
  pub directory : Tables
  pub keys : List Key
  pub policies : List Policy
  pub disk : Disk

pub record PublicKey : Type 0 where
  pub modulus : ℕ
  pub exponent : ℕ

pub record PrivateKey : Type 0 where
  pub public : PublicKey
  pub secret : ℕ

-- what a parser of PKCS#8 or PKIX finds: an RSA key, or a key of another kind
pub data Parsed (K : Type 0) : Type 0 where
  rsa : K → Parsed K
  other : Parsed K

-- the packages crypto/x509, encoding/pem and encoding/base64
pub record Crypto : Type 0 where
  pub pem_decode : Text → Option Text
  pub pem_encode : Text → Text → Text
  pub parse_pkcs1 : Text → Option PrivateKey
  pub marshal_pkcs1 : PrivateKey → Text
  pub parse_pkcs8 : Text → Option (Parsed PrivateKey)
  pub parse_pkix : Text → Option (Parsed PublicKey)
  pub marshal_pkix : PublicKey → Option Text
  pub base64_decode : Text → Option Text
  pub base64_encode : Text → Text

module _ {A : Type 0} where
  -- a call of the repository of the domains
  abbrev pub on_directory : Exec (Db Tables) DbError A → Exec (Db World) DbError A
  on_directory m s =
      let r = m (record { rows = s.rows.directory; down = s.down; statements = s.statements }) in
      (r.0, record s { rows = record s.rows { directory = r.1.rows }; statements = r.1.statements })

  abbrev pub disk_outcome : World → Result DbError (A × Disk) → Result DbError (A × World)
  disk_outcome w (ok (a, d)) = ok (a, record w { disk = d })
  disk_outcome w (err e) = err e

  -- a system call
  abbrev pub on_disk : (Disk → Result DbError (A × Disk)) → Exec (Db World) DbError A
  on_disk run = statement (λ w. disk_outcome w (run w.disk))

  abbrev pub recoded :
      (DbError → DkimError) → Exec (Db World) DbError A → Exec (Db World) DkimError A
  recoded f m s = (recode_by f (m s).0, (m s).1)
