-- ===== src/Dkim/Keys.antt =====
-- The keys' life in internal/dkim/service.go, with internal/dkim/keygen.go. `now` is the clock, `id` the UUID and
-- `rsa_key` the RSA key that a call draws, none where the generator fails.
pub mod Steps
pub mod Regeneration
pub mod Activation
use opemail.Prelude.{
  ℕ, ◌^◌, Bool, true, false, not, ◌&&◌, Option, none, some, List, [], ◌∷◌, leb, ltb, ◌==◌,
  if◌then◌else◌,
}
use opemail.Text.{Text, codes, folded, is_empty}
use opemail.Exec.{Result, ok, err, Exec, pure, when, ignore, fail_with, ◌>>=◌, ◌>>◌}
use opemail.Database.{DbError, Db, unavailable, duplicate, no_rows}
use opemail.Directory.Tables.{Domain}
use opemail.Domains.Repository.{get_by_name}
use opemail.Paths.{FilePath}
use opemail.Dkim.Model.{
  DkimError, failed, domain_not_found, invalid_selector, invalid_key_bits, private_key_not_found,
  pending, Key, Keypair, DnsRecord, World, PublicKey, PrivateKey, Parsed, rsa, other, Crypto,
  on_directory, recoded,
}
use opemail.Dkim.Selector.{is_valid_selector, build_dns_name, build_dns_txt_value}
use opemail.Dkim.Keystore.{store_private_key, get_private_key, has_private_key, delete_private_key}
use opemail.Dkim.Repository.{
  create_dkim_key, get_dkim_key_by_selector, get_active_dkim_key, list_dkim_keys_by_domain,
  activate_dkim_key, revoke_dkim_key,
}

abbrev pub or_fail : {A : Type 0} → Option A → DkimError → Exec (Db World) DkimError A
or_fail none e s = (err e, s)
or_fail (some a) e s = (ok a, s)

abbrev pub of_domain : DbError → DkimError
of_domain unavailable = failed
of_domain duplicate = failed
of_domain no_rows = domain_not_found

unfoldable pub domain_of : Text → Exec (Db World) DkimError Domain
unfolding get_by_name
domain_of name = recoded of_domain (on_directory (get_by_name name))

-- a number of 2048 bits
unfoldable pub has_2048_bits : ℕ → Bool
has_2048_bits n = leb (2 ^ 2047) n && ltb n (2 ^ 2048)

abbrev pub lift : {A : Type 0} → Result DkimError A → Exec (Db World) DkimError A
lift r s = (r, s)

abbrev pub new_key : ℕ → ℕ → ℕ → Text → Text → Key
new_key now id domain_id domain selector = record {
  id = id;
  domain_id = domain_id;
  domain = domain;
  selector = selector;
  algorithm = codes "rsa-sha256";
  key_bits = 2048;
  status = pending;
  created_at = now;
  activated_at = none;
  revoked_at = none;
}

-- `if err := m(); err != nil { _ = cleanup(); return err }`
abbrev pub compensated :
    Result DkimError (Unit {0})
    → Exec (Db World) DkimError (Unit {0})
    → Exec (Db World) DkimError (Unit {0})
compensated (ok u) cleanup s = (ok tt, s)
compensated (err e) cleanup s = (err e, (cleanup s).1)

abbrev pub or_clean :
    Exec (Db World) DkimError (Unit {0})
    → Exec (Db World) DkimError (Unit {0})
    → Exec (Db World) DkimError (Unit {0})
or_clean m cleanup s = compensated (m s).0 cleanup (m s).1

abbrev pub selector_or_default : Text → Text
selector_or_default s = if is_empty (folded s) then codes "mailopen2026" else folded s

module _ (C : Crypto) where
  abbrev pub parse_block_pkcs8 : Option (Parsed PrivateKey) → Option PrivateKey
  parse_block_pkcs8 none = none
  parse_block_pkcs8 (some (rsa k)) = some k
  parse_block_pkcs8 (some other) = none

  abbrev pub parse_block : Text → Option PrivateKey
  parse_block der = elim (C.parse_pkcs1 der) [
    | none ↦ parse_block_pkcs8 (C.parse_pkcs8 der)
    | some k ↦ some k
  ]

  unfoldable pub parse_rsa_private_key : Text → Option PrivateKey
  parse_rsa_private_key pem = elim (C.pem_decode pem) [ none ↦ none | some der ↦ parse_block der ]

  abbrev pub rsa_public : Option (Parsed PublicKey) → Option PublicKey
  rsa_public none = none
  rsa_public (some (rsa k)) = some k
  rsa_public (some other) = none

  unfoldable pub parse_rsa_public_key_from_dns : Text → Option PublicKey
  parse_rsa_public_key_from_dns s = elim (C.base64_decode s) [
    | none ↦ none
    | some der ↦ rsa_public (C.parse_pkix der)
  ]

  abbrev pub keypair_of : PrivateKey → Option Keypair
  keypair_of k = elim (C.marshal_pkix k.public) [
    | none ↦ none
    | some der ↦ some (record {
      private_key_pem = C.pem_encode (codes "RSA PRIVATE KEY") (C.marshal_pkcs1 k);
      public_key_pem = C.pem_encode (codes "PUBLIC KEY") der;
      public_key_dns = C.base64_encode der;
    })
  ]

  unfoldable pub generate_rsa_key_pair : Option PrivateKey → ℕ → Result DkimError Keypair
  generate_rsa_key_pair rsa_key bits =
      if not (bits == 2048) then err invalid_key_bits else elim rsa_key [
        | none ↦ err failed
        | some k ↦ elim (keypair_of k) [ none ↦ err failed | some p ↦ ok p ]
      ]

  unfoldable pub validate_private_key : Text → Result DkimError PrivateKey
  unfolding parse_rsa_private_key has_2048_bits
  validate_private_key pem = elim (parse_rsa_private_key pem) [
    | none ↦ err failed
    | some k ↦ if has_2048_bits k.public.modulus then ok k else err invalid_key_bits
  ]

  unfoldable pub generate_key :
      ℕ
      → ℕ
      → Text
      → Option PrivateKey
      → FilePath
      → Text
      → Text
      → Exec (Db World) DkimError (Key × Keypair)
  unfolding domain_of generate_rsa_key_pair validate_private_key store_private_key create_dkim_key
      delete_private_key
  generate_key now id drawn rsa_key base domain selector = do
    when (not (is_valid_selector (selector_or_default selector))) invalid_selector
    d ← domain_of (folded domain)
    pair ← lift (generate_rsa_key_pair rsa_key 2048)
    lift (validate_private_key pair.private_key_pem)
    store_private_key now drawn base (folded domain) (selector_or_default selector)
        pair.private_key_pem
    or_clean (create_dkim_key (new_key now id d.id (folded domain) (selector_or_default selector)))
        (delete_private_key base (folded domain) (selector_or_default selector))
    pure (new_key now id d.id (folded domain) (selector_or_default selector), pair)

  unfoldable pub get_dns_record : FilePath → Text → Text → Exec (Db World) DkimError DnsRecord
  unfolding get_private_key parse_rsa_private_key build_dns_name build_dns_txt_value
  get_dns_record base domain selector = do
    pem ← get_private_key base domain selector
    key ← or_fail (parse_rsa_private_key pem) failed
    der ← or_fail (C.marshal_pkix key.public) failed
    pure (record {
      name = build_dns_name domain selector;
      kind = codes "TXT";
      value = build_dns_txt_value (C.base64_encode der);
    })

unfoldable pub get_active_key : Text → Exec (Db World) DkimError Key
unfolding domain_of get_active_dkim_key
get_active_key domain = do d ← domain_of domain; get_active_dkim_key d.id

unfoldable pub list_keys : Text → Exec (Db World) DkimError (List Key)
unfolding domain_of list_dkim_keys_by_domain
list_keys domain = do d ← domain_of domain; list_dkim_keys_by_domain d.id

unfoldable pub activate_key : ℕ → FilePath → Text → Text → Exec (Db World) DkimError (Unit {0})
unfolding domain_of get_dkim_key_by_selector has_private_key activate_dkim_key
activate_key now base domain selector = do
  d ← domain_of domain
  key ← get_dkim_key_by_selector d.id selector
  there ← has_private_key base domain selector
  when (not there) private_key_not_found
  activate_dkim_key now key.id

unfoldable pub revoke_key : ℕ → Text → Text → Exec (Db World) DkimError (Unit {0})
unfolding domain_of get_dkim_key_by_selector revoke_dkim_key
revoke_key now domain selector = do
  d ← domain_of domain
  key ← get_dkim_key_by_selector d.id selector
  revoke_dkim_key now key.id
