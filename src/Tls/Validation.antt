-- ===== src/Tls/Validation.antt =====
-- internal/tls/validator.go, and `CalculateExpirationStatus` of model.go.
use opemail.Prelude.{
  ℕ, zero, suc, ◌-◌, ◌*◌, ◌/◌, ◌^◌, Bool, true, false, not, ◌&&◌, ◌||◌, Option, none, some, List,
  [], ◌∷◌, length, map, if◌then◌else◌, ltb, leb,
}
use opemail.Text.{Text, codes, eqb, is_empty}
use opemail.Exec.{Result, ok, err}
use opemail.Directory.Tables.{ℤ, pos, negsuc}
use opemail.Tls.Model.{
  TlsError, PublicKey, PrivateKey, X509, Library, ExpirationStatus, Certificate, CertificateReport,
  invalid_pem, unparsable, invalid_private_key, key_mismatch, hostname_mismatch,
  certificate_expired, out_of_fuel, rsa_key, ecdsa_key, ed25519_key, rsa_private, ecdsa_private,
  ed25519_private, signer, unset, healthy, warning, critical, expired_status,
}

unfoldable pub at_most : ℤ → ℕ → Bool
at_most (pos n) k = leb n k
at_most (negsuc n) k = true

unfoldable pub calculate_expiration_status : ℤ → Bool → ExpirationStatus
unfolding at_most
calculate_expiration_status days expired =
    if expired || at_most days 0
    then expired_status
    else if at_most days 7
    then critical
    else if at_most days 30
    then warning
    else healthy

abbrev pub capped : ℕ → ℕ → ℕ
capped bound n = if leb n bound then n else bound

abbrev pub minus : ℕ → ℤ
minus zero = pos 0
minus (suc n) = negsuc n

-- `int(t.Sub(now).Hours() / 24)`; `Sub` stops at the bounds of an int64
unfoldable pub days_between : ℕ → ℕ → ℤ
days_between now t =
    if leb now t
    then pos (capped (2 ^ 63 - 1) (t - now) / (86400 * 1000000000))
    else minus (capped (2 ^ 63) (now - t) / (86400 * 1000000000))

-- strings.ToUpper on ASCII
abbrev pub upper : Text → Text
upper s = map (λ c. if leb b'a' c && leb c b'z' then c - 32 else c) s

abbrev pub empty_report : Text → CertificateReport
empty_report hostname = record {
  hostname = hostname;
  exists = false;
  certificate_ok = false;
  private_key_ok = false;
  key_matches = false;
  hostname_matches = false;
  expired = false;
  days_remaining = pos 0;
  status = unset;
  issuer = [];
  not_after = 0;
}

-- one turn of the loop of `ParseCertificates`
abbrev pub and_certificate : Option X509 → Result TlsError (List X509) → Result TlsError (List X509)
and_certificate none rest = err unparsable
and_certificate (some c) (ok cs) = ok (c ∷ cs)
and_certificate (some c) (err e) = err e

-- no certificate at all is an error
abbrev pub some_certificate : Result TlsError (List X509) → Result TlsError (X509 × List X509)
some_certificate (ok []) = err invalid_pem
some_certificate (ok (c ∷ cs)) = ok (c, cs)
some_certificate (err e) = err e

abbrev pub first_of : Option PrivateKey → Option PrivateKey → Option PrivateKey
first_of none k = k
first_of (some p) k = some p

abbrev pub or_invalid : Option PrivateKey → Result TlsError PrivateKey
or_invalid none = err invalid_private_key
or_invalid (some k) = ok k

unfoldable pub is_expired : ℕ → X509 → Bool
is_expired now c = ltb now c.not_before || ltb c.not_after now

abbrev pub first_organization : List Text → Text
first_organization [] = []
first_organization (o ∷ os) = o

unfoldable pub issuer_of : X509 → Text
unfolding is_empty
issuer_of c = if is_empty c.issuer then first_organization c.organizations else c.issuer

abbrev pub Verdict : Type 0
Verdict = CertificateReport × Result TlsError Certificate

module _ (lib : Library) where
  unfoldable pub parse_blocks : ℕ → Text → Result TlsError (List X509)
  unfolding eqb
  parse_blocks zero pem = err out_of_fuel
  parse_blocks (suc fuel) pem = elim (lib.pem_decode pem) [
    | none ↦ ok []
    | some (block, rest) ↦
        let others = parse_blocks fuel rest in
        if eqb block.kind (codes "CERTIFICATE")
        then and_certificate (lib.parse_certificate block.bytes) others
        else others
  ]

  unfoldable pub parse_certificates : Text → Result TlsError (X509 × List X509)
  unfolding parse_blocks
  parse_certificates pem = some_certificate (parse_blocks (suc (length pem)) pem)

  unfoldable pub parse_private_key : Text → Result TlsError PrivateKey
  parse_private_key pem = elim (lib.pem_decode pem) [
    | none ↦ err invalid_private_key
    | some (block, rest) ↦ or_invalid (
        first_of (lib.parse_pkcs8 block.bytes)
          (first_of (lib.parse_pkcs1 block.bytes) (lib.parse_ec block.bytes)))
  ]

  unfoldable pub public_key_matches : PublicKey → PrivateKey → Bool
  public_key_matches (rsa_key p) (rsa_private k) = lib.same_rsa k p
  public_key_matches (ecdsa_key p) (ecdsa_private k) = lib.same_ecdsa k p
  public_key_matches (ed25519_key p) (ed25519_private k) =
      lib.deep_equal (ed25519_key k) (ed25519_key p)
  public_key_matches p (signer k) = lib.deep_equal k p
  public_key_matches p k = false

  abbrev pub dated : ℕ → X509 → CertificateReport → CertificateReport
  dated now c report = record report {
    expired = is_expired now c;
    days_remaining = days_between now c.not_after;
    status = calculate_expiration_status (days_between now c.not_after) (is_expired now c);
    issuer = issuer_of c;
    not_after = c.not_after;
  }

  abbrev pub certificate_of : Text → X509 → Certificate
  certificate_of hostname c = record {
    hostname = hostname;
    cert_file = [];
    key_file = [];
    issuer = issuer_of c;
    subject = c.subject;
    dns_names = c.dns_names;
    not_before = c.not_before;
    not_after = c.not_after;
    fingerprint = upper (lib.sha256_hex c.raw);
  }

  -- the checks of the first certificate
  unfoldable pub check_pair : ℕ → Text → CertificateReport → X509 → PrivateKey → Verdict
  unfolding is_empty public_key_matches is_expired days_between calculate_expiration_status
      issuer_of
  check_pair now hostname report c k =
      let matching = record report { key_matches = true } in
      let named = record matching { hostname_matches = true } in
      if not (public_key_matches c.public k)
      then (report, err key_mismatch)
      else if not (is_empty hostname) && not (lib.verify_hostname c hostname)
      then (matching, err hostname_mismatch)
      else if is_expired now c
      then (dated now c named, err certificate_expired)
      else (dated now c named, ok (certificate_of hostname c))

  abbrev pub check_key : ℕ → Text → CertificateReport → X509 → Result TlsError PrivateKey → Verdict
  check_key now hostname report c (err e) = (report, err e)
  check_key now hostname report c (ok k) =
      check_pair now hostname (record report { private_key_ok = true }) c k

  abbrev pub check_chain :
      ℕ → Text → CertificateReport → Result TlsError (X509 × List X509) → Text → Verdict
  check_chain now hostname report (err e) key_pem = (report, err e)
  check_chain now hostname report (ok (c, cs)) key_pem =
      check_key now hostname (record report { certificate_ok = true }) c (parse_private_key key_pem)

  unfoldable pub validate_bytes : ℕ → Text → Text → Text → Verdict
  unfolding parse_certificates parse_private_key check_pair
  validate_bytes now cert_pem key_pem hostname =
      check_chain now hostname (record (empty_report hostname) { exists = true })
        (parse_certificates cert_pem) key_pem
