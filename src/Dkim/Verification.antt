-- ===== src/Dkim/Verification.antt =====
-- `VerifyDNS` of internal/dkim/service.go, with `ValidatePublicKeyMatch` of internal/dkim/validator.go. The
-- resolver is a function from names to the strings of their TXT records, none for an error.
pub mod Published
pub mod Evidence
use opemail.Prelude.{
  ℕ, Bool, true, false, not, ◌&&◌, Option, none, some, List, [], ◌∷◌, ◌==◌, if◌then◌else◌,
}
use opemail.Text.{Text, codes, folded, join}
use opemail.Exec.{Result, ok, err, Exec}
use opemail.Database.{Db}
use opemail.Paths.{FilePath}
use opemail.Dkim.Model.{
  DkimError, failed, private_key_not_found, key_mismatch, World, PublicKey, PrivateKey, Crypto,
}
use opemail.Dkim.Selector.{build_dns_name}
use opemail.Dkim.Record.{parse_dns_txt_record}
use opemail.Dkim.Keystore.{get_private_key}
use opemail.Dkim.Keys.{parse_rsa_private_key, parse_rsa_public_key_from_dns}

-- the formats of the field `Message`, without what is put into them
pub data Message : Type 0 where
  key_missing key_corrupt record_missing bad_format bad_public_key not_matching matching : Message

pub data VerificationStatus : Type 0 where
  verified not_ready mismatch : VerificationStatus

pub record VerificationResult : Type 0 where
  pub domain : Text
  pub selector : Text
  pub dns_record_found : Bool
  pub dns_value : Text
  pub public_key_valid : Bool
  pub key_matches : Bool
  pub status : VerificationStatus
  pub message : Message

-- the result, and the error that comes with it
abbrev pub Answer : Type 0
Answer = VerificationResult × Option DkimError

unfoldable pub validate_public_key_match : PrivateKey → PublicKey → Bool
validate_public_key_match k p = (k.public.modulus == p.modulus) && (k.public.exponent == p.exponent)

abbrev pub initial : Text → Text → VerificationResult
initial domain selector = record {
  domain = domain;
  selector = selector;
  dns_record_found = false;
  dns_value = [];
  public_key_valid = false;
  key_matches = false;
  status = not_ready;
  message = record_missing;
}

module _ (C : Crypto) where
  -- step 4: the keys are compared
  unfoldable pub compare_keys : VerificationResult → PrivateKey → PublicKey → Answer
  unfolding validate_public_key_match
  compare_keys r k p =
      if validate_public_key_match k p
      then (
        record r {
          public_key_valid = true;
          key_matches = true;
          status = verified;
          message = matching;
        },
        none,
      )
      else (
        record r { public_key_valid = true; status = mismatch; message = not_matching },
        some key_mismatch,
      )

  abbrev pub of_public : VerificationResult → PrivateKey → Option PublicKey → Answer
  of_public r k none = (record r { message = bad_public_key }, none)
  of_public r k (some p) = compare_keys r k p

  -- step 3: the record is parsed
  abbrev pub of_tag : VerificationResult → PrivateKey → Option Text → Answer
  of_tag r k none = (record r { message = bad_format }, none)
  of_tag r k (some s) = of_public r k (parse_rsa_public_key_from_dns C s)

  abbrev pub of_value : VerificationResult → PrivateKey → Text → Answer
  of_value r k txt =
      of_tag (record r { dns_record_found = true; dns_value = txt }) k (parse_dns_txt_record txt)

  -- step 2: the resolver is asked
  abbrev pub of_records : VerificationResult → PrivateKey → Option (List Text) → Answer
  of_records r k none = (record r { message = record_missing }, none)
  of_records r k (some []) = (record r { message = record_missing }, none)
  of_records r k (some (x ∷ xs)) = of_value r k (join (x ∷ xs) [])

  abbrev pub of_private :
      VerificationResult → (Text → Option (List Text)) → Option PrivateKey → Answer
  of_private r lookup none = (record r { message = key_corrupt }, some failed)
  of_private r lookup (some k) = of_records r k (lookup (build_dns_name r.domain r.selector))

  -- step 1: the key's file is read
  abbrev pub of_pem :
      VerificationResult → (Text → Option (List Text)) → Result DkimError Text → Answer
  of_pem r lookup (err e) = (record r { message = key_missing }, some private_key_not_found)
  of_pem r lookup (ok pem) = of_private r lookup (parse_rsa_private_key C pem)

  unfoldable pub verify_dns :
      (Text → Option (List Text)) → FilePath → Text → Text → Db World → Answer × Db World
  unfolding folded get_private_key
  verify_dns lookup base domain selector s =
      let r = get_private_key base (folded domain) (folded selector) s in
      (of_pem (initial (folded domain) (folded selector)) lookup r.0, r.1)
