-- ===== src/Dkim/Examples.antt =====
-- A domain with a key on the disk, and encodings that know one key.
use opemail.Prelude.{
  ◌+◌, ◌^◌, ◌≡◌, refl, sym, ap, Bool, true, false, ◌&&◌, Option, none, some, List, [], ◌∷◌, map,
  arith, ◌==◌, if◌then◌else◌,
}
use opemail.Text.{Text, codes, eqb, join, folded, is_empty}
use opemail.Exec.{ok, ◌>>=◌}
use opemail.Database.{Db}
use opemail.Directory.Tables.{pos, Domain, Tables}
use opemail.Paths.{FilePath}
use opemail.Disk.{Disk, directory, file}
use opemail.Dkim.Model.{revoked, Key, Policy, World, PublicKey, PrivateKey, rsa, other, Crypto}
use opemail.Dkim.Selector.{build_dns_name, build_dns_txt_value}
use opemail.Dkim.Record.RoundTrip.{IsBase64, is_base64}
use opemail.Dkim.Keystore.{get_private_key_path}
use opemail.Dkim.Keys.{generate_key, get_dns_record, activate_key}
use opemail.Dkim.Keys.Regeneration.{has_file, regenerate_destroys}
use opemail.Dkim.Keys.Activation.{activated, activate_exact}
use opemail.Dkim.Verification.{verified, verify_dns}
use opemail.Dkim.Verification.Published.{IsLawful, published_verifies}
use opemail.Dkim.Verification.Evidence.{Evidence, verified_only}
use opemail.Dkim.Repository.{find_policy, upserted}
use opemail.Dkim.Policy.{bare_policy}

abbrev public_key : PublicKey
public_key = record { modulus = 2 ^ 2047 + 1; exponent = 65537 }

abbrev private_key : PrivateKey
private_key = record { public = public_key; secret = 7 }

abbrev is_known : PublicKey → Bool
is_known k = (k.modulus == 2 ^ 2047 + 1) && (k.exponent == 65537)

abbrev crypto : Crypto
crypto = record {
  pem_decode = λ t. some t;
  pem_encode = λ k b. b;
  parse_pkcs1 = λ b. some private_key;
  marshal_pkcs1 = λ k. codes "QUJD";
  parse_pkcs8 = λ b. some other;
  parse_pkix = λ b. some (rsa public_key);
  marshal_pkix = λ k. if is_known k then some (codes "QUJD") else none;
  base64_decode = λ t. some t;
  base64_encode = λ b. b;
}

abbrev domain : Domain
domain = record {
  id = 1;
  name = codes "b.id";
  status = codes "active";
  created_at = 0;
  updated_at = 0;
}

abbrev key : Key
key = record {
  id = 3;
  domain_id = 1;
  domain = codes "b.id";
  selector = codes "s1";
  algorithm = codes "rsa-sha256";
  key_bits = 2048;
  status = revoked;
  created_at = 0;
  activated_at = none;
  revoked_at = some 4;
}

abbrev base : FilePath
base = codes "dkim" ∷ []

abbrev disk : Disk
disk =
    record {
      path = codes "private.key" ∷ codes "s1" ∷ codes "b.id" ∷ base;
      node = file (codes "K") 384 0;
    }
    ∷ record { path = codes "s1" ∷ codes "b.id" ∷ base; node = directory 488 }
    ∷ record { path = codes "b.id" ∷ base; node = directory 488 }
    ∷ record { path = base; node = directory 488 }
    ∷ []

abbrev policy : Policy
policy = record (bare_policy 1 (codes "b.id") (codes "v=spf1 -all") (codes "v=DMARC1; p=reject")) {
  spam_threshold = 6;
}

abbrev world : Db World
world = record {
  rows = record {
    directory = record { domains = domain ∷ []; mailboxes = []; aliases = [] };
    keys = key ∷ [];
    policies = policy ∷ [];
    disk = disk;
  };
  down = λ n. false;
  statements = 0;
}

known-public : (k : PublicKey) → is_known k ≡ true → public_key ≡ k
known-public k h = ground arith

encoded_is : IsBase64 (codes "QUJD")
unfolding is_base64 is_empty
encoded_is = record { letters = refl; some_letter = refl }

encoded :
    (b : Bool) (der : Text)
    → (if b then some (codes "QUJD") else none) ≡ some der
    → (codes "QUJD" ≡ der) × (b ≡ true)
encoded true der h = (ground arith, refl)
encoded false der h = ground arith

lawful : IsLawful crypto
lawful = record {
  decode-encode = λ b. refl;
  encode-marshal =
      λ k der h. let (same, is) = encoded (is_known k) der h in rw (sym same) encoded_is;
  parse-marshal = λ k der h.
      let (same, is) = encoded (is_known k) der h in ap (λ q. some (rsa q)) (known-public k is);
}

regenerate_destroys_example :
    has_file
      (codes "private.key" ∷ codes "s1" ∷ codes "b.id" ∷ base)
      (generate_key crypto 5 9
        (codes "1")
        (some private_key)
        base
        (codes "B.id")
        (codes "S1")
        world).1
    ≡ false
unfolding generate_key ◌>>=◌ opemail.Text.canonical folded opemail.Text.contains
    opemail.Dkim.Selector.matches_selector opemail.Paths.enter
regenerate_destroys_example =
    regenerate_destroys crypto 5 9 (codes "1") (some private_key) base (codes "B.id") (codes "S1")
      world (λ n. refl) refl

abbrev zone : Text → Option (List Text)
zone n =
    if eqb n (codes "s1._domainkey.b.id")
    then some (codes "v=DKIM1; k=rsa; p=Q" ∷ codes "UJD" ∷ [])
    else none

published_verifies_example :
    ((verify_dns crypto zone base (codes "B.id") (codes "S1") world).0.0.status ≡ verified)
    × ((verify_dns crypto zone base (codes "B.id") (codes "S1") world).0.1 ≡ none)
unfolding get_dns_record ◌>>=◌ is_empty opemail.Text.canonical opemail.Text.contains
    opemail.Dkim.Selector.matches_selector opemail.Paths.enter folded join
published_verifies_example =
    published_verifies crypto lawful zone base (codes "B.id") (codes "S1") world world
      (record {
        name = codes "s1._domainkey.b.id";
        kind = codes "TXT";
        value = codes "v=DKIM1; k=rsa; p=QUJD";
      })
      (codes "v=DKIM1; k=rsa; p=Q") (codes "UJD" ∷ []) refl (λ n. refl) refl refl refl

verified_only_example : Evidence crypto zone base (codes "B.id") (codes "S1") world
unfolding get_dns_record ◌>>=◌ is_empty opemail.Text.canonical opemail.Text.contains
    opemail.Dkim.Selector.matches_selector opemail.Paths.enter folded join
verified_only_example =
    verified_only crypto zone base (codes "B.id") (codes "S1") world
      (published_verifies crypto lawful zone base (codes "B.id") (codes "S1") world world
        (record {
          name = codes "s1._domainkey.b.id";
          kind = codes "TXT";
          value = codes "v=DKIM1; k=rsa; p=QUJD";
        })
        (codes "v=DKIM1; k=rsa; p=Q") (codes "UJD" ∷ []) refl (λ n. refl) refl refl refl).0

activate_exact_example :
    ((activate_key 5 base (codes "b.id") (codes "S1") world).0 ≡ ok tt)
    × ((activate_key 5 base (codes "b.id") (codes "S1") world).1.rows.keys
        ≡ map (activated 5 3) (key ∷ []))
unfolding opemail.Directory.Tables.find_name eqb opemail.Dkim.Repository.first_key
    opemail.Text.to_lower opemail.Directory.Tables.find_domain opemail.Disk.node_at
    get_private_key_path opemail.Paths.enter folded
activate_exact_example =
    activate_exact 5 base (codes "b.id") (codes "S1") world domain key (λ n. refl) refl refl
