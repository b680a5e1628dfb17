-- ===== src/Dkim/Verification/Evidence.antt =====
-- What a success of `VerifyDNS` rests on.
use opemail.Prelude.{◌≡◌, ◌≢◌, refl, Option, none, some, List, [], ◌∷◌, arith}
use opemail.Text.{Text, folded, join}
use opemail.Exec.{Result, ok, err}
use opemail.Database.{Db}
use opemail.Paths.{FilePath}
use opemail.Dkim.Model.{DkimError, World, PublicKey, PrivateKey, Crypto}
use opemail.Dkim.Selector.{build_dns_name}
use opemail.Dkim.Record.{parse_dns_txt_record}
use opemail.Dkim.Keystore.{get_private_key}
use opemail.Dkim.Keys.{parse_rsa_private_key, parse_rsa_public_key_from_dns}
use opemail.Dkim.Verification.{
  VerificationResult, verified, not_ready, initial, compare_keys, validate_public_key_match,
  of_public, of_tag, of_records, of_private, of_pem, verify_dns,
}

module _ (C : Crypto) (lookup : Text → Option (List Text)) where
  -- the key on the disk, the published strings, and that the two agree on the key
  pub record Evidence (base : FilePath) (domain selector : Text) (s : Db World) : Type 0 where
    pub pem : Text
    pub key : PrivateKey
    pub first : Text
    pub rest : List Text
    pub text : Text
    pub public : PublicKey
    pub stored : (get_private_key base (folded domain) (folded selector) s).0 ≡ ok pem
    pub parsed : parse_rsa_private_key C pem ≡ some key
    pub published : lookup (build_dns_name (folded domain) (folded selector)) ≡ some (first ∷ rest)
    pub tagged : parse_dns_txt_record (join (first ∷ rest) []) ≡ some text
    pub decoded : parse_rsa_public_key_from_dns C text ≡ some public
    pub same_modulus : key.public.modulus ≡ public.modulus
    pub same_exponent : key.public.exponent ≡ public.exponent

  compared :
      (q : VerificationResult) (k : PrivateKey) (p : PublicKey)
      → (compare_keys C q k p).0.status ≡ verified
      → q.status ≢ verified
      → (k.public.modulus ≡ p.modulus) × (k.public.exponent ≡ p.exponent)
  unfolding compare_keys validate_public_key_match
  compared q k p h n = ground arith

  module _ (base : FilePath) (domain selector : Text) (s : Db World) where
    from_public :
        (pem : Text) (k : PrivateKey) (x : Text) (xs : List Text) (t : Text) (o : Option PublicKey)
        (q : VerificationResult)
        → (get_private_key base (folded domain) (folded selector) s).0 ≡ ok pem
        → parse_rsa_private_key C pem ≡ some k
        → lookup (build_dns_name (folded domain) (folded selector)) ≡ some (x ∷ xs)
        → parse_dns_txt_record (join (x ∷ xs) []) ≡ some t
        → parse_rsa_public_key_from_dns C t ≡ o
        → q.status ≡ not_ready
        → (of_public C q k o).0.status ≡ verified
        → Evidence base domain selector s
    from_public pem k x xs t none q a b c d e n h = ground arith
    from_public pem k x xs t (some p) q a b c d e n h =
        let (m, w) = compared q k p h (λ v. ground arith) in
        record {
          pem = pem;
          key = k;
          first = x;
          rest = xs;
          text = t;
          public = p;
          stored = a;
          parsed = b;
          published = c;
          tagged = d;
          decoded = e;
          same_modulus = m;
          same_exponent = w;
        }

    from_tag :
        (pem : Text) (k : PrivateKey) (x : Text) (xs : List Text) (o : Option Text)
        (q : VerificationResult)
        → (get_private_key base (folded domain) (folded selector) s).0 ≡ ok pem
        → parse_rsa_private_key C pem ≡ some k
        → lookup (build_dns_name (folded domain) (folded selector)) ≡ some (x ∷ xs)
        → parse_dns_txt_record (join (x ∷ xs) []) ≡ o
        → q.status ≡ not_ready
        → (of_tag C q k o).0.status ≡ verified
        → Evidence base domain selector s
    from_tag pem k x xs none q a b c d n h = ground arith
    from_tag pem k x xs (some t) q a b c d n h =
        from_public pem k x xs t (parse_rsa_public_key_from_dns C t) q a b c d refl n h

    from_records :
        (pem : Text) (k : PrivateKey) (o : Option (List Text))
        → (get_private_key base (folded domain) (folded selector) s).0 ≡ ok pem
        → parse_rsa_private_key C pem ≡ some k
        → lookup (build_dns_name (folded domain) (folded selector)) ≡ o
        → (of_records C (initial (folded domain) (folded selector)) k o).0.status ≡ verified
        → Evidence base domain selector s
    from_records pem k none a b c h = ground arith
    from_records pem k (some []) a b c h = ground arith
    from_records pem k (some (x ∷ xs)) a b c h =
        from_tag pem k x xs (parse_dns_txt_record (join (x ∷ xs) [])) _ a b c refl refl h

    from_private :
        (pem : Text) (o : Option PrivateKey)
        → (get_private_key base (folded domain) (folded selector) s).0 ≡ ok pem
        → parse_rsa_private_key C pem ≡ o
        → (of_private C (initial (folded domain) (folded selector)) lookup o).0.status ≡ verified
        → Evidence base domain selector s
    from_private pem none a b h = ground arith
    from_private pem (some k) a b h =
        from_records pem k (lookup (build_dns_name (folded domain) (folded selector))) a b refl h

    from_pem :
        (r : Result DkimError Text)
        → (get_private_key base (folded domain) (folded selector) s).0 ≡ r
        → (of_pem C (initial (folded domain) (folded selector)) lookup r).0.status ≡ verified
        → Evidence base domain selector s
    from_pem (err e) a h = ground arith
    from_pem (ok pem) a h = from_private pem (parse_rsa_private_key C pem) a refl h

    -- `verify_dns` says VERIFIED only where the key's file was read and parsed, the resolver gave a record that
    -- parses, and the modulus and the exponent in it are those of the stored key.
    pub verified_only :
        (verify_dns C lookup base domain selector s).0.0.status ≡ verified
        → Evidence base domain selector s
    unfolding verify_dns
    verified_only h = from_pem (get_private_key base (folded domain) (folded selector) s).0 refl h
