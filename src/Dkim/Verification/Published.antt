-- ===== src/Dkim/Verification/Published.antt =====
-- What `VerifyDNS` says of a record that was published as `GetDNSRecord` gives it, and what a success shows.
use opemail.Prelude.{
  not-false, ==_refl, not-false, ℕ, ◌≡◌, refl, sym, ap, Bool, true, false, Option, none, some, List,
  [], ◌∷◌, arith,
}
use opemail.Text.{Text, codes, folded, canonical, join}
use opemail.Text.Laws.{folded-canonical, canonical-canonical}
use opemail.Exec.{ok, pure, recode_by, ◌>>=◌}
use opemail.Exec.Outcomes.{bind_ok, when_ok}
use opemail.Database.{Db, IsUp, answer, attempt}
use opemail.Paths.{FilePath}
use opemail.Disk.{Disk, Node, directory, file, node_at, read_file, content_of}
use opemail.Dkim.Model.{
  DkimError, private_key_not_found, DnsRecord, World, PublicKey, PrivateKey, rsa, Crypto,
  disk_outcome,
}
use opemail.Dkim.Selector.{is_valid_selector, build_dns_name, build_dns_txt_value}
use opemail.Dkim.Record.RoundTrip.{IsBase64, parse-build}
use opemail.Dkim.Keystore.{get_private_key, get_private_key_path}
use opemail.Dkim.Keys.{
  or_fail, get_dns_record, parse_rsa_private_key, parse_rsa_public_key_from_dns,
}
use opemail.Dkim.Verification.{
  VerificationResult, initial, verified, validate_public_key_match, compare_keys, of_pem,
  verify_dns,
}

folded-folded : (s : Text) → folded (folded s) ≡ folded s
folded-folded s = rw (folded-canonical s, folded-canonical (canonical s)) (canonical-canonical s)

canonical-folded : (s : Text) → canonical (folded s) ≡ canonical s
canonical-folded s = rw (folded-canonical s) (canonical-canonical s)

-- what the encodings of the standard library give back
pub record IsLawful (C : Crypto) : Type 0 where
  pub decode-encode : (b : Text) → C.base64_decode (C.base64_encode b) ≡ some b
  pub encode-marshal :
      (k : PublicKey) (der : Text) → C.marshal_pkix k ≡ some der → IsBase64 (C.base64_encode der)
  pub parse-marshal :
      (k : PublicKey) (der : Text) → C.marshal_pkix k ≡ some der → C.parse_pkix der ≡ some (rsa k)

is_valid-folded : (s : Text) → is_valid_selector (folded s) ≡ is_valid_selector s
unfolding is_valid_selector
is_valid-folded s = rw (canonical-folded s) refl

path-folded :
    (base : FilePath) (domain selector : Text)
    → get_private_key_path base (folded domain) (folded selector)
      ≡ get_private_key_path base domain selector
unfolding get_private_key_path
path-folded base domain selector = rw (folded-folded domain, folded-folded selector) refl

name-folded :
    (domain selector : Text)
    → build_dns_name (folded domain) (folded selector) ≡ build_dns_name domain selector
unfolding build_dns_name
name-folded domain selector = rw (folded-folded domain, folded-folded selector) refl

module _ (base : FilePath) (domain selector : Text) where
  -- the key's file holds these bytes
  abbrev Holds : Text → Disk → Type 0
  Holds pem d =
      (m : ℕ) × (t : ℕ) × (node_at (get_private_key_path base domain selector) d
        ≡ some (file pem m t))

  got :
      (s : Db World) (pem : Text)
      → (get_private_key base domain selector s).0 ≡ ok pem
      → (is_valid_selector selector ≡ true) × Holds pem s.rows.disk
  unfolding get_private_key read_file
  got s pem h =
      let (v, r) = when_ok _ _ _ s pem h in (not-false _ v, of_read (s.down s.statements) r)
    where
      of_node :
          (n : Option Node)
          → node_at (get_private_key_path base domain selector) s.rows.disk ≡ n
          → recode_by
              (λ e. private_key_not_found)
              (answer s (disk_outcome s.rows (content_of s.rows.disk n))).0
            ≡ ok pem
          → Holds pem s.rows.disk
      of_node none e h = ground arith
      of_node (some (directory m)) e h = ground arith
      of_node (some (file c m t)) e h = let same : c ≡ pem = ground arith in (m, t, rw (sym same) e)

      of_read :
          (b : Bool)
          → recode_by
              (λ e. private_key_not_found)
              (attempt b
                (λ w. disk_outcome w (read_file (get_private_key_path base domain selector) w.disk))
                s).0
            ≡ ok pem
          → Holds pem s.rows.disk
      of_read true h = ground arith
      of_read false h =
          of_node (node_at (get_private_key_path base domain selector) s.rows.disk) refl h

  gets :
      (s : Db World) (pem : Text)
      → IsUp s
      → is_valid_selector selector ≡ true
      → Holds pem s.rows.disk
      → (get_private_key base domain selector s).0 ≡ ok pem
  unfolding get_private_key read_file ◌>>=◌
  gets s pem up v (m, t, e) = rw (v, up s.statements) (rw e refl)

or_fail_ok :
    {A : Type 0} (o : Option A) (e : DkimError) (s : Db World) (a : A)
    → (or_fail o e s).0 ≡ ok a
    → o ≡ some a
or_fail_ok none e s a h = ground arith
or_fail_ok (some b) e s a h = ground arith

pure_ok : {A : Type 0} (a b : A) (s : Db World) → (pure {E = DkimError} a s).0 ≡ ok b → a ≡ b
unfolding pure
pure_ok a b s h = ground arith

-- what a record that is given rests on
record Issued (C : Crypto) (base : FilePath) (domain selector : Text) (s : Db World) (r : DnsRecord)
    : Type 0 where
  pem : Text
  key : PrivateKey
  der : Text
  is_valid : is_valid_selector selector ≡ true
  holds : Holds base domain selector pem s.rows.disk
  parsed : parse_rsa_private_key C pem ≡ some key
  marshalled : C.marshal_pkix key.public ≡ some der
  is_record :
      record {
        name = build_dns_name domain selector;
        kind = codes "TXT";
        value = build_dns_txt_value (C.base64_encode der);
      }
      ≡ r

issue :
    (C : Crypto) (base : FilePath) (domain selector : Text) (s : Db World) (r : DnsRecord)
    → (get_dns_record C base domain selector s).0 ≡ ok r
    → Issued C base domain selector s r
unfolding get_dns_record
issue C base domain selector s r h =
    let (pem, h1, k1) = bind_ok _ _ s r h in
    let (key, h2, k2) = bind_ok _ _ _ r k1 in
    let (der, h3, k3) = bind_ok _ _ _ r k2 in
    let (v, holds) = got base domain selector s pem h1 in
    record {
      pem = pem;
      key = key;
      der = der;
      is_valid = v;
      holds = holds;
      parsed = or_fail_ok _ _ _ key h2;
      marshalled = or_fail_ok _ _ _ der h3;
      is_record = pure_ok _ r _ k3;
    }

module _ (C : Crypto) (law : IsLawful C) where
  key_read :
      (k : PublicKey) (der : Text)
      → C.marshal_pkix k ≡ some der
      → parse_rsa_public_key_from_dns C (C.base64_encode der) ≡ some k
  unfolding parse_rsa_public_key_from_dns
  key_read k der h =
      rw (parse_rsa_public_key_from_dns, law.decode-encode der)
        (rw (law.parse-marshal k der h) refl)

  -- the parts of the check from the bytes of the key on
  judged :
      (lookup : Text → Option (List Text)) (q : VerificationResult) (pem der : Text)
      (key : PrivateKey) (x : Text) (xs : List Text)
      → parse_rsa_private_key C pem ≡ some key
      → C.marshal_pkix key.public ≡ some der
      → lookup (build_dns_name q.domain q.selector) ≡ some (x ∷ xs)
      → join (x ∷ xs) [] ≡ build_dns_txt_value (C.base64_encode der)
      → ((of_pem C q lookup (ok pem)).0.status ≡ verified) × ((of_pem C q lookup (ok pem)).1 ≡ none)
  unfolding compare_keys validate_public_key_match
  judged lookup q pem der key x xs parsed marshalled found cut =
      rw (parsed, found, cut)
        (rw (parse-build (C.base64_encode der) (law.encode-marshal key.public der marshalled)) (
          rw (key_read key.public der marshalled)
            (rw (==_refl key.public.modulus, ==_refl key.public.exponent) (refl, refl))))

  -- Where the cryptography is lawful, `s` is the state in which the record is asked for, `t` one with the same files in which it is verified. A record
  -- that `get_dns_record` gives, once the resolver answers with its value, is verified without an error, into whatever
  -- strings the value is cut, while no call of the verification fails.
  pub published_verifies :
      (lookup : Text → Option (List Text)) (base : FilePath) (domain selector : Text)
      (s t : Db World) (r : DnsRecord) (x : Text) (xs : List Text)
      → (get_dns_record C base domain selector s).0 ≡ ok r
      → IsUp t
      → t.rows.disk ≡ s.rows.disk
      → lookup r.name ≡ some (x ∷ xs)
      → join (x ∷ xs) [] ≡ r.value
      → ((verify_dns C lookup base domain selector t).0.0.status ≡ verified)
        × ((verify_dns C lookup base domain selector t).0.1 ≡ none)
  unfolding verify_dns
  published_verifies lookup base domain selector s t r x xs h up same found cut =
      let i = issue C base domain selector s r h in
      let read =
        gets base (folded domain) (folded selector) t i.pem up
          (rw (is_valid-folded selector) i.is_valid)
          (rw (same, path-folded base domain selector) i.holds) in
      rw read (
        judged lookup (initial (folded domain) (folded selector)) i.pem i.der i.key x xs i.parsed
          i.marshalled (rw (name-folded domain selector) (rw (ap (λ q. q.name) i.is_record) found))
          (rw cut (ap (λ q. q.value) (sym i.is_record))))
