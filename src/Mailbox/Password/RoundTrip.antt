-- ===== src/Mailbox/Password/RoundTrip.antt =====
-- A hash verifies the password that it was made of.
use opemail.Prelude.{
  ℕ, ◌≡◌, refl, sym, ap, ◌∙◌, Bool, true, not, some, [], ◌∷◌, ◌++◌, length, all, arith, ◌==◌,
}
use opemail.Text.{Text, codes, eqb, split, onto_first}
use opemail.Text.Laws.{eqb_refl}
use opemail.Exec.{ok}
use opemail.Mailbox.Password.{
  Hashing, Argon2Params, version_part, params_part, key_of, hash_password, verify_parts,
  verify_password,
}

-- no dollar sign
abbrev pub is_dollarless : Text → Bool
is_dollarless s = all (λ c. not (c == b'$')) s

split-append : (a b : Text) → is_dollarless a ≡ true → split (a ++ b'$' ∷ b) b'$' ≡ a ∷ split b b'$'
unfolding split onto_first
split-append [] b h = refl
split-append (c ∷ a) b h = let rest = split-append a b (ground arith) in ground arith

split-one : (a : Text) → is_dollarless a ≡ true → split a b'$' ≡ a ∷ []
unfolding split onto_first
split-one [] h = refl
split-one (c ∷ a) h = let rest = split-one a (ground arith) in ground arith

-- what the libraries do with the values of one hash
pub record IsFaithful (lib : Hashing) (p : Argon2Params) (salt key : Text) : Type 0 where
  pub plain_version : is_dollarless (version_part lib) ≡ true
  pub plain_params : is_dollarless (params_part lib p) ≡ true
  pub plain_salt : is_dollarless (lib.encode salt) ≡ true
  pub plain_key : is_dollarless (lib.encode key) ≡ true
  pub scanned_version : lib.scan_version (version_part lib) ≡ some lib.version
  pub scanned_params :
      lib.scan_params (params_part lib p) ≡ some (p.memory, p.iterations, p.parallelism)
  pub decoded_salt : lib.decode (lib.encode salt) ≡ some salt
  pub decoded_key : lib.decode (lib.encode key) ≡ some key
  pub key_size : length key ≡ p.key_length

same_number : (n : ℕ) → (n == n) ≡ true
same_number n = ground arith

abbrev encoded_of : Hashing → Argon2Params → Text → Text → Text
encoded_of lib p salt key =
    b'$'
    ∷ (codes "argon2id"
        ++ b'$'
          ∷ (version_part lib
              ++ b'$' ∷ (params_part lib p ++ b'$' ∷ (lib.encode salt ++ b'$' ∷ lib.encode key))))

module _ (lib : Hashing) (p : Argon2Params) (salt key : Text)
    (faithful : IsFaithful lib p salt key) where
  parts_of-encoded :
      split (encoded_of lib p salt key) b'$'
      ≡ []
        ∷ codes "argon2id"
        ∷ version_part lib
        ∷ params_part lib p
        ∷ lib.encode salt
        ∷ lib.encode key
        ∷ []
  parts_of-encoded =
      let t4 = lib.encode salt ++ b'$' ∷ lib.encode key in
      let t3 = params_part lib p ++ b'$' ∷ t4 in
      let t2 = version_part lib ++ b'$' ∷ t3 in
      let s1 = split-append [] (codes "argon2id" ++ b'$' ∷ t2) refl in
      let s2 = split-append (codes "argon2id") t2 refl in
      let s3 = split-append (version_part lib) t3 faithful.plain_version in
      let s4 = split-append (params_part lib p) t4 faithful.plain_params in
      let s5 = split-append (lib.encode salt) (lib.encode key) faithful.plain_salt in
      let s6 = split-one (lib.encode key) faithful.plain_key in
      s1
      ∙ ap (λ x. [] ∷ x)
          (s2
            ∙ ap (λ x. codes "argon2id" ∷ x)
                (s3
                  ∙ ap (λ x. version_part lib ∷ x)
                      (s4
                        ∙ ap (λ x. params_part lib p ∷ x) (s5 ∙ ap (λ x. lib.encode salt ∷ x) s6))))

  verify-encoded :
      (other : Text)
      → verify_password lib other (encoded_of lib p salt key)
        ≡ ok (eqb key (key_of lib other salt p))
  unfolding verify_password verify_parts
  verify-encoded other =
      rw
        (
          parts_of-encoded,
          faithful.scanned_version,
          same_number lib.version,
          faithful.scanned_params,
          faithful.decoded_salt,
          faithful.decoded_key,
          faithful.key_size,
        )
        refl

-- While the libraries read back what they wrote for one hash, and write no dollar sign, the hash of a password
-- verifies that password, and it verifies another one exactly when both have the same key.
pub verify-hash_password :
    (lib : Hashing) (p : Argon2Params) (password salt encoded other : Text)
    → IsFaithful lib p salt (key_of lib password salt p)
    → hash_password lib password (some salt) p ≡ some encoded
    → (verify_password lib password encoded ≡ ok true)
      × (verify_password lib other encoded
          ≡ ok (eqb (key_of lib password salt p) (key_of lib other salt p)))
unfolding hash_password
verify-hash_password lib p password salt encoded other faithful made =
    let same : encoded_of lib p salt (key_of lib password salt p) ≡ encoded = ground arith in
    let verifies = verify-encoded lib p salt (key_of lib password salt p) faithful in
    rw (sym same)
      (verifies password ∙ ap ok (eqb_refl (key_of lib password salt p)), verifies other)
