-- ===== src/Dkim/Keys/Steps.antt =====
-- The steps of `GenerateKey`: which errors they never return, and that no step starts an outage.
use opemail.Prelude.{◌≢◌, ℕ, Option, none, some, inl, inr, arith, Option-cases}
use opemail.Text.{Text}
use opemail.Exec.{Result, ok, err, Exec, Result-cases, ◌>>=◌, ◌>>◌}
use opemail.Exec.Keeps.{Keeps}
use opemail.Exec.Errors.{Never, never_rules}
use opemail.Database.{DbError, unavailable, duplicate, no_rows, Db, IsUp}
use opemail.Paths.{FilePath}
use opemail.Dkim.Model.{
  DkimError, failed, key_exists, invalid_selector, World, Crypto, PrivateKey, Key, recoded,
}
use opemail.Dkim.Model.Rules.{up_rules}
use opemail.Domains.Repository.{get_by_name}
use opemail.Dkim.Keystore.{store_private_key, replace_key, deferring, failing}
use opemail.Dkim.Keys.{
  domain_of, of_domain, lift, generate_rsa_key_pair, validate_private_key, parse_rsa_private_key,
}
use opemail.Dkim.Repository.{create_dkim_key}

module _ {A : Type 0} {e : DkimError} where
  recode_by_never :
      (f : DbError → DkimError) (r : Result DbError A)
      → ((x : DbError) → f x ≢ e)
      → opemail.Exec.recode_by f r ≢ err e
  recode_by_never f (ok a) k h = ground arith
  recode_by_never f (err x) k h = k x (ground arith)

  Never-recoded :
      (f : DbError → DkimError) (m : Exec (Db World) DbError A)
      → ((x : DbError) → f x ≢ e)
      → Never e (recoded f m)
  Never-recoded f m k = record { at = λ s h. recode_by_never f (m s).0 k h }

  pub Never-lift : (r : Result DkimError A) → r ≢ err e → Never e (lift r)
  Never-lift r k = record { at = λ s h. k h }

failed_other : failed ≢ key_exists
failed_other h = ground arith

pub invalid_other : invalid_selector ≢ key_exists
invalid_other h = ground arith

failing-Never : {A : Type 0} (m : Exec (Db World) DbError A) → Never key_exists (failing m)
failing-Never m = Never-recoded _ m (λ x. failed_other)

deferring-Never :
    {A B : Type 0} (last : Exec (Db World) DbError B) (m : Exec (Db World) DkimError A)
    → Never key_exists m
    → Never key_exists (deferring last m)
deferring-Never last m k = record { at = k.at }

pub store-Never :
    (now : ℕ) (drawn : Text) (base : FilePath) (domain selector pem : Text)
    → Never key_exists (store_private_key now drawn base domain selector pem)
unfolding store_private_key replace_key
store-Never now drawn base domain selector pem =
    search (never_rules, failing-Never, deferring-Never, failed_other, invalid_other) depth 14

pub domain_of-Never : (name : Text) → Never key_exists (domain_of name)
unfolding domain_of
domain_of-Never name = Never-recoded of_domain _ of_domain_other
  where
    of_domain_other : (x : DbError) → of_domain x ≢ key_exists
    of_domain_other unavailable h = ground arith
    of_domain_other duplicate h = ground arith
    of_domain_other no_rows h = ground arith

module _ (C : Crypto) where
  pub generate-other : (k : Option PrivateKey) → generate_rsa_key_pair C k 2048 ≢ err key_exists
  unfolding generate_rsa_key_pair
  generate-other none h = ground arith
  generate-other (some k) h = elim (Option-cases (C.marshal_pkix k.public)) [
    | inl e ↦ ground arith
    | inr (der, e) ↦ ground arith
  ]

  pub validate-other : (pem : Text) → validate_private_key C pem ≢ err key_exists
  unfolding validate_private_key
  validate-other pem h = elim (Option-cases (parse_rsa_private_key C pem)) [
    | inl e ↦ ground arith
    | inr (k, e) ↦ ground arith
  ]

deferring-IsUp :
    {A B : Type 0} (last : Exec (Db World) DbError B) (m : Exec (Db World) DkimError A)
    → Keeps IsUp last
    → Keeps IsUp m
    → Keeps IsUp (deferring last m)
deferring-IsUp last m l k = record { after = λ s h. l.after (m s).1 (k.after s h) }

pub store-IsUp :
    (now : ℕ) (drawn : Text) (base : FilePath) (domain selector pem : Text)
    → Keeps IsUp (store_private_key now drawn base domain selector pem)
unfolding store_private_key replace_key
store-IsUp now drawn base domain selector pem = search (up_rules, deferring-IsUp) depth 14

pub domain_of-IsUp : (name : Text) → Keeps IsUp (domain_of name)
unfolding domain_of get_by_name
domain_of-IsUp name = search up_rules

pub create-IsUp : (k : Key) → Keeps IsUp (create_dkim_key k)
unfolding create_dkim_key
create-IsUp k = search up_rules

pub lift-IsUp : {A : Type 0} (r : Result DkimError A) → Keeps IsUp (lift r)
lift-IsUp r = record { after = λ s h. h }
