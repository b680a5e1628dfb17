-- ===== src/Mailbox/Password.antt =====
-- `HashPassword` and `VerifyPassword` of internal/mailbox/service.go. Argon2, base64 and the formats of `fmt` are
-- the parameter `Hashing`; the error of `rand.Read` is a salt that is `none`.
pub mod RoundTrip
use opemail.Prelude.{
  ℕ, Bool, true, false, not, Option, none, some, List, [], ◌∷◌, ◌++◌, length, ◌==◌, if◌then◌else◌,
}
use opemail.Text.{Text, codes, eqb, split}
use opemail.Exec.{Result, ok, err}

pub record Hashing : Type 0 where
  pub version : ℕ
  -- password, salt, iterations, memory, parallelism, length of the key
  pub id_key : Text → Text → ℕ → ℕ → ℕ → ℕ → Text
  pub encode : Text → Text
  pub decode : Text → Option Text
  -- `%d`, and `Sscanf` with `v=%d` and with `m=%d,t=%d,p=%d`
  pub decimal : ℕ → Text
  pub scan_version : Text → Option ℕ
  pub scan_params : Text → Option (ℕ × ℕ × ℕ)

pub record Argon2Params : Type 0 where
  pub memory : ℕ
  pub iterations : ℕ
  pub parallelism : ℕ
  pub key_length : ℕ

pub data PasswordError : Type 0 where
  invalid_format incompatible_algorithm incompatible_version malformed : PasswordError

module _ (lib : Hashing) where
  abbrev pub version_part : Text
  version_part = codes "v=" ++ lib.decimal lib.version

  abbrev pub params_part : Argon2Params → Text
  params_part p =
      codes "m="
      ++ (lib.decimal p.memory
          ++ (codes ",t="
              ++ (lib.decimal p.iterations ++ (codes ",p=" ++ lib.decimal p.parallelism))))

  abbrev pub key_of : Text → Text → Argon2Params → Text
  key_of password salt p = lib.id_key password salt p.iterations p.memory p.parallelism p.key_length

  unfoldable pub hash_password : Text → Option Text → Argon2Params → Option Text
  hash_password password none p = none
  hash_password password (some salt) p = some (
      b'$'
      ∷ (codes "argon2id"
          ++ b'$'
            ∷ (version_part
                ++ b'$'
                  ∷ (params_part p
                      ++ b'$' ∷ (lib.encode salt ++ b'$' ∷ lib.encode (key_of password salt p))))))

  abbrev pub compare_keys :
      Text → Option (ℕ × ℕ × ℕ) → Option Text → Option Text → Result PasswordError Bool
  compare_keys password none salt key = err malformed
  compare_keys password (some q) none key = err malformed
  compare_keys password (some q) (some salt) none = err malformed
  compare_keys password (some (memory, iterations, parallelism)) (some salt) (some key) =
      ok (eqb key (lib.id_key password salt iterations memory parallelism (length key)))

  abbrev pub check_version : Option ℕ → Result PasswordError Bool → Result PasswordError Bool
  check_version none rest = err malformed
  check_version (some v) rest = if not (v == lib.version) then err incompatible_version else rest

  unfoldable pub verify_parts : Text → List Text → Result PasswordError Bool
  unfolding eqb
  verify_parts password (p0 ∷ algorithm ∷ version ∷ params ∷ salt ∷ key ∷ []) =
      if not (eqb algorithm (codes "argon2id"))
      then err incompatible_algorithm
      else check_version (lib.scan_version version)
          (compare_keys password (lib.scan_params params) (lib.decode salt) (lib.decode key))
  verify_parts password _ = err invalid_format

  unfoldable pub verify_password : Text → Text → Result PasswordError Bool
  unfolding split verify_parts
  verify_password password encoded = verify_parts password (split encoded b'$')
