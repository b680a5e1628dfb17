-- ===== src/Directory/Tables.antt =====
-- The rows, the look-ups by key, and the deletes that cascade. Names are stored as they are given;
-- UUIDs are numbers, `quota_bytes` is an `int64`.
use opemail.Prelude.{
  ℕ, Bool, false, ◌&&◌, ◌||◌, Option, none, some, List, [], ◌∷◌, ◌==◌, if◌then◌else◌,
}
use opemail.Text.{Text, eqb, to_lower}

pub data ℤ : Type 0 where
  pos : ℕ → ℤ
  negsuc : ℕ → ℤ

pub record Domain : Type 0 where
  pub id : ℕ
  pub name : Text
  pub status : Text
  pub created_at : ℕ
  pub updated_at : ℕ

pub record Mailbox : Type 0 where
  pub id : ℕ
  pub domain_id : ℕ
  pub email : Text
  pub password_hash : Text
  pub quota_bytes : ℤ
  pub used_bytes : ℤ
  pub status : Text
  pub provisioning_status : Text
  pub identity_provider : Text
  pub created_at : ℕ
  pub updated_at : ℕ

pub record Alias : Type 0 where
  pub id : ℕ
  pub domain_id : ℕ
  pub source : Text
  pub destination : Text
  pub created_at : ℕ

pub record Tables : Type 0 where
  pub domains : List Domain
  pub mailboxes : List Mailbox
  pub aliases : List Alias

unfoldable pub find_name : Text → List Domain → Option Domain
find_name n [] = none
find_name n (d ∷ ds) = if eqb d.name n then some d else find_name n ds

unfoldable pub find_domain : ℕ → List Domain → Option Domain
find_domain i [] = none
find_domain i (d ∷ ds) = if d.id == i then some d else find_domain i ds

unfoldable pub find_email : Text → List Mailbox → Option Mailbox
find_email e [] = none
find_email e (m ∷ ms) = if eqb m.email e then some m else find_email e ms

unfoldable pub find_mailbox : ℕ → List Mailbox → Option Mailbox
find_mailbox i [] = none
find_mailbox i (m ∷ ms) = if m.id == i then some m else find_mailbox i ms

-- the primary key, `UNIQUE(name)` and the unique index on LOWER(name)
unfoldable pub domain_taken : Domain → List Domain → Bool
domain_taken d [] = false
domain_taken d (x ∷ ds) =
    (x.id == d.id) || eqb (to_lower x.name) (to_lower d.name) || domain_taken d ds

-- the primary key, `UNIQUE(email)` and the unique index on LOWER(email)
unfoldable pub mailbox_taken : Mailbox → List Mailbox → Bool
mailbox_taken m [] = false
mailbox_taken m (x ∷ ms) =
    (x.id == m.id) || eqb (to_lower x.email) (to_lower m.email) || mailbox_taken m ms

unfoldable pub alias_taken : Alias → List Alias → Bool
alias_taken a [] = false
alias_taken a (x ∷ as') =
    (x.id == a.id)
    || ((x.domain_id == a.domain_id) && eqb x.source a.source && eqb x.destination a.destination)
    || alias_taken a as'
