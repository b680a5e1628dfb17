-- ===== src/SmtpKey/Revocation.antt =====
-- A revoked key under later calls.
use opemail.Prelude.{
  ℕ, ◌≡◌, refl, sym, ap, ◌∙◌, false, Option, none, some, List, [], ◌∷◌, ◌++◌, map, arith,
  Bool-cases, inl, inr, ◌==◌, if◌then◌else◌,
}
use opemail.Text.{Text}
use opemail.Exec.{Exec, ignore}
use opemail.Exec.Keeps.{Keeps, keeps_rules}
use opemail.Database.{Db}
use opemail.Database.Statements.{statement-Keeps}
use opemail.SmtpKey.{
  SmtpKeyError, revoked, Key, Credential, Store, create_row, is_meant, revoke_one, revoke_row,
  get_domain, or_failed, create, revoke,
}

unfoldable pub find_credential : ℕ → List Credential → Option Credential
find_credential id [] = none
find_credential id (c ∷ cs) = if c.key.id == id then some c else find_credential id cs

-- the row of the id
abbrev pub HasRow : ℕ → Credential → Store → Type 0
HasRow id c t = find_credential id t.credentials ≡ some c

found-append :
    (id : ℕ) (c x : Credential) (cs : List Credential)
    → find_credential id cs ≡ some c
    → find_credential id (cs ++ x ∷ []) ≡ some c
unfolding find_credential
found-append id c x [] h = ground arith
found-append id c x (y ∷ cs) h = elim (Bool-cases (y.key.id == id)) [
  | inl t ↦ ground arith
  | inr f ↦ let rest = found-append id c x cs (ground arith) in ground arith
]

revoke_one-id : (now d i : ℕ) (x : Credential) → (revoke_one now d i x).key.id ≡ x.key.id
revoke_one-id now d i x = elim (Bool-cases (is_meant d i x)) [
  | inl t ↦ rw t refl
  | inr f ↦ rw f refl
]

revoke_one-revoked :
    (now d i : ℕ) (x : Credential) → x.key.status ≡ revoked → revoke_one now d i x ≡ x
revoke_one-revoked now d i x h =
    let spared : is_meant d i x ≡ false = rw h (ground arith) in rw spared refl

found-map :
    (now d i id : ℕ) (c : Credential) (cs : List Credential)
    → find_credential id cs ≡ some c
    → find_credential id (map (revoke_one now d i) cs) ≡ some (revoke_one now d i c)
unfolding find_credential
found-map now d i id c [] h = ground arith
found-map now d i id c (y ∷ cs) h =
    let same : ((revoke_one now d i y).key.id == id) ≡ (y.key.id == id) =
      ap (λ k. k == id) (revoke_one-id now d i y) in
    elim (Bool-cases (y.key.id == id)) [
      | inl t ↦
          let here : y ≡ c = ground arith in
          rw (same, t) (ap (λ z. some (revoke_one now d i z)) here)
      | inr f ↦ rw (same, f) (found-map now d i id c cs (ground arith))
    ]

module _ (id : ℕ) (c : Credential) where
  create_row-Keeps : (k : Key) (h : Text) → Keeps (λ s. HasRow id c s.rows) (create_row k h)
  unfolding create_row
  create_row-Keeps k h = record {
    after = λ s there.
        (statement-Keeps (HasRow id c) _ (λ t a r done g.
            let now : record t {
              credentials = t.credentials ++ record { key = k; secret_hash = h } ∷ [];
            }
                ≡ r =
              ground arith in
            rw (sym now)
              (found-append id c (record { key = k; secret_hash = h }) t.credentials g))).after
          s there;
  }

  get_domain-Keeps : (name : Text) → Keeps (λ s. HasRow id c s.rows) (get_domain name)
  unfolding get_domain
  get_domain-Keeps name = record { after = λ s h. h }

  or_failed-Keeps : {A : Type 0} (o : Option A) → Keeps (λ s. HasRow id c s.rows) (or_failed o)
  or_failed-Keeps none = search keeps_rules
  or_failed-Keeps (some a) = search keeps_rules

  module _ (is_revoked : c.key.status ≡ revoked) where
    revoke_row-Keeps : (now d i : ℕ) → Keeps (λ s. HasRow id c s.rows) (revoke_row now d i)
    unfolding revoke_row
    revoke_row-Keeps now d i = record {
      after = λ s there.
          (statement-Keeps (HasRow id c) _ (λ t a r done g.
              let after : record t { credentials = map (revoke_one now d i) t.credentials } ≡ r =
                ground arith in
              rw (sym after) (
                found-map now d i id c t.credentials g
                ∙ ap some (revoke_one-revoked now d i c is_revoked)))).after
            s there;
    }

-- a call of the service, with what it draws
pub data Operation : Type 0 where
  creation : ℕ → ℕ → Text → Option Text → Text → Text → Operation
  revocation : ℕ → Text → ℕ → Operation

module _ (hash_password : Text → Option Text) where
  abbrev pub perform : Operation → Exec (Db Store) SmtpKeyError (Unit {0})
  perform (creation now id hex random domain name) =
      ignore (create hash_password now id hex random domain name)
  perform (revocation now domain id) = ignore (revoke now domain id)

  unfoldable pub run : List Operation → Db Store → Db Store
  run [] s = s
  run (o ∷ os) s = run os (perform o s).1

  perform-Keeps :
      (id : ℕ) (c : Credential)
      → c.key.status ≡ revoked
      → (o : Operation) → Keeps (λ s. HasRow id c s.rows) (perform o)
  unfolding create revoke
  perform-Keeps id c h (creation now i hex random domain name) =
      search (keeps_rules, get_domain-Keeps, or_failed-Keeps, create_row-Keeps) depth 20
  perform-Keeps id c h (revocation now domain i) =
      search (keeps_rules, get_domain-Keeps, revoke_row-Keeps, h) depth 14

  -- The row of a revoked key is the same after any further calls of Create and Revoke, under whatever ids are drawn and
  -- whichever statements fail: the key is never active again, and keeps the time of its revocation.
  pub revoked_for_good :
      (os : List Operation) (s : Db Store) (id : ℕ) (c : Credential)
      → c.key.status ≡ revoked
      → find_credential id s.rows.credentials ≡ some c
      → find_credential id (run os s).rows.credentials ≡ some c
  unfolding run
  revoked_for_good [] s id c h there = there
  revoked_for_good (o ∷ os) s id c h there =
      revoked_for_good os (perform o s).1 id c h ((perform-Keeps id c h o).after s there)
