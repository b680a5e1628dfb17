-- ===== src/Token/Rows.antt =====
-- What the statements on `api_tokens` do to the row of a hash.
use opemail.Prelude.{
  Bool-cases, inl, inr, ℕ, ◌≡◌, refl, Bool, true, false, some, List, [], ◌∷◌, ◌++◌, map, arith,
  if◌then◌else◌,
}
use opemail.Text.{Text, eqb}
use opemail.Text.Laws.{eqb_refl}
use opemail.Exec.Keeps.{Keeps}
use opemail.Token.Store.{
  ApiToken, Tokens, find, taken, revoke_hash, revoke_live, touch, update_all, store, get_by_hash,
  revoke_by_hash, revoke_all_for_email, update_last_used,
}
use opemail.Token.Manager.{is_some}

-- the row of the hash is there and is revoked
unfoldable pub dead : Text → List ApiToken → Bool
dead h [] = false
dead h (t ∷ ts) = if eqb t.token_hash h then is_some t.revoked_at else dead h ts

pub dead-find :
    (h : Text) (ts : List ApiToken)
    → dead h ts ≡ true
    → (t : ApiToken) × (find h ts ≡ some t) × (is_some t.revoked_at ≡ true)
unfolding find dead
dead-find h [] e = cc
dead-find h (x ∷ ts) e = elim (Bool-cases (eqb x.token_hash h)) [
  | inl same ↦ (x, rw same refl, ground arith)
  | inr other ↦ let (t, f, r) = dead-find h ts (ground arith) in (t, ground arith, r)
]

pub find-dead :
    (h : Text) (ts : List ApiToken) {t : ApiToken}
    → find h ts ≡ some t
    → dead h ts ≡ is_some t.revoked_at
unfolding find dead
find-dead h [] e = cc
find-dead h (x ∷ ts) {t} e = ground (arith, find-dead h ts {t = t})

pub find-append :
    (h : Text) (ts : List ApiToken) (us : List ApiToken) {t : ApiToken}
    → find h ts ≡ some t
    → find h (ts ++ us) ≡ some t
unfolding find
find-append h [] us e = cc
find-append h (x ∷ ts) us {t} e = ground (arith, find-append h ts us {t = t})

-- The insert of a row succeeds only under a new hash, and the row is then found under it.
pub find-append_new :
    (t : ApiToken) (ts us : List ApiToken)
    → taken t ts ≡ false
    → find t.token_hash (ts ++ t ∷ us) ≡ some t
unfolding find taken
find-append_new t [] us e = ground (arith, eqb_refl t.token_hash)
find-append_new t (x ∷ ts) us e = ground (arith, find-append_new t ts us)

abbrev pub IsDead : Text → Tokens → Type 0
IsDead h s = dead h s.rows ≡ true

-- an update of single rows that keeps their hash and revives none
pub record IsGentle (f : ApiToken → ApiToken) : Type 0 where
  pub hash_kept : (t : ApiToken) → (f t).token_hash ≡ t.token_hash
  pub stays_revoked : (t : ApiToken) → is_some t.revoked_at ≡ true → is_some (f t).revoked_at ≡ true

revoke_hash-IsGentle : (h : Text) (now : ℕ) → IsGentle (revoke_hash h now)
unfolding revoke_hash
revoke_hash-IsGentle h now = record {
  hash_kept = λ t. ground arith;
  stays_revoked = λ t e. ground arith;
}

revoke_live-IsGentle : (e : Text) (now : ℕ) → IsGentle (revoke_live e now)
unfolding revoke_live
revoke_live-IsGentle e now = record {
  hash_kept = λ t. ground arith;
  stays_revoked = λ t e. ground arith;
}

touch-IsGentle : (id now : ℕ) → IsGentle (touch id now)
unfolding touch
touch-IsGentle id now = record {
  hash_kept = λ t. ground arith;
  stays_revoked = λ t e. ground arith;
}

dead-map :
    (f : ApiToken → ApiToken)
    → IsGentle f
    → (h : Text) (ts : List ApiToken) → dead h ts ≡ true
    → dead h (map f ts) ≡ true
unfolding dead
dead-map f g h [] e = cc
dead-map f g h (t ∷ ts) e = ground (arith, g.hash_kept t, g.stays_revoked t, dead-map f g h ts)

dead-append : (h : Text) (ts us : List ApiToken) → dead h ts ≡ true → dead h (ts ++ us) ≡ true
unfolding dead
dead-append h [] us e = cc
dead-append h (t ∷ ts) us e = ground (arith, dead-append h ts us)

module _ (h : Text) where
  update_all-Keeps : (f : ApiToken → ApiToken) → IsGentle f → Keeps (IsDead h) (update_all f)
  update_all-Keeps f g = record { after = λ s d. ground (arith, dead-map f g h s.rows) }

  pub store-Keeps : (t : ApiToken) → Keeps (IsDead h) (store t)
  unfolding store
  store-Keeps t = record { after = λ s d. ground (arith, dead-append h s.rows (t ∷ [])) }

  pub get_by_hash-Keeps : (k : Text) → Keeps (IsDead h) (get_by_hash k)
  unfolding get_by_hash
  get_by_hash-Keeps k = record { after = λ s d. ground arith }

  pub revoke_by_hash-Keeps : (k : Text) (now : ℕ) → Keeps (IsDead h) (revoke_by_hash k now)
  unfolding revoke_by_hash
  revoke_by_hash-Keeps k now = update_all-Keeps _ (revoke_hash-IsGentle k now)

  pub revoke_all_for_email-Keeps :
      (e : Text) (now : ℕ) → Keeps (IsDead h) (revoke_all_for_email e now)
  unfolding revoke_all_for_email
  revoke_all_for_email-Keeps e now = update_all-Keeps _ (revoke_live-IsGentle e now)

  pub update_last_used-Keeps : (id now : ℕ) → Keeps (IsDead h) (update_last_used id now)
  unfolding update_last_used
  update_last_used-Keeps id now = update_all-Keeps _ (touch-IsGentle id now)
