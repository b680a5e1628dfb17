-- ===== src/Token/Rotation.antt =====
-- A refresh token is spent by one refresh, and its reuse revokes the account's tokens.
use opemail.Prelude.{
  inl, inr, ℕ, ◌+◌, ◌≡◌, refl, ◌∙◌, true, false, not, Option, none, some, List, [], ◌∷◌, map, arith,
  if◌then◌else◌, Option-cases, Bool-cases, All,
}
use opemail.Text.{is_empty, Text, eqb}
use opemail.Exec.{err, is_ok, ◌>>=◌}
use opemail.Exec.Keeps.{Keeps, keeps_rules}
use opemail.Database.{IsUp}
use opemail.Token.Store.{
  ApiToken, Tokens, find, revoke_hash, revoke_live, store, get_by_hash, revoke_by_hash,
  revoke_all_for_email,
}
use opemail.Token.Manager.{
  token_revoked, Draws, drawn, issue_token_pair, refresh_tokens, is_some, refresh,
}
use opemail.Token.Rows.{dead, find-dead, find-append}

abbrev pub IsRevokedFor : Text → ApiToken → Type 0
IsRevokedFor e t = eqb t.email e ≡ true → is_some t.revoked_at ≡ true

revoke_live-All :
    (e : Text) (now : ℕ) (ts : List ApiToken) → All (IsRevokedFor e) (map (revoke_live e now) ts)
unfolding revoke_live
revoke_live-All e now [] = tt
revoke_live-All e now (t ∷ ts) = (λ same. ground arith, revoke_live-All e now ts)

find-revoke_hash :
    (h : Text) (now : ℕ) (ts : List ApiToken) {t : ApiToken}
    → find h ts ≡ some t
    → (u : ApiToken) × (find h (map (revoke_hash h now) ts) ≡ some u)
      × (is_some u.revoked_at ≡ true)
unfolding find revoke_hash
find-revoke_hash h now [] e = cc
find-revoke_hash h now (x ∷ ts) {t} e = elim (Bool-cases (eqb x.token_hash h)) [
  | inl same ↦ (record x { revoked_at = some now }, ground arith, refl)
  | inr other ↦
      let (u, f, r) = find-revoke_hash h now ts {t = t} (ground arith) in (u, ground arith, r)
]

-- the row of the hash is `t`
abbrev HasRow : Text → ApiToken → Tokens → Type 0
HasRow h t s = find h s.rows ≡ some t

drawn-HasRow :
    (h : Text) (t : ApiToken) (prefix : Text) (o : Option Text)
    → Keeps (HasRow h t) (drawn prefix o)
drawn-HasRow h t prefix none = search keeps_rules
drawn-HasRow h t prefix (some hex) = search keeps_rules

store-HasRow : (h : Text) (t u : ApiToken) → Keeps (HasRow h t) (store u)
unfolding store
store-HasRow h t u = record { after = λ s e. ground (arith, find-append h s.rows (u ∷ []) e) }

module _ (hash_token : Text → Text) where
  ruleset row_rules = (keeps_rules, drawn-HasRow, store-HasRow)

  issue-HasRow :
      (h : Text) (t : ApiToken) (now : ℕ) (d : Draws) (user : Option ℕ) (email role : Text)
      → Keeps (HasRow h t) (issue_token_pair hash_token now d user email role)
  unfolding issue_token_pair
  issue-HasRow h t now d user email role = search row_rules depth 12

  -- the state in which the new pair is issued
  abbrev spent : ℕ → Text → Tokens → Tokens
  spent now h s = record s {
    rows = if s.down (s.statements + 1) then s.rows else map (revoke_hash h now) s.rows;
    statements = s.statements + 1 + 1;
  }

  refresh_ok :
      (now : ℕ) (d : Draws) (raw : Text) (s : Tokens)
      → is_ok (refresh_tokens hash_token now d raw s).0 ≡ true
      → (t : ApiToken) × (find (hash_token raw) s.rows ≡ some t)
        × (is_some t.revoked_at ≡ false)
        × (refresh_tokens hash_token now d raw s
            ≡ issue_token_pair hash_token now d t.user_id t.email t.role
                (spent now (hash_token raw) s))
  unfolding refresh_tokens get_by_hash revoke_by_hash is_empty ◌>>=◌
  refresh_ok now d raw s h = elim (Option-cases (find (hash_token raw) s.rows)) [
    | inl gone ↦ absurd (ground arith)
    | inr (t, here) ↦ (t, here, ground arith, ground arith)
  ]

  refresh_reused :
      (now : ℕ) (d : Draws) (c : ℕ) (bs : Text) (s : Tokens) (t : ApiToken)
      → IsUp s
      → find (hash_token (c ∷ bs)) s.rows ≡ some t
      → eqb t.token_type refresh ≡ true
      → is_some t.revoked_at ≡ true
      → refresh_tokens hash_token now d (c ∷ bs) s ≡ (
        err token_revoked,
        record s { rows = map (revoke_live t.email now) s.rows; statements = s.statements + 1 + 1 },
      )
  unfolding refresh_tokens get_by_hash revoke_all_for_email is_empty ◌>>=◌
  refresh_reused now d c bs s t up here kind revoked =
      ground (arith, up s.statements, up (s.statements + 1))

  -- With a database that answers, presenting a refresh token that is revoked is reported as such and leaves no token
  -- of its account unrevoked.
  pub reuse_revokes_family :
      (now : ℕ) (d : Draws) (c : ℕ) (bs : Text) (s : Tokens) (t : ApiToken)
      → IsUp s
      → find (hash_token (c ∷ bs)) s.rows ≡ some t
      → eqb t.token_type refresh ≡ true
      → is_some t.revoked_at ≡ true
      → ((refresh_tokens hash_token now d (c ∷ bs) s).0 ≡ err token_revoked)
        × All (IsRevokedFor t.email) (refresh_tokens hash_token now d (c ∷ bs) s).1.rows
  reuse_revokes_family now d c bs s t up here kind revoked =
      rw (refresh_reused now d c bs s t up here kind revoked)
        (refl, revoke_live-All t.email now s.rows)

  spent-dead :
      (now : ℕ) (h : Text) (s : Tokens) (t : ApiToken)
      → find h s.rows ≡ some t
      → is_some t.revoked_at ≡ false
      → (u : ApiToken) × HasRow h u (spent now h s)
        × (is_some u.revoked_at ≡ not (s.down (s.statements + 1)))
  spent-dead now h s t here live = elim (Bool-cases (s.down (s.statements + 1))) [
    | inl failed ↦ (t, rw failed here, rw failed live)
    | inr sent ↦
        let (u, f, r) = find-revoke_hash h now s.rows {t = t} here in (u, rw sent f, rw sent r)
  ]

  -- After a refresh that returned a new pair, the old refresh token is revoked exactly when the
  -- second statement of the call, the update that revokes it, did not fail: the error of that
  -- update is dropped and the pair is issued all the same.
  rotation_exact :
      (now : ℕ) (d : Draws) (raw : Text) (s : Tokens)
      → is_ok (refresh_tokens hash_token now d raw s).0 ≡ true
      → dead (hash_token raw) (refresh_tokens hash_token now d raw s).1.rows
        ≡ not (s.down (s.statements + 1))
  rotation_exact now d raw s h =
      let (t, here, live, same) = refresh_ok now d raw s h in
      let (u, row, fate) = spent-dead now (hash_token raw) s t here live in
      let kept = (issue-HasRow (hash_token raw) u now d t.user_id t.email t.role).after _ row in
      rw same (find-dead (hash_token raw) _ kept ∙ fate)
