-- ===== src/Api/Router/Session.antt =====
-- What the authenticated routes ask of the Authorization header.
use opemail.Prelude.{
  ℕ, ◌≡◌, refl, true, false, Option, none, some, Option-cases, inl, inr, arith, ltb,
}
use opemail.Text.{Text, eqb}
use opemail.Exec.{ok, err, Result, ◌>>=◌}
use opemail.Token.Store.{ApiToken, Tokens, find, get_by_hash}
use opemail.Token.Manager.{Claims, validate_access_token, access, is_some}
use opemail.Api.Access.{served, bearer, authenticate, validated, claims_of}
use opemail.Api.Router.{Route, dispatch, guarded}

-- the row of an access token that may be used at a time
pub record IsLive (now : ℕ) (t : ApiToken) : Type 0 where
  an_access : eqb t.token_type access ≡ true
  unrevoked : is_some t.revoked_at ≡ false
  unexpired : ltb t.expires_at now ≡ false

guarded-some :
    (r : Route) (target : Text) (o : Option Claims)
    → guarded r target o ≡ served
    → (c : Claims) × (o ≡ some c)
guarded-some r target none h = ground arith
guarded-some r target (some c) h = (c, refl)

ok-claims_of : {E : Type 0} (q : Result E Claims) (c : Claims) → claims_of q ≡ some c → q ≡ ok c
ok-claims_of (ok d) c h = ground arith
ok-claims_of (err e) c h = ground arith

module _ (hash_token : Text → Text) (now : ℕ) where
  valid-IsLive :
      (raw : Text) (s : Tokens) (c : Claims)
      → (validate_access_token hash_token now raw s).0 ≡ ok c
      → (t : ApiToken) × (find (hash_token raw) s.rows ≡ some t) × IsLive now t
  unfolding validate_access_token get_by_hash ◌>>=◌
  valid-IsLive raw s c h = elim (Option-cases (find (hash_token raw) s.rows)) [
    | inl e ↦ ground arith
    | inr (t, e) ↦ (
      t,
      e,
      record { an_access = ground arith; unrevoked = ground arith; unexpired = ground arith },
    )
  ]

  -- A request that an authenticated route serves carries a bearer token whose hash is that of an
  -- access token stored, not revoked and not past its end.
  pub served_needs_token :
      (header : Text) (r : Route) (target : Text) (s : Tokens)
      → (dispatch hash_token now header r target s).0 ≡ served
      → (raw : Text) × (t : ApiToken) × (bearer header ≡ some raw)
        × (find (hash_token raw) s.rows ≡ some t)
        × IsLive now t
  unfolding dispatch authenticate
  served_needs_token header r target s h =
      let (c, held) = guarded-some r target (authenticate hash_token now header s).0 h in
      by_token (bearer header) refl c held
    where
      by_token :
          (o : Option Text)
          → bearer header ≡ o
          → (c : Claims) → (validated hash_token now o s).0 ≡ some c
          → (raw : Text) × (t : ApiToken) × (bearer header ≡ some raw)
            × (find (hash_token raw) s.rows ≡ some t)
            × IsLive now t
      by_token none e c held = ground arith
      by_token (some raw) e c held =
          let (t, here, live) = valid-IsLive raw s c (ok-claims_of _ c held) in
          (raw, t, e, here, live)
