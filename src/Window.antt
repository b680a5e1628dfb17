-- ===== src/Window.antt =====
-- Sliding windows of time stamps, which both rate limiters keep for each client: what the mail
-- limiter (internal/inbound/rate_limit.go) and the API limiter
-- (internal/api/middleware/rate_limit.go) have in common.
use opemail.Prelude.{
  ℕ, ◌+◌, ◌≤◌, ◌≡◌, refl, ◌∙◌, sym, ap, Bool, true, false, List, [], ◌∷◌, ◌++◌, keep, keep-append,
  keep-keep, length, length-append, length-keep, leb, arith, Bool-cases, inl, inr,
}
use opemail.Text.{Text, eqb, update}
use opemail.Text.Laws.{eqb_sound}

-- `fresh now t`: at `now` the stamp `t` lies in the window. What is fresh later was fresh before.
pub record IsWindow (fresh : ℕ → ℕ → Bool) : Type 0 where
  pub shrinks : (now later t : ℕ) → now ≤ later → fresh later t ≡ true → fresh now t ≡ true

-- The stored stamps are, up to stale ones, the stamps of the calls that were admitted, and these
-- are at most `cap` in the window.
pub record Tracks (fresh : ℕ → ℕ → Bool) (cap now : ℕ) (stored admitted : List ℕ) : Type 0 where
  pub same : keep (fresh now) stored ≡ keep (fresh now) admitted
  pub within : length (keep (fresh now) admitted) ≤ cap

leb-false : (a b : ℕ) → leb a b ≡ false → b + 1 ≤ a
leb-false a b h = ground arith

length_same : {xs ys : List ℕ} → xs ≡ ys → length xs ≡ length ys
length_same e = ap (λ (l : List ℕ). length l) e

-- no stamp, no call
pub Tracks-start : (fresh : ℕ → ℕ → Bool) (cap now : ℕ) → Tracks fresh cap now [] []
Tracks-start fresh cap now = record { same = refl; within = omega arith }

module _ (fresh : ℕ → ℕ → Bool) (w : IsWindow fresh) (cap : ℕ) where
  pub later-keep :
      (now later : ℕ) (ts : List ℕ)
      → now ≤ later
      → keep (fresh later) (keep (fresh now) ts) ≡ keep (fresh later) ts
  later-keep now later ts h = keep-keep (fresh later) (fresh now) ts (λ t. w.shrinks now later t h)

  -- as time passes
  pub Tracks-later :
      {now : ℕ} (later : ℕ) {stored admitted : List ℕ}
      → now ≤ later
      → Tracks fresh cap now stored admitted
      → Tracks fresh cap later stored admitted
  Tracks-later {now} later {stored} {admitted} h t = record {
    same =
        sym (later-keep now later stored h)
        ∙ ap (keep (fresh later)) t.same
        ∙ later-keep now later admitted h;
    within = omega (
      arith,
      t.within,
      length-keep (fresh later) (keep (fresh now) admitted),
      ap (λ (l : List ℕ). length l) (later-keep now later admitted h),
    );
  }

  -- dropping the stale stamps
  pub Tracks-keep :
      {now : ℕ} {stored admitted : List ℕ}
      → Tracks fresh cap now stored admitted
      → Tracks fresh cap now (keep (fresh now) stored) admitted
  Tracks-keep {now} {stored} t = record {
    same = keep-keep (fresh now) (fresh now) stored (λ x h. h) ∙ t.same;
    within = t.within;
  }

  -- one more call is admitted
  pub Tracks-admit :
      {now : ℕ} {stored admitted : List ℕ}
      → leb cap (length (keep (fresh now) stored)) ≡ false
      → Tracks fresh cap now stored admitted
      → Tracks fresh cap now (keep (fresh now) stored ++ now ∷ []) (admitted ++ now ∷ [])
  Tracks-admit {now} {stored} {admitted} room t = record {
    same =
        keep-append (fresh now) (keep (fresh now) stored) (now ∷ [])
        ∙ ap (λ l. l ++ keep (fresh now) (now ∷ [])) (Tracks-keep t).same
        ∙ sym (keep-append (fresh now) admitted (now ∷ []));
    within = omega (
      arith,
      leb-false _ _ room,
      length_same t.same,
      length_same (keep-append (fresh now) admitted (now ∷ [])),
      length-append (keep (fresh now) admitted) (keep (fresh now) (now ∷ [])),
      length-keep (fresh now) (now ∷ []),
    );
  }

  -- The same for a table of clients: a call of `key` leaves the other clients as they are.
  pub Tracks-update-keep :
      {now : ℕ} (stored admitted : Text → List ℕ) (key j : Text)
      → ((k : Text) → Tracks fresh cap now (stored k) (admitted k))
      → Tracks fresh cap now (update stored key (keep (fresh now) (stored key)) j) (admitted j)
  Tracks-update-keep {now} stored admitted key j t = elim (Bool-cases (eqb key j)) [
    | inl same ↦ rw same (rw (eqb_sound key j same) (Tracks-keep (t j)))
    | inr other ↦ rw other (t j)
  ]

  pub Tracks-update-admit :
      {now : ℕ} (stored admitted : Text → List ℕ) (key j : Text)
      → leb cap (length (keep (fresh now) (stored key))) ≡ false
      → ((k : Text) → Tracks fresh cap now (stored k) (admitted k))
      → Tracks fresh cap now
          (update stored key (keep (fresh now) (stored key) ++ now ∷ []) j)
          (update admitted key (admitted key ++ now ∷ []) j)
  Tracks-update-admit {now} stored admitted key j room t = elim (Bool-cases (eqb key j)) [
    | inl same ↦ rw same (Tracks-admit room (t key))
    | inr other ↦ rw other (t j)
  ]
