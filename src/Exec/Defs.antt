-- ===== src/Exec/Defs.antt =====
-- The results and actions that `Exec` passes on.
use opemail.Prelude.{Bool, true, false, ◌≡◌, ◌⊎◌, inl, inr, refl}

pub data Result {ℓ} (E A : Type ℓ) : Type ℓ where
  ok : A → Result E A
  err : E → Result E A

abbrev pub Exec {ℓ} : Type ℓ → Type ℓ → Type ℓ → Type ℓ
Exec S E A = S → Result E A × S

abbrev pub is_ok {ℓ} : {E A : Type ℓ} → Result E A → Bool
is_ok (ok a) = true
is_ok (err e) = false

pub Result-cases {ℓ} :
    {E A : Type ℓ} (q : Result E A) → ((a : A) × (q ≡ ok a)) ⊎ ((e : E) × (q ≡ err e))
Result-cases (ok a) = inl (a, refl)
Result-cases (err e) = inr (e, refl)

module _ {ℓ} {S E A : Type ℓ} where
  unfoldable pub pure : A → Exec S E A
  pure a s = (ok a, s)

  unfoldable pub fail : E → Exec S E A
  fail e s = (err e, s)

abbrev pub recode {ℓ} : {E F A : Type ℓ} → F → Result E A → Result F A
recode f (ok a) = ok a
recode f (err e) = err f

-- `if err != nil { return f }`
unfoldable pub fail_with {ℓ} : {S E F A : Type ℓ} → F → Exec S E A → Exec S F A
fail_with f m s = (recode f (m s).0, (m s).1)

abbrev pub recode_by {ℓ} : {E F A : Type ℓ} → (E → F) → Result E A → Result F A
recode_by f (ok a) = ok a
recode_by f (err e) = err (f e)

module _ {S E : Type 0} where
  -- `_ = m()`
  unfoldable pub ignore : {F A : Type 0} → Exec S E A → Exec S F (Unit {0})
  ignore m s = (ok tt, (m s).1)

  -- `if b { return e }`
  unfoldable pub when : Bool → E → Exec S E (Unit {0})
  when true e s = (err e, s)
  when false e s = (ok tt, s)

module _ {ℓ} {S E A B : Type ℓ} where
  abbrev pub continue : Result E A → (A → Exec S E B) → Exec S E B
  continue (ok a) f s = f a s
  continue (err e) f s = (err e, s)

  infixl 10 ◌>>=◌ ◌>>◌
  -- opening the bind opens the actions above too
  unfoldable pub ◌>>=◌ : Exec S E A → (A → Exec S E B) → Exec S E B
  unfolding pure fail fail_with ignore when
  ◌>>=◌ m f s = continue (m s).0 f (m s).1

  abbrev pub ◌>>◌ : Exec S E A → Exec S E B → Exec S E B
  m >> n = m >>= λ _. n
