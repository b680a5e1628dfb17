-- ===== src/Exec/Outcomes.antt =====
-- What holds after an action has returned, and actions that never return a value.
use opemail.Prelude.{◌≡◌, ◌⊎◌, refl, Bool, true, false, inl, inr, arith}
use opemail.Exec.Defs.{Result, ok, err, is_ok, Exec, when, continue, ◌>>=◌}
use opemail.Exec.Keeps.{Keeps}

-- the property holds of the state whenever the action returns
pub record Yields {S E A : Type 0} (P : S → Type 0) (m : Exec S E A) : Type 0 where
  pub after : (s : S) (a : A) → (m s).0 ≡ ok a → P (m s).1

-- from a state with the property the action returns an error, and the property still holds
pub record Refuses {S E A : Type 0} (P : S → Type 0) (m : Exec S E A) : Type 0 where
  pub after : (s : S) → P s → (is_ok (m s).0 ≡ false) × P (m s).1

module _ {S E A B : Type 0} {P : S → Type 0} where
  late :
      (r : Result E A) (f : A → Exec S E B)
      → ((a : A) → Yields P (f a))
      → (s : S) (b : B) → (continue r f s).0 ≡ ok b
      → P (continue r f s).1
  late (ok a) f y s b h = (y a).after s b h
  late (err e) f y s b h = ground arith

  pub Yields-late :
      (m : Exec S E A) (f : A → Exec S E B) → ((a : A) → Yields P (f a)) → Yields P (m >>= f)
  unfolding ◌>>=◌
  Yields-late m f y = record { after = λ s b h. late (m s).0 f y (m s).1 b h }

  early :
      (r : Result E A) (f : A → Exec S E B)
      → ((a : A) → Keeps P (f a))
      → (s : S) (b : B) → ((a : A) → r ≡ ok a → P s)
      → (continue r f s).0 ≡ ok b
      → P (continue r f s).1
  early (ok a) f k s b y h = (k a).after s (y a refl)
  early (err e) f k s b y h = ground arith

  pub Yields-early :
      (m : Exec S E A) (f : A → Exec S E B)
      → Yields P m
      → ((a : A) → Keeps P (f a))
      → Yields P (m >>= f)
  unfolding ◌>>=◌
  Yields-early m f y k = record {
    after = λ s b h. early (m s).0 f k (m s).1 b (λ a e. y.after s a e) h;
  }

  refused_from :
      (r : Result E A) (f : A → Exec S E B)
      → ((a : A) → Refuses P (f a)) ⊎ (is_ok r ≡ false)
      → (s : S) → P s
      → (is_ok (continue r f s).0 ≡ false) × P (continue r f s).1
  refused_from (ok a) f (inl x) s h = (x a).after s h
  refused_from (ok a) f (inr e) s h = ground arith
  refused_from (err e') f e s h = (refl, h)

  pub Refuses-late :
      (m : Exec S E A) (f : A → Exec S E B)
      → Keeps P m
      → ((a : A) → Refuses P (f a))
      → Refuses P (m >>= f)
  unfolding ◌>>=◌
  Refuses-late m f k x = record {
    after = λ s h. refused_from (m s).0 f (inl x) (m s).1 (k.after s h);
  }

  pub Refuses-early : (m : Exec S E A) (f : A → Exec S E B) → Refuses P m → Refuses P (m >>= f)
  unfolding ◌>>=◌
  Refuses-early m f x = record {
    after = λ s h. refused_from (m s).0 f (inr (x.after s h).0) (m s).1 (x.after s h).1;
  }

module _ {S E A B : Type 0} where
  continued :
      (r : Result E A) (f : A → Exec S E B) (s : S) (b : B)
      → (continue r f s).0 ≡ ok b
      → (a : A) × (r ≡ ok a) × ((f a s).0 ≡ ok b)
  continued (ok a) f s b h = (a, refl, h)
  continued (err e) f s b h = ground arith

  -- a bind that returns: its first action did
  pub bind_ok :
      (m : Exec S E A) (f : A → Exec S E B) (s : S) (b : B)
      → ((m >>= f) s).0 ≡ ok b
      → (a : A) × ((m s).0 ≡ ok a) × ((f a (m s).1).0 ≡ ok b)
  unfolding ◌>>=◌
  bind_ok m f s b h = continued (m s).0 f (m s).1 b h

  -- a bind whose first action returned
  pub bind_run :
      (m : Exec S E A) (f : A → Exec S E B) (s : S) (a : A)
      → (m s).0 ≡ ok a
      → (m >>= f) s ≡ f a (m s).1
  unfolding ◌>>=◌
  bind_run m f s a h = rw h refl

module _ {S E B : Type 0} where
  -- a guard that was passed
  pub when_ok :
      (c : Bool) (e : E) (f : Unit {0} → Exec S E B) (s : S) (b : B)
      → ((when c e >>= f) s).0 ≡ ok b
      → (c ≡ false) × ((f tt s).0 ≡ ok b)
  unfolding ◌>>=◌ when
  when_ok true e f s b h = ground arith
  when_ok false e f s b h = (refl, h)

  pub when_run :
      (c : Bool) (e : E) (f : Unit {0} → Exec S E B) (s : S)
      → c ≡ false
      → (when c e >>= f) s ≡ f tt s
  unfolding ◌>>=◌ when
  when_run c e f s h = rw h refl

module _ {S E A B : Type 0} (P : S → Type 0) where
  kept_on :
      (r : Result E A) (f : A → Exec S E B) (s : S)
      → ((a : A) → r ≡ ok a → Keeps P (f a))
      → P s
      → P (continue r f s).1
  kept_on (ok a) f s k h = (k a refl).after s h
  kept_on (err e) f s k h = h

  -- a bind whose second action keeps the property for the value that the first returned
  pub bind-keeps :
      (m : Exec S E A) (f : A → Exec S E B) (s : S)
      → ((a : A) → (m s).0 ≡ ok a → Keeps P (f a))
      → P (m s).1
      → P ((m >>= f) s).1
  unfolding ◌>>=◌
  bind-keeps m f s k h = kept_on (m s).0 f (m s).1 k h
