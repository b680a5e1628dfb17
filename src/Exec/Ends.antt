-- ===== src/Exec/Ends.antt =====
-- What holds after an action that returns, and after one that fails.
use opemail.Prelude.{◌≡◌, refl, arith}
use mathlib.Core.Path.{subst}
use opemail.Exec.Defs.{Result, ok, err, Exec, pure, fail_with, recode, continue, ◌>>=◌}

-- from a state with `P`: after a value the state has `Q`, and after an error `R`
pub record Ends {S E A : Type 0} (P : S → Type 0) (Q : A → S → Type 0) (R : S → Type 0)
    (m : Exec S E A) : Type 0 where
  pub value : (s : S) → P s → (a : A) → (m s).0 ≡ ok a → Q a (m s).1
  pub error : (s : S) → P s → (e : E) → (m s).0 ≡ err e → R (m s).1

module _ {S E A B : Type 0} {R : S → Type 0} {Q : A → S → Type 0} {T : B → S → Type 0} where
  value_next :
      (r : Result E A) (f : A → Exec S E B) (s : S)
      → ((a : A) → r ≡ ok a → Q a s)
      → ((a : A) → Ends (Q a) T R (f a))
      → (b : B) → (continue r f s).0 ≡ ok b
      → T b (continue r f s).1
  value_next (ok a) f s q k b h = (k a).value s (q a refl) b h
  value_next (err e) f s q k b h = ground arith

  error_next :
      (r : Result E A) (f : A → Exec S E B) (s : S)
      → ((a : A) → r ≡ ok a → Q a s)
      → ((e : E) → r ≡ err e → R s)
      → ((a : A) → Ends (Q a) T R (f a))
      → (x : E) → (continue r f s).0 ≡ err x
      → R (continue r f s).1
  error_next (ok a) f s q r' k x h = (k a).error s (q a refl) x h
  error_next (err e) f s q r' k x h = r' e refl

module _ {S E A B : Type 0} {P R : S → Type 0} {Q : A → S → Type 0} {T : B → S → Type 0} where
  pub Ends-bind :
      (m : Exec S E A) (f : A → Exec S E B)
      → Ends P Q R m
      → ((a : A) → Ends (Q a) T R (f a))
      → Ends P T R (m >>= f)
  unfolding ◌>>=◌
  Ends-bind m f h k = record {
    value = λ s p b e. value_next (m s).0 f (m s).1 (h.value s p) k b e;
    error = λ s p x e. error_next (m s).0 f (m s).1 (h.value s p) (h.error s p) k x e;
  }

module _ {E A F : Type 0} where
  value_recoded : (f : F) (r : Result E A) (a : A) → recode f r ≡ ok a → r ≡ ok a
  value_recoded f (ok b) a h = ground arith
  value_recoded f (err e) a h = ground arith

  error_recoded : (f x : F) (r : Result E A) → recode f r ≡ err x → (e : E) × (r ≡ err e)
  error_recoded f x (ok b) h = absurd (ground arith)
  error_recoded f x (err e) h = (e, refl)

module _ {S E A : Type 0} {P R : S → Type 0} {Q : A → S → Type 0} where
  pub Ends-pure : (a : A) → ((s : S) → P s → Q a s) → Ends P Q R (pure {E = E} a)
  unfolding pure
  Ends-pure a k = record {
    value = λ s p b e. let same : a ≡ b = ground arith in subst (λ b. Q b s) same (k s p);
    error = λ s p x e. ground arith;
  }

  pub Ends-fail_with :
      {F : Type 0} (f : F) (m : Exec S E A) → Ends P Q R m → Ends P Q R (fail_with f m)
  unfolding fail_with
  Ends-fail_with f m h = record {
    value = λ s p a e. h.value s p a (value_recoded f (m s).0 a e);
    error = λ s p x e. let (y, is) = error_recoded f x (m s).0 e in h.error s p y is;
  }

module _ {S E A : Type 0} {P P' R R' : S → Type 0} {Q Q' : A → S → Type 0} where
  -- less is asked before, or more is promised after
  pub Ends-weaken :
      (m : Exec S E A)
      → ((s : S) → P' s → P s)
      → ((a : A) (s : S) → Q a s → Q' a s)
      → ((s : S) → R s → R' s)
      → Ends P Q R m
      → Ends P' Q' R' m
  Ends-weaken m p q r h = record {
    value = λ s x a e. q a (m s).1 (h.value s (p s x) a e);
    error = λ s x e y. r (m s).1 (h.error s (p s x) e y);
  }
