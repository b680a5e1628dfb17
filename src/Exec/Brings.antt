-- ===== src/Exec/Brings.antt =====
-- What an action brings about: from a state with the first property, where it returns, one with the second.
use opemail.Prelude.{◌≡◌, refl, arith}
use opemail.Exec.Defs.{Result, ok, err, Exec, pure, fail_with, recode, continue, ◌>>=◌}
use opemail.Exec.Keeps.{Keeps}

pub record Brings {S E A : Type 0} (P Q : S → Type 0) (m : Exec S E A) : Type 0 where
  pub after : (s : S) (a : A) → P s → (m s).0 ≡ ok a → Q (m s).1

pub recode_ok : {E F A : Type 0} (f : F) (r : Result E A) (a : A) → recode f r ≡ ok a → r ≡ ok a
recode_ok f (ok b) a h = ground arith
recode_ok f (err e) a h = ground arith

module _ {S E A : Type 0} {P Q : S → Type 0} where
  pub Brings-pure : (a : A) → ((s : S) → P s → Q s) → Brings P Q (pure {E = E} a)
  unfolding pure
  Brings-pure a k = record { after = λ s b h e. k s h }

  pub Brings-fail_with :
      {F : Type 0} (f : F) (m : Exec S E A) → Brings P Q m → Brings P Q (fail_with f m)
  unfolding fail_with
  Brings-fail_with f m k = record { after = λ s a h e. k.after s a h (recode_ok f (m s).0 a e) }

module _ {S E A B : Type 0} {Q R : S → Type 0} where
  next :
      (r : Result E A) (f : A → Exec S E B)
      → ((a : A) → Brings Q R (f a))
      → (s : S) (b : B) → ((a : A) → r ≡ ok a → Q s)
      → (continue r f s).0 ≡ ok b
      → R (continue r f s).1
  next (ok a) f k s b q h = (k a).after s b (q a refl) h
  next (err e) f k s b q h = ground arith

module _ {S E A B : Type 0} {P Q R : S → Type 0} where
  pub Brings-bind :
      (m : Exec S E A) (f : A → Exec S E B)
      → Brings P Q m
      → ((a : A) → Brings Q R (f a))
      → Brings P R (m >>= f)
  unfolding ◌>>=◌
  Brings-bind m f km kf = record {
    after = λ s b h e. next (m s).0 f kf (m s).1 b (λ a r. km.after s a h r) e;
  }

module _ {S E A : Type 0} {P : S → Type 0} where
  -- what is kept is brought
  pub Brings-Keeps : (m : Exec S E A) → Keeps P m → Brings P P m
  Brings-Keeps m k = record { after = λ s a h e. k.after s h }
