-- ===== src/Exec/Keeps.antt =====
-- A property of the state that an action keeps, whether it returns or fails: one rule for each way
-- to build an action.
use opemail.Prelude.{◌≡◌, refl, Bool, true, false, if◌then◌else◌}
use opemail.Exec.Defs.{Result, ok, err, Exec, pure, fail, fail_with, ignore, when, continue, ◌>>=◌}

pub record Keeps {S E A : Type 0} (P : S → Type 0) (m : Exec S E A) : Type 0 where
  pub after : (s : S) → P s → P (m s).1

module _ {S E A : Type 0} {P : S → Type 0} where
  pub Keeps-pure : (a : A) → Keeps P (pure {E = E} a)
  unfolding pure
  Keeps-pure a = record { after = λ s h. h }

  pub Keeps-fail : (e : E) → Keeps P (fail {A = A} e)
  unfolding fail
  Keeps-fail e = record { after = λ s h. h }

  pub Keeps-fail_with : {F : Type 0} (f : F) (m : Exec S E A) → Keeps P m → Keeps P (fail_with f m)
  unfolding fail_with
  Keeps-fail_with f m k = record { after = k.after }

  pub Keeps-ignore : {F : Type 0} (m : Exec S E A) → Keeps P m → Keeps P (ignore {F = F} m)
  unfolding ignore
  Keeps-ignore m k = record { after = k.after }

  pub Keeps-if :
      (b : Bool) (m n : Exec S E A) → Keeps P m → Keeps P n → Keeps P (if b then m else n)
  Keeps-if true m n km kn = km
  Keeps-if false m n km kn = kn

module _ {S E : Type 0} {P : S → Type 0} where
  pub Keeps-when : (b : Bool) (e : E) → Keeps P (when {S = S} b e)
  unfolding when
  Keeps-when true e = record { after = λ s h. h }
  Keeps-when false e = record { after = λ s h. h }

module _ {S E A B : Type 0} {P : S → Type 0} where
  Keeps-continue :
      (r : Result E A) (f : A → Exec S E B)
      → ((a : A) → Keeps P (f a))
      → (s : S) → P s
      → P (continue r f s).1
  Keeps-continue (ok a) f k s h = (k a).after s h
  Keeps-continue (err e) f k s h = h

  pub Keeps-bind :
      (m : Exec S E A) (f : A → Exec S E B)
      → Keeps P m
      → ((a : A) → Keeps P (f a))
      → Keeps P (m >>= f)
  unfolding ◌>>=◌
  Keeps-bind m f km kf = record {
    after = λ s h. Keeps-continue (m s).0 f kf (m s).1 (km.after s h);
  }

  -- what comes after it may use what it gave
  pub Keeps-then :
      (m : Exec S E A) (f : A → Exec S E B)
      → Keeps P m
      → ((s : S) → P s → (a : A) → (m s).0 ≡ ok a → Keeps P (f a))
      → Keeps P (m >>= f)
  unfolding ◌>>=◌
  Keeps-then m f km kf = record {
    after = λ s h. after (m s).0 s (λ a e. kf s h a e) (km.after s h) refl;
  }
    where
      after :
          (r : Result E A) (s : S)
          → ((a : A) → (m s).0 ≡ ok a → Keeps P (f a))
          → P (m s).1
          → (m s).0 ≡ r
          → P (continue r f (m s).1).1
      after (ok a) s k h e = (k a e).after (m s).1 h
      after (err x) s k h e = h

pub ruleset keeps_rules =
    (Keeps-pure, Keeps-fail, Keeps-fail_with, Keeps-ignore, Keeps-if, Keeps-when, Keeps-bind)
