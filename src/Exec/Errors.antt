-- ===== src/Exec/Errors.antt =====
-- Errors that an action never returns: one rule for each way to build an action.
use opemail.Prelude.{◌≡◌, ◌≢◌, refl, Bool, true, false, if◌then◌else◌, arith}
use opemail.Exec.Keeps.{Keeps}
use opemail.Exec.Defs.{Result, ok, err, Exec, pure, when, continue, ◌>>=◌}

pub record Never {S E A : Type 0} (e : E) (m : Exec S E A) : Type 0 where
  pub at : (s : S) → (m s).0 ≢ err e

module _ {S E A : Type 0} {e : E} where
  pub Never-pure : (a : A) → Never e (pure {S = S} a)
  unfolding pure
  Never-pure a = record { at = λ s h. ground arith }

  pub Never-if :
      (b : Bool) (m n : Exec S E A) → Never e m → Never e n → Never e (if b then m else n)
  Never-if true m n km kn = km
  Never-if false m n km kn = kn

module _ {S E : Type 0} {e : E} where
  pub Never-when : (b : Bool) (x : E) → x ≢ e → Never e (when {S = S} b x)
  unfolding when
  Never-when true x d = record { at = λ s h. d (ground arith) }
  Never-when false x d = record { at = λ s h. ground arith }

module _ {S E A B : Type 0} {e : E} where
  Never-later :
      (r : Result E A) (f : A → Exec S E B)
      → r ≢ err e
      → ((a : A) → Never e (f a))
      → (s : S) → (continue r f s).0 ≢ err e
  Never-later (ok a) f k l s h = (l a).at s h
  Never-later (err x) f k l s h = k (ground arith)

  pub Never-bind :
      (m : Exec S E A) (f : A → Exec S E B)
      → Never e m
      → ((a : A) → Never e (f a))
      → Never e (m >>= f)
  unfolding ◌>>=◌
  Never-bind m f k l = record { at = λ s h. Never-later (m s).0 f (k.at s) l (m s).1 h }

pub ruleset never_rules = (Never-pure, Never-if, Never-when, Never-bind)

-- from a state with the first property, a failure with the error leaves a state with the second one
pub record Leaves {S E A : Type 0} (P Q : S → Type 0) (e : E) (m : Exec S E A) : Type 0 where
  pub after : (s : S) → P s → (m s).0 ≡ err e → Q (m s).1

module _ {S E A B : Type 0} {e : E} where
  left_early :
      (Q : S → Type 0) (r : Result E A) (f : A → Exec S E B) (s : S)
      → (r ≡ err e → Q s)
      → ((a : A) → Never e (f a))
      → (continue r f s).0 ≡ err e
      → Q (continue r f s).1
  left_early Q (ok a) f s k l h = elim ((l a).at s h) [ ]
  left_early Q (err x) f s k l h = k (ground arith)

module _ {S E A B : Type 0} {P Q : S → Type 0} {e : E} where
  left_later :
      (r : Result E A) (f : A → Exec S E B) (s : S)
      → r ≢ err e
      → ((a : A) → Leaves P Q e (f a))
      → P s
      → (continue r f s).0 ≡ err e
      → Q (continue r f s).1
  left_later (ok a) f s k l p h = (l a).after s p h
  left_later (err x) f s k l p h = elim (k (ground arith)) [ ]

  pub Leaves-late :
      (m : Exec S E A) (f : A → Exec S E B)
      → Never e m
      → Keeps P m
      → ((a : A) → Leaves P Q e (f a))
      → Leaves P Q e (m >>= f)
  unfolding ◌>>=◌
  Leaves-late m f k p l = record {
    after = λ s h. left_later (m s).0 f (m s).1 (k.at s) l (p.after s h);
  }

  pub Leaves-early :
      (m : Exec S E A) (f : A → Exec S E B)
      → Leaves P Q e m
      → ((a : A) → Never e (f a))
      → Leaves P Q e (m >>= f)
  unfolding ◌>>=◌
  Leaves-early m f k l = record { after = λ s p. left_early Q (m s).0 f (m s).1 (k.after s p) l }

module _ {S E B : Type 0} {P Q : S → Type 0} {e : E} where
  -- behind a guard that fails with another error
  pub Leaves-when :
      (c : Bool) (x : E) (f : Unit {0} → Exec S E B)
      → x ≢ e
      → (c ≡ false → Leaves P Q e (f tt))
      → Leaves P Q e (when c x >>= f)
  unfolding ◌>>=◌ when
  Leaves-when true x f d l = record { after = λ s p h. elim (d (ground arith)) [ ] }
  Leaves-when false x f d l = l refl
