-- ===== src/Database/Statements.antt =====
-- What a statement does to the rows, whether it fails or not.
use opemail.Prelude.{ℕ, ◌≡◌, refl, sym, Bool, true, false, arith}
use opemail.Exec.{Result, ok, err, is_ok}
use opemail.Exec.Keeps.{Keeps}
use opemail.Exec.Brings.{Brings}
use opemail.Exec.Ends.{Ends}
use opemail.Exec.Outcomes.{Yields, Refuses}
use opemail.Database.{DbError, Db, IsUp, answer, attempt, statement}

module _ {R A : Type 0} where
  answered :
      (Q : R → Type 0) (s : Db R) (q : Result DbError (A × R))
      → ((a : A) (r : R) → q ≡ ok (a, r) → Q r)
      → Q s.rows
      → Q (answer s q).1.rows
  answered Q s (ok (a, r)) k h = k a r refl
  answered Q s (err e) k h = h

  attempted :
      (Q : R → Type 0) (b : Bool) (run : R → Result DbError (A × R)) (s : Db R)
      → ((a : A) (r : R) → run s.rows ≡ ok (a, r) → Q r)
      → Q s.rows
      → Q (attempt b run s).1.rows
  attempted Q true run s k h = h
  attempted Q false run s k h = answered Q s (run s.rows) k h

  pub statement-Keeps :
      (Q : R → Type 0) (run : R → Result DbError (A × R))
      → ((t : R) (a : A) (r : R) → run t ≡ ok (a, r) → Q t → Q r)
      → Keeps (λ s. Q s.rows) (statement run)
  statement-Keeps Q run k = record {
    after = λ s h. attempted Q (s.down s.statements) run s (λ a r e. k s.rows a r e h) h;
  }

  returned :
      (Q : R → Type 0) (b : Bool) (run : R → Result DbError (A × R)) (s : Db R) (a : A)
      → (attempt b run s).0 ≡ ok a
      → ((r : R) → run s.rows ≡ ok (a, r) → Q r)
      → Q (attempt b run s).1.rows
  returned Q true run s a e k = ground arith
  returned Q false run s a e k = of_answer (run s.rows) refl e
    where
      of_answer :
          (q : Result DbError (A × R))
          → run s.rows ≡ q
          → (answer s q).0 ≡ ok a
          → Q (answer s q).1.rows
      of_answer (ok (b, r)) here e = let same : b ≡ a = ground arith in k r (rw (sym same) here)
      of_answer (err x) here e = ground arith

  pub statement-Yields :
      (Q : R → Type 0) (run : R → Result DbError (A × R))
      → ((t : R) (a : A) (r : R) → run t ≡ ok (a, r) → Q r)
      → Yields (λ s. Q s.rows) (statement run)
  statement-Yields Q run k = record {
    after = λ s a e. returned Q (s.down s.statements) run s a e (λ r h. k s.rows a r h);
  }

  pub statement-Brings :
      (P Q : R → Type 0) (run : R → Result DbError (A × R))
      → ((t : R) (a : A) (r : R) → run t ≡ ok (a, r) → P t → Q r)
      → Brings (λ s. P s.rows) (λ s. Q s.rows) (statement run)
  statement-Brings P Q run k = record {
    after = λ s a h e. returned Q (s.down s.statements) run s a e (λ r g. k s.rows a r g h);
  }

  not_returned :
      (Q : R → Type 0) (b : Bool) (run : R → Result DbError (A × R)) (s : Db R) (e : DbError)
      → (attempt b run s).0 ≡ err e
      → Q s.rows
      → Q (attempt b run s).1.rows
  not_returned Q true run s e h q = q
  not_returned Q false run s e h q = of_answer (run s.rows) h
    where
      of_answer : (q : Result DbError (A × R)) → (answer s q).0 ≡ err e → Q (answer s q).1.rows
      of_answer (ok (b, r)) e = ground arith
      of_answer (err x) e = q

  pub statement-Ends :
      (P Q : R → Type 0) (run : R → Result DbError (A × R))
      → ((t : R) (a : A) (r : R) → P t → run t ≡ ok (a, r) → Q r)
      → Ends (λ s. P s.rows) (λ a s. Q s.rows) (λ s. P s.rows) (statement run)
  statement-Ends P Q run k = record {
    value = λ s p a h. returned Q (s.down s.statements) run s a h (λ r g. k s.rows a r p g);
    error = λ s p e h. not_returned P (s.down s.statements) run s e h p;
  }

  refused :
      (Q : R → Type 0) (b : Bool) (run : R → Result DbError (A × R)) (s : Db R) (e : DbError)
      → run s.rows ≡ err e
      → Q s.rows
      → (is_ok (attempt b run s).0 ≡ false) × Q (attempt b run s).1.rows
  refused Q true run s e here h = (refl, h)
  refused Q false run s e here h = rw here (refl, h)

  pub statement-Refuses :
      (Q : R → Type 0) (run : R → Result DbError (A × R)) (e : DbError)
      → ((t : R) → Q t → run t ≡ err e)
      → Refuses (λ s. Q s.rows) (statement run)
  statement-Refuses Q run e k = record {
    after = λ s h. refused Q (s.down s.statements) run s e (k s.rows h) h;
  }

  IsUp-after :
      (b : Bool) (run : R → Result DbError (A × R)) (s : Db R) → IsUp s → IsUp (attempt b run s).1
  IsUp-after true run s h = h
  IsUp-after false run s h = answered_up (run s.rows)
    where
      answered_up : (q : Result DbError (A × R)) → IsUp (answer s q).1
      answered_up (ok (a, r)) = h
      answered_up (err e) = h

  -- no call that is sent starts an outage
  pub statement-IsUp : (run : R → Result DbError (A × R)) → Keeps IsUp (statement run)
  statement-IsUp run = record { after = λ s h. IsUp-after (s.down s.statements) run s h }

  down-after :
      (D : ℕ → Bool) (b : Bool) (run : R → Result DbError (A × R)) (s : Db R)
      → s.down ≡ D
      → (attempt b run s).1.down ≡ D
  down-after D true run s h = h
  down-after D false run s h = of_answer (run s.rows)
    where
      of_answer : (q : Result DbError (A × R)) → (answer s q).1.down ≡ D
      of_answer (ok (a, r)) = h
      of_answer (err e) = h

  -- no statement changes which ones fail
  pub statement-Down :
      (D : ℕ → Bool) (run : R → Result DbError (A × R)) → Keeps (λ s. s.down ≡ D) (statement run)
  statement-Down D run = record { after = λ s h. down-after D (s.down s.statements) run s h }
