-- ===== src/Database.antt =====
-- PostgreSQL as the repositories see it: a statement either fails and changes nothing, or runs on
-- the tables. `down n` says whether the n-th statement that is sent fails, so a theorem about all
-- `down` is a theorem about every pattern of outages.
pub mod Statements
use opemail.Prelude.{ℕ, ◌+◌, ◌≡◌, Bool, true, false}
use opemail.Exec.{Result, ok, err, Exec}

pub data DbError : Type 0 where
  unavailable duplicate no_rows : DbError

pub record Db (R : Type 0) : Type 0 where
  pub rows : R
  pub down : ℕ → Bool
  pub statements : ℕ

module _ {R : Type 0} where
  -- one more statement was sent
  abbrev pub sent : Db R → Db R
  sent s = record s { statements = s.statements + 1 }

  -- no statement fails from here on
  abbrev pub IsUp : Db R → Type 0
  IsUp s = (n : ℕ) → s.down n ≡ false

module _ {R A : Type 0} where
  abbrev pub answer : Db R → Result DbError (A × R) → Result DbError A × Db R
  answer s (ok (a, r)) = (ok a, record s { rows = r; statements = s.statements + 1 })
  answer s (err e) = (err e, sent s)

  abbrev pub attempt : Bool → (R → Result DbError (A × R)) → Exec (Db R) DbError A
  attempt true run s = (err unavailable, sent s)
  attempt false run s = answer s (run s.rows)

  abbrev pub statement : (R → Result DbError (A × R)) → Exec (Db R) DbError A
  statement run s = attempt (s.down s.statements) run s
