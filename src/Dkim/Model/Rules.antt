-- ===== src/Dkim/Model/Rules.antt =====
-- Outages and the calls of the service: a service that is up stays up.
use opemail.Exec.{Result, Exec}
use opemail.Exec.Keeps.{Keeps, keeps_rules}
use opemail.Database.{DbError, Db, IsUp}
use opemail.Database.Statements.{statement-IsUp}
use opemail.Directory.Tables.{Tables}
use opemail.Disk.{Disk}
use opemail.Dkim.Model.{DkimError, World, on_directory, on_disk, recoded}

module _ {A : Type 0} where
  pub recoded-IsUp :
      (f : DbError → DkimError) (m : Exec (Db World) DbError A)
      → Keeps IsUp m
      → Keeps IsUp (recoded f m)
  recoded-IsUp f m k = record { after = k.after }

  pub on_disk-IsUp : (run : Disk → Result DbError (A × Disk)) → Keeps IsUp (on_disk run)
  on_disk-IsUp run = statement-IsUp _

  pub on_directory-IsUp : (m : Exec (Db Tables) DbError A) → Keeps IsUp (on_directory m)
  on_directory-IsUp m = record { after = λ s h. h }

pub ruleset up_rules = (keeps_rules, recoded-IsUp, on_disk-IsUp, on_directory-IsUp, statement-IsUp)
