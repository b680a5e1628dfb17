-- ===== src/Provisioning/Examples.antt =====
-- Two accounts of one domain.
use opemail.Prelude.{◌≡◌, ◌≢◌, sym, ap, ◌∙◌, refl, true, false, some, [], ◌∷◌}
use opemail.Text.{Text, codes, eqb, canonical}
use opemail.Text.Laws.{eqb_refl}
use mathlib.Core.Bool.{false≢true}
use opemail.Exec.{ok}
use opemail.Database.{Db}
use opemail.Paths.{FilePath}
use opemail.Disk.{directory, file, Disk, node_at}
use opemail.Provisioning.{calculate_path, provision, deprovision, inspect}
use opemail.Provisioning.Agreement.{webmail_agrees}
use opemail.Provisioning.Removal.{deprovision_spares}
use opemail.Provisioning.Ready.{IsReady, inspect-provision}
use opemail.Webmail.Folders.{get_maildir_path}

abbrev root : FilePath
root = codes "vmail" ∷ []

abbrev maildir : FilePath
maildir = codes "Maildir" ∷ codes "ana" ∷ codes "b.id" ∷ root

abbrev other : FilePath
other = codes "Maildir" ∷ codes "ben" ∷ codes "b.id" ∷ root

abbrev message : FilePath
message = codes "1" ∷ codes "cur" ∷ other

abbrev disk : Db Disk
disk = record {
  rows = record { path = message; node = file (codes "hi") 416 1 } ∷ [];
  down = λ n. false;
  statements = 0;
}

webmail_agrees_example : get_maildir_path root (codes " Ana@b.id") ≡ ok maildir
unfolding calculate_path opemail.Text.split opemail.Text.canonical opemail.Text.is_empty
    opemail.Text.contains opemail.Text.Parts.contains_any opemail.Provisioning.is_localpart
    opemail.Provisioning.is_domain opemail.Disk.below_part opemail.Paths.enter opemail.Text.join
webmail_agrees_example = webmail_agrees root (codes " Ana@b.id") maildir refl

differ : canonical (codes "ana@b.id") ≢ canonical (codes "ben@b.id")
unfolding canonical eqb
differ h = false≢true (
    ap (λ t. eqb (canonical (codes "ana@b.id")) t) (sym h)
    ∙ eqb_refl (canonical (codes "ana@b.id")))

deprovision_spares_example :
    node_at message (deprovision root (codes "ana@b.id") disk).1.rows
    ≡ some (file (codes "hi") 416 1)
unfolding calculate_path opemail.Text.split canonical opemail.Text.is_empty opemail.Text.contains
    opemail.Text.Parts.contains_any opemail.Provisioning.is_localpart opemail.Provisioning.is_domain
    opemail.Disk.below_part opemail.Paths.enter opemail.Text.join opemail.Paths.below node_at
deprovision_spares_example =
    deprovision_spares root (codes "ana@b.id") (codes "ben@b.id") maildir other refl refl differ
      disk message (file (codes "hi") 416 1) refl refl

abbrev later : Db Disk
later = record {
  rows = (provision root true (codes "ana@b.id") disk).1.rows;
  down = λ n. false;
  statements = 0;
}

inspect-provision_example :
    IsReady maildir later.rows
    × ((inspect root (λ p. true) (codes "ana@b.id") later).0
        ≡ ok (record {
          maildir_exists = true;
          cur_exists = true;
          new_exists = true;
          tmp_exists = true;
          ownership = true;
          permission = true;
          healthy = true;
        }))
unfolding calculate_path opemail.Text.split opemail.Text.canonical opemail.Text.is_empty
    opemail.Text.contains opemail.Text.Parts.contains_any opemail.Provisioning.is_localpart
    opemail.Provisioning.is_domain opemail.Disk.below_part opemail.Paths.enter opemail.Text.join
    provision opemail.Exec.◌>>=◌
inspect-provision_example =
    inspect-provision root (λ p. true) (codes "ana@b.id") maildir true disk later refl refl
      (λ n. refl) refl
