-- ===== src/Webmail/Examples.antt =====
-- A Maildir with a message beside another account's.
use opemail.Prelude.{
  ℕ, ◌*◌, ◌-◌, ◌&&◌, ◌^◌, ◌≡◌, refl, true, false, List, [], ◌∷◌, ◌++◌, take, drop, length, arith,
}
use opemail.Text.{Text, codes, canonical, split}
use opemail.Paths.{FilePath}
use opemail.Paths.Inside.{IsElement}
use opemail.Disk.{Disk, directory, file}
use opemail.Webmail.Folders.{get_maildir_path}
use opemail.Webmail.Folders.Isolation.{maildir_isolated}
use opemail.Webmail.Confinement.{Confines}
use opemail.Webmail.Messages.{mark_message_read, move_message, delete_message}
use opemail.Webmail.Messages.Lookup.{IsSane}
use opemail.Webmail.Messages.Confined.{messages_confined}
use opemail.Webmail.Pages.{paginate, page_or_first, limit_or_default}
use opemail.Directory.Tables.{pos, negsuc}
use opemail.Webmail.Pages.Entries.{is_positive, at_most, Chosen, IsPage, IsPage-entries}
use opemail.Webmail.Pages.Windows.{first_pages, pages_cover}

abbrev root : FilePath
root = codes "vmail" ∷ []

abbrev maildir : FilePath
maildir = codes "Maildir" ∷ codes "a" ∷ codes "b.id" ∷ root

abbrev disk : Disk
disk =
    record { path = codes "1.x:2,S" ∷ codes "cur" ∷ maildir; node = file (codes "hi") 416 5 }
    ∷ record { path = codes "cur" ∷ maildir; node = directory 488 }
    ∷ record { path = maildir; node = directory 488 }
    ∷ record {
      path = codes "1.y" ∷ codes "cur" ∷ codes "Maildir" ∷ codes "c" ∷ codes "b.id" ∷ root;
      node = file (codes "no") 416 6;
    }
    ∷ []

maildir_isolated_example : canonical (codes " A@b.id") ≡ canonical (codes "a@B.id")
unfolding split canonical opemail.Text.eqb get_maildir_path opemail.Text.is_empty
    opemail.Text.contains opemail.Text.Parts.contains_any opemail.Paths.enter
maildir_isolated_example =
    maildir_isolated root (codes " A@b.id") (codes "a@B.id") maildir (refl, (refl, tt))
      (refl, (refl, tt)) refl refl

disk-IsSane : IsSane disk
unfolding opemail.Text.eqb
disk-IsSane = (
  (one, (cur, at_home)),
  ((cur, at_home), (at_home, ((two, (cur, (md, (c, (dom, (v, tt)))))), tt))),
)
  where
    one : IsElement (codes "1.x:2,S")
    one = record { no_slash = refl; not_above = refl }

    two : IsElement (codes "1.y")
    two = record { no_slash = refl; not_above = refl }

    cur : IsElement (codes "cur")
    cur = record { no_slash = refl; not_above = refl }

    md : IsElement (codes "Maildir")
    md = record { no_slash = refl; not_above = refl }

    c : IsElement (codes "c")
    c = record { no_slash = refl; not_above = refl }

    a : IsElement (codes "a")
    a = record { no_slash = refl; not_above = refl }

    dom : IsElement (codes "b.id")
    dom = record { no_slash = refl; not_above = refl }

    v : IsElement (codes "vmail")
    v = record { no_slash = refl; not_above = refl }

    at_home : opemail.Prelude.All IsElement maildir
    at_home = (md, (a, (dom, (v, tt))))

messages_confined_example :
    Confines disk maildir
      (mark_message_read root (codes "a@b.id") (codes "inbox") (codes "1.x") false)
    × Confines disk maildir
        (move_message root (codes "a@b.id") (codes "inbox") (codes "Work") (codes "1.x"))
    × Confines disk maildir (delete_message root (codes "a@b.id") (codes "inbox") (codes "1.x"))
unfolding get_maildir_path split canonical opemail.Text.is_empty opemail.Text.contains
    opemail.Text.Parts.contains_any opemail.Paths.enter
messages_confined_example =
    messages_confined disk-IsSane root (codes "a@b.id") maildir refl (codes "inbox") (codes "Work")
      (codes "1.x") false

IsPage-entries_example :
    Chosen (is_positive (negsuc 1)) 1 (negsuc 1) (page_or_first (negsuc 1))
    × Chosen (is_positive (pos 2) && at_most 100 (pos 2)) 25 (pos 2) (limit_or_default (pos 2))
    × IsPage {A = ℕ} (1 ∷ 2 ∷ 3 ∷ []) 0 2 (paginate {A = ℕ} (1 ∷ 2 ∷ 3 ∷ []) 1 2)
IsPage-entries_example = IsPage-entries (1 ∷ 2 ∷ 3 ∷ []) (negsuc 1) (pos 2) (omega arith)

pages_cover_example : first_pages {A = ℕ} (1 ∷ 2 ∷ 3 ∷ []) 2 2 ≡ 1 ∷ 2 ∷ 3 ∷ []
pages_cover_example = pages_cover (1 ∷ 2 ∷ 3 ∷ []) 2 2 (ground arith)
