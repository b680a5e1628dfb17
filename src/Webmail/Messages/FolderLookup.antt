-- ===== src/Webmail/Messages/FolderLookup.antt =====
-- The directory of a folder lies in the Maildir.
use mathlib.Core.Path.{subst}
use opemail.Prelude.{
  ◌≡◌, refl, Bool, true, false, ◌||◌, Option, none, some, [], ◌∷◌, inl, inr, arith, any, Bool-cases,
  Option-cases, if◌then◌else◌, ◌==◌,
}
use opemail.Text.{
  Text, codes, eqb, is_empty, contains, has_prefix, trim_space, to_lower, equal_fold,
}
use opemail.Exec.{Result, ok, err}
use opemail.Paths.{FilePath, enter, clean_relative}
use opemail.Paths.Inside.{IsElement, Inside, Inside-enter}
use opemail.Disk.{Disk, Listed}
use opemail.Webmail.Folders.{
  WebmailError, invalid_folder, get_folder_dir, standard_folder, find_fold, new_folder,
  named_folder, search_folder, folder_dir_of, dotted,
}
use opemail.Webmail.Folders.Isolation.{no_dots}
use opemail.Webmail.Confinement.{Reads, Reads-lift, Reads-bind}
use opemail.Webmail.Messages.Lookup.{IsSane, AreListed, find_fold-IsElement, read_dir-Reads}

pick :
    (b : Bool) (x n : Text) (o : Option Text)
    → IsElement x
    → (o ≡ some n → IsElement n)
    → (if b then some x else o) ≡ some n
    → IsElement n
pick true x n o e k h = let is : x ≡ n = ground arith in subst IsElement is e
pick false x n o e k h = k h

-- each standard folder is one element
standard-IsElement : (f n : Text) → standard_folder f ≡ some n → IsElement n
unfolding standard_folder eqb
standard-IsElement f n h =
    pick _ (codes ".Sent") n _ (record { no_slash = refl; not_above = refl })
      (pick _ (codes ".Drafts") n _ (record { no_slash = refl; not_above = refl })
        (pick _ (codes ".Trash") n _ (record { no_slash = refl; not_above = refl })
          (pick _ (codes ".Junk") n _ (record { no_slash = refl; not_above = refl })
            (pick _ (codes ".Archive") n none (record { no_slash = refl; not_above = refl })
              (λ e. ground arith)))))
      h

contains-slash : (s : Text) → contains s (codes "/") ≡ false → any (λ c. c == b'/') s ≡ false
unfolding contains has_prefix
contains-slash [] h = refl
contains-slash (c ∷ s) h = ground (arith, contains-slash s)

pub the_same : (p q : FilePath) (r : Result WebmailError FilePath) → r ≡ ok p → r ≡ ok q → p ≡ q
the_same p q r h k = ground arith

module _ (m : FilePath) (top : Inside m m) where
  cleaned :
      (b : Bool) (c : Text) (p q : FilePath)
      → (if b then err invalid_folder else ok q) ≡ ok p
      → (b ≡ false) × (q ≡ p)
  cleaned true c p q h = ground arith
  cleaned false c p q h = (refl, ground arith)

  new_folder-Inside : (name : Text) (p : FilePath) → new_folder m name ≡ ok p → Inside m p
  unfolding new_folder
  new_folder-Inside name p h =
      let c = clean_relative name in
      let (b, is) = cleaned _ c p (enter m c) h in
      subst (Inside m) is (
        Inside-enter m m c
          (record {
            no_slash = contains-slash c (ground arith);
            not_above = no_dots c (ground arith);
          })
          top)

  named-Inside :
      (name : Text) (o : Option Listed) (p : FilePath)
      → AreListed o
      → named_folder m name o ≡ ok p
      → Inside m p
  named-Inside name none p n h = new_folder-Inside name p h
  named-Inside name (some es) p n h = elim (Option-cases (find_fold name es)) [
    | inl e ↦ new_folder-Inside name p (ground arith)
    | inr (f, e) ↦
        let is : enter m f ≡ p = ground arith in
        subst (Inside m) is (Inside-enter m m f (find_fold-IsElement name es f n e) top)
  ]

module _ {D : Disk} (sane : IsSane D) (m : FilePath) (top : Inside m m) where
  search-Reads : (name : Text) → Reads D (Inside m) (search_folder m name)
  unfolding search_folder
  search-Reads name =
      Reads-bind _ _ _ _ (read_dir-Reads sane m)
        (λ o r. Reads-lift _ _ (λ p h. named-Inside m top name o p r h))

  pub folder-Reads : (folder : Text) → Reads D (Inside m) (get_folder_dir m folder)
  unfolding get_folder_dir
  folder-Reads folder =
      elim (Bool-cases
        (is_empty (trim_space folder) || equal_fold (trim_space folder) (codes "inbox"))) [
          | inl t ↦ rw t (Reads-lift _ _ (λ p h. subst (Inside m) (the_same m p _ refl h) top))
          | inr f ↦ rw f (of_standard (standard_folder (to_lower (trim_space folder))) refl)
        ]
    where
      of_standard :
          (o : Option Text)
          → standard_folder (to_lower (trim_space folder)) ≡ o
          → Reads D (Inside m) (folder_dir_of m (trim_space folder) o)
      of_standard none e = search-Reads (dotted (trim_space folder))
      of_standard (some n) e = Reads-lift _ _ (λ p h.
          let is : enter m n ≡ p = ground arith in
          subst (Inside m) is (Inside-enter m m n (standard-IsElement _ n e) top))
