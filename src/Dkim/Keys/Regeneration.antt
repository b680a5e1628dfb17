-- ===== src/Dkim/Keys/Regeneration.antt =====
-- A key that is generated again under a selector that is in use.
use opemail.Prelude.{
  not-false, ◌≡◌, refl, ℕ, Bool, true, false, Option, inl, inr, arith, Bool-cases, Option-cases,
}
use opemail.Text.{Text, folded}
use opemail.Exec.{Result, ok, err, Exec, Result-cases, ◌>>=◌}
use opemail.Exec.Errors.{Leaves, Leaves-when, Leaves-late, Leaves-early, Never-pure}
use opemail.Database.{Db, IsUp}
use opemail.Paths.{FilePath, parent, same}
use opemail.Paths.Inside.{same_sound}
use opemail.Disk.{Disk, directory, file, is_file, node_at, erase, remove, removed, has_children}
use opemail.Disk.Laws.{node_at-erase, node_at-erase_other}
use opemail.Dkim.Model.{DkimError, key_exists, World, Crypto, PrivateKey, Key, on_disk}
use opemail.Dkim.Selector.{is_valid_selector}
use opemail.Dkim.Keystore.{get_private_key_path, delete_private_key, removal}
use opemail.Dkim.Keys.Steps.{
  invalid_other, store-Never, domain_of-Never, Never-lift, generate-other, validate-other,
  lift-IsUp, store-IsUp, domain_of-IsUp, create-IsUp,
}
use opemail.Dkim.Keys.{generate_key, selector_or_default, or_clean, compensated}
use opemail.Dkim.Repository.{create_dkim_key}

-- whether a key's file is there
abbrev pub has_file : FilePath → Db World → Bool
unfolding node_at
has_file p s = is_file (node_at p s.rows.disk)

file-erase :
    (p q : FilePath) (d : Disk)
    → is_file (node_at p d) ≡ false
    → is_file (node_at p (erase q d)) ≡ false
file-erase p q d h = elim (Bool-cases (same q p)) [
  | inl e ↦ let is : q ≡ p = same_sound q p e in rw (is, node_at-erase p d) refl
  | inr e ↦ rw (node_at-erase_other q p d e) h
]

-- os.Remove takes the file away, where no call fails
remove-gone :
    (p : FilePath) (s : Db World)
    → s.down s.statements ≡ false
    → has_file p (on_disk (remove p) s).1 ≡ false
unfolding remove removed
remove-gone p s up = elim (Option-cases (node_at p s.rows.disk)) [
  | inl e ↦ rw (up, e) (rw e refl)
  | inr (directory m, e) ↦ elim (Bool-cases (has_children p s.rows.disk)) [
    | inl c ↦ rw (up, e, c) (rw e refl)
    | inr c ↦ rw (up, e, c) (rw (node_at-erase p s.rows.disk) refl)
  ]
  | inr (file c m t, e) ↦ rw (up, e) (rw (node_at-erase p s.rows.disk) refl)
]

-- and brings no file back, whether it fails or not
remove-file :
    (p q : FilePath) (s : Db World)
    → has_file p s ≡ false
    → has_file p (on_disk (remove q) s).1 ≡ false
unfolding remove removed
remove-file p q s h = elim (Bool-cases (s.down s.statements)) [
  | inl d ↦ rw d h
  | inr d ↦ elim (Option-cases (node_at q s.rows.disk)) [
    | inl e ↦ rw (d, e) h
    | inr (directory m, e) ↦ elim (Bool-cases (has_children q s.rows.disk)) [
      | inl c ↦ rw (d, e, c) h
      | inr c ↦ rw (d, e, c) (file-erase p q s.rows.disk h)
    ]
    | inr (file c m t, e) ↦ rw (d, e) (file-erase p q s.rows.disk h)
  ]
]

-- `DeletePrivateKey` takes the file away, where its first call does not fail
delete-gone :
    (base : FilePath) (domain selector : Text) (s : Db World)
    → is_valid_selector selector ≡ true
    → s.down s.statements ≡ false
    → has_file
        (get_private_key_path base domain selector)
        (delete_private_key base domain selector s).1
      ≡ false
unfolding delete_private_key ◌>>=◌
delete-gone base domain selector s v up = rw v (
    let p = get_private_key_path base domain selector in
    let gone = remove-gone p s up in
    elim (Result-cases (removal (on_disk (remove p) s).0)) [
      | inl (u, e) ↦ rw e (remove-file p (parent p) (on_disk (remove p) s).1 gone)
      | inr (x, e) ↦ rw e gone
    ])

compensated-gone :
    (p : FilePath) (q : Result DkimError (Unit {0}))
    (cleanup : Exec (Db World) DkimError (Unit {0})) (s : Db World)
    → (compensated q cleanup s).0 ≡ err key_exists
    → has_file p (cleanup s).1 ≡ false
    → has_file p (compensated q cleanup s).1 ≡ false
compensated-gone p (ok u) cleanup s h k = ground arith
compensated-gone p (err e) cleanup s h k = k

module _ (base : FilePath) (domain selector : Text) where
  abbrev Gone : Db World → Type 0
  Gone s = has_file (get_private_key_path base domain selector) s ≡ false

  clean-Leaves :
      (k : Key)
      → is_valid_selector selector ≡ true
      → Leaves IsUp Gone key_exists
          (or_clean (create_dkim_key k) (delete_private_key base domain selector))
  clean-Leaves k v = record {
    after = λ s up h.
        let t = (create_dkim_key k s).1 in
        let still = (create-IsUp k).after s up in
        compensated-gone _ (create_dkim_key k s).0 (delete_private_key base domain selector) t h
          (delete-gone base domain selector t v (still t.statements));
  }

module _ (C : Crypto) where
  -- While no call fails, a `generate_key` that reports that the key exists has removed the file of that key.
  pub regenerate_destroys :
      (now id : ℕ) (drawn : Text) (k : Option PrivateKey) (base : FilePath) (domain selector : Text)
      (s : Db World)
      → IsUp s
      → (generate_key C now id drawn k base domain selector s).0 ≡ err key_exists
      → has_file
          (get_private_key_path base (folded domain) (selector_or_default selector))
          (generate_key C now id drawn k base domain selector s).1
        ≡ false
  unfolding generate_key
  regenerate_destroys now id drawn k base domain selector =
      (Leaves-when {Q = Gone base (folded domain) (selector_or_default selector)} _ _ _
        invalid_other
        (λ v.
          Leaves-late _ _ (domain_of-Never (folded domain)) (domain_of-IsUp (folded domain)) (λ d.
            Leaves-late _ _ (Never-lift _ (generate-other C k)) (lift-IsUp _) (λ pair.
              Leaves-late _ _ (Never-lift _ (validate-other C pair.private_key_pem)) (lift-IsUp _)
                (λ _.
                  Leaves-late _ _
                    (store-Never now drawn base (folded domain) (selector_or_default selector)
                      pair.private_key_pem)
                    (store-IsUp now drawn base (folded domain) (selector_or_default selector)
                      pair.private_key_pem)
                    (λ _.
                      Leaves-early _ _
                        (clean-Leaves base (folded domain) (selector_or_default selector) _
                          (not-false _ v))
                        (λ _. Never-pure _))))))).after
