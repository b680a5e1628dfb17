-- ===== src/Dkim/Keys/Activation.antt =====
-- What activating and revoking a key do to the rows, while no call fails.
use opemail.Prelude.{
  ℕ, ◌+◌, ◌≡◌, refl, Bool, true, some, List, [], ◌∷◌, map, any, arith, Bool-cases, Option-cases,
  inl, inr, ◌==◌, if◌then◌else◌,
}
use opemail.Text.{Text}
use opemail.Exec.{ok, err, ◌>>=◌}
use opemail.Database.{Db, IsUp}
use opemail.Directory.Tables.{Domain, find_name, find_domain}
use opemail.Domains.Repository.{get_by_name}
use opemail.Paths.{FilePath}
use opemail.Disk.{Disk, directory, file, is_file, node_at, stat, stat_of}
use opemail.Dkim.Model.{private_key_not_found, active, revoked, Key, World}
use opemail.Dkim.Repository.{
  first_key, has_selector, get_dkim_key_by_selector, activate_dkim_key, revoke_dkim_key,
}
use opemail.Dkim.Keystore.{get_private_key_path, has_private_key}
use opemail.Dkim.Keys.{domain_of, activate_key, revoke_key}

stat_is : (p : FilePath) (d : Disk) → stat p d ≡ stat_of d (node_at p d)
unfolding stat
stat_is p d = refl

abbrev pub activated : ℕ → ℕ → Key → Key
activated now id k = if k.id == id then record k { status = active; activated_at = some now } else k

abbrev pub revoked_by : ℕ → ℕ → Key → Key
revoked_by now id k = if k.id == id then record k { status = revoked; revoked_at = some now } else k

-- a key that a look-up finds is a row, up to the name that the join fills in
first_key-any :
    (p : Key → Bool) (w : World) (ks : List Key) (key : Key)
    → first_key p w ks ≡ some key
    → any (λ k. k.id == key.id) ks ≡ true
unfolding first_key
first_key-any p w [] key h = ground arith
first_key-any p w (k ∷ ks) key h = elim (Bool-cases (p k)) [
  | inl t ↦ elim (Option-cases (find_domain k.domain_id w.directory.domains)) [
    | inl e ↦ let rest = first_key-any p w ks key in ground arith
    | inr (d, e) ↦ ground arith
  ]
  | inr f ↦ let rest = first_key-any p w ks key in ground arith
]

module _ (now : ℕ) (base : FilePath) (name selector : Text) (s : Db World) (d : Domain)
    (key : Key) where
  -- While no system call and no statement fails, `activate_key` on a selector of the domain that has a key, whatever
  -- the status of that key: where the file of the private key is there, that row alone becomes active, and otherwise
  -- `activate_key` fails and no row changes.
  pub activate_exact :
      IsUp s
      → find_name name s.rows.directory.domains ≡ some d
      → first_key (has_selector d.id selector) s.rows s.rows.keys ≡ some key
      → let there = is_file (node_at (get_private_key_path base name selector) s.rows.disk) in
        ((activate_key now base name selector s).0
          ≡ (if there then ok tt else err private_key_not_found))
        × ((activate_key now base name selector s).1.rows.keys
            ≡ (if there then map (activated now key.id) s.rows.keys else s.rows.keys))
  unfolding activate_key domain_of get_by_name get_dkim_key_by_selector has_private_key
      activate_dkim_key stat ◌>>=◌
  activate_exact up by_name found =
      let row = first_key-any _ s.rows s.rows.keys key found in
      rw (up s.statements, by_name)
        (rw (up (s.statements + 1), found)
          (rw
            (
              up (s.statements + 1 + 1),
              stat_is (get_private_key_path base name selector) s.rows.disk,
            )
            (elim (Option-cases (node_at (get_private_key_path base name selector) s.rows.disk)) [
              | inl e ↦ rw e (refl, refl)
              | inr (directory m, e) ↦ rw e (refl, refl)
              | inr (file c m t, e) ↦ rw e (rw (up (s.statements + 1 + 1 + 1), row) (refl, refl))
            ])))

  -- While no call fails, `revoke_key` on a selector of the domain that has a key makes the row of that key revoked, and
  -- no other row changes.
  revoke_exact :
      IsUp s
      → find_name name s.rows.directory.domains ≡ some d
      → first_key (has_selector d.id selector) s.rows s.rows.keys ≡ some key
      → ((revoke_key now name selector s).0 ≡ ok tt)
        × ((revoke_key now name selector s).1.rows.keys ≡ map (revoked_by now key.id) s.rows.keys)
  unfolding revoke_key domain_of get_by_name get_dkim_key_by_selector revoke_dkim_key ◌>>=◌
  revoke_exact up by_name found =
      let row = first_key-any _ s.rows s.rows.keys key found in
      rw (up s.statements, by_name)
        (rw (up (s.statements + 1), found) (rw (up (s.statements + 1 + 1), row) (refl, refl)))
