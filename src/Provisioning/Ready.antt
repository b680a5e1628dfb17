-- ===== src/Provisioning/Ready.antt =====
-- A mailbox that was provisioned.
use opemail.Prelude.{◌≡◌, refl, sym, ◌+◌, ◌||◌, Bool, true, [], ◌∷◌, any, arith}
use mathlib.Core.Path.{subst}
use opemail.Text.{Text, codes, is_empty, eqb}
use opemail.Exec.{ok, ◌>>=◌}
use opemail.Database.{Db, IsUp}
use opemail.Paths.{FilePath, enter, same}
use opemail.Paths.Inside.{enter-IsName, same_refl}
use opemail.Disk.{Disk, stat}
use opemail.Provisioning.{
  calculate_path, make_directories, directories_of, provision, inspect, look, lift,
}
use opemail.Provisioning.Removal.{path_parts}
use opemail.Provisioning.Made.{Has, Named, turns-Brings}

-- the four directories of a Maildir, each with the mode 0750
pub record IsReady (m : FilePath) (d : Disk) : Type 0 where
  pub maildir : Has m d
  pub cur : Has (codes "cur" ∷ m) d
  pub new : Has (codes "new" ∷ m) d
  pub tmp : Has (codes "tmp" ∷ m) d

enter_cur : (m : FilePath) → enter m (codes "cur") ≡ codes "cur" ∷ m
unfolding is_empty eqb
enter_cur m =
    enter-IsName m (codes "cur")
      (record { not_empty = refl; not_dot = refl; not_dots = refl; no_slash = refl })

enter_new : (m : FilePath) → enter m (codes "new") ≡ codes "new" ∷ m
unfolding is_empty eqb
enter_new m =
    enter-IsName m (codes "new")
      (record { not_empty = refl; not_dot = refl; not_dots = refl; no_slash = refl })

enter_tmp : (m : FilePath) → enter m (codes "tmp") ≡ codes "tmp" ∷ m
unfolding is_empty eqb
enter_tmp m =
    enter-IsName m (codes "tmp")
      (record { not_empty = refl; not_dot = refl; not_dots = refl; no_slash = refl })

listed :
    (a b c d q : FilePath)
    → same a q || same b q || same c q || same d q ≡ true
    → any (λ p. same p q) (a ∷ b ∷ c ∷ d ∷ []) ≡ true
listed a b c d q h = ground arith

module _ (owned : Bool) (e : Text) (p : FilePath) where
  all_made :
      (s : Db Disk)
      → (make_directories owned (directories_of (e ∷ p)) s).0 ≡ ok tt
      → IsReady (e ∷ p) (make_directories owned (directories_of (e ∷ p)) s).1.rows
  all_made s h =
      let m : FilePath = e ∷ p in
      let one = λ (q : FilePath). λ (n : Named owned q).
        λ (i : any (λ p. same p q) (directories_of m) ≡ true).
          (turns-Brings owned q (directories_of m) n i).after s tt tt h in
      record {
        maildir = one m tt (rw (same_refl m) refl);
        cur =
            one (codes "cur" ∷ m) tt (rw (enter_cur m, same_refl (codes "cur" ∷ m)) (ground arith));
        new =
            one (codes "new" ∷ m) tt (rw (enter_new m, same_refl (codes "new" ∷ m)) (ground arith));
        tmp =
            one (codes "tmp" ∷ m) tt (rw (enter_tmp m, same_refl (codes "tmp" ∷ m)) (ground arith));
      }

module _ (root : FilePath) (owner : FilePath → Bool) (email : Text) (p : FilePath) where
  report_on :
      (s : Db Disk)
      → calculate_path root email ≡ ok p
      → IsUp s
      → IsReady p s.rows
      → (inspect root owner email s).0
        ≡ ok (record {
          maildir_exists = true;
          cur_exists = true;
          new_exists = true;
          tmp_exists = true;
          ownership = owner p;
          permission = true;
          healthy = owner p;
        })
  unfolding inspect look stat ◌>>=◌
  report_on s path up r =
      let n = s.statements in
      rw (path, enter_cur p, enter_new p, enter_tmp p)
        (rw (up n, r.maildir)
          (rw (up (n + 1), r.cur)
            (rw (up (n + 1 + 1), r.new) (rw (up (n + 1 + 1 + 1), r.tmp) refl))))

  rooted-IsReady :
      (owned : Bool) (e : Text) (q : FilePath) (s : Db Disk)
      → p ≡ e ∷ q
      → calculate_path root email ≡ ok p
      → (provision root owned email s).0 ≡ ok tt
      → IsReady p (provision root owned email s).1.rows
  unfolding provision ◌>>=◌
  rooted-IsReady owned e q s is path h =
      let started : (make_directories owned (directories_of p) s).0 ≡ ok tt =
        subst (λ r. ((lift r >>= λ m. make_directories owned (directories_of m)) s).0 ≡ ok tt) path
          h in
      rw path (
        subst (λ z. IsReady z (make_directories owned (directories_of z) s).1.rows) (sym is)
          (all_made owned e q s
            (subst (λ z. (make_directories owned (directories_of z) s).0 ≡ ok tt) is started)))

  -- Once Provision has returned without an error, whichever calls it ignored, each of the four directories of the
  -- account is there with the mode 0750, and on the disk as it was left, while no later call fails, Inspect says so: it finds the four
  -- directories and the mode of the Maildir, and reports the account as healthy exactly when the owner is the one that is
  -- configured.
  pub inspect-provision :
      (owned : Bool) (s t : Db Disk)
      → calculate_path root email ≡ ok p
      → (provision root owned email s).0 ≡ ok tt
      → IsUp t
      → t.rows ≡ (provision root owned email s).1.rows
      → IsReady p t.rows
        × ((inspect root owner email t).0
            ≡ ok (record {
              maildir_exists = true;
              cur_exists = true;
              new_exists = true;
              tmp_exists = true;
              ownership = owner p;
              permission = true;
              healthy = owner p;
            }))
  inspect-provision owned s t path h up same =
      let (l, d, parts, is) = path_parts root email p path in
      let ready : IsReady p t.rows =
        subst (IsReady p) (sym same)
          (rooted-IsReady owned (codes "Maildir") (l ∷ d ∷ root) s is path h) in
      (ready, report_on t path up ready)
