-- ===== src/Tls/Replace/Writes.antt =====
-- `atomicWriteSecret` leaves the file as it was, or replaced.
use mathlib.Core.Path.{subst}
use opemail.Prelude.{◌≡◌, refl, ap, ◌∙◌, ℕ, [], inl, inr, arith, Bool-cases, Option-cases}
use opemail.Text.{Text}
use opemail.Exec.{Exec, ok}
use opemail.Database.{Db, statement}
use opemail.Database.Statements.{statement-Ends, statement-Keeps}
use opemail.Exec.Keeps.{Keeps}
use opemail.Exec.Ends.{Ends, Ends-bind, Ends-weaken, Ends-fail_with}
use opemail.Paths.{FilePath}
use opemail.Disk.{
  Node, Disk, Outcome, node_at, erase, directory, file, create_new, rename_file, remove, removed,
  has_children,
}
use opemail.Webmail.Writes.{ok_right}
use opemail.Tls.Model.{TlsError, failed}
use opemail.Tls.Store.{failing, write_and_rename, atomic_write_secret, temporary, removing}
use opemail.Tls.Replace.{
  IsBut, Draft, create_new-Draft, overwrite-Draft, chmod-Draft, same-Draft, Replaced,
  rename_file-Replaced, IsBut-erase,
}

module _ (now : ℕ) (tmp target : FilePath) (d : Disk) where
  -- a system call between two drafts, whose failure leaves the disk as it was but for the temporary file
  Draft-step :
      (m n : Node) (run : Disk → Outcome (Unit {0}))
      → ((t r : Disk) (u : Unit {0}) → Draft tmp m d t → run t ≡ ok (u, r) → Draft tmp n d r)
      → Ends
          (λ s. Draft tmp m d s.rows)
          (λ u s. Draft tmp n d s.rows)
          (λ s. IsBut tmp d s.rows)
          (failing failed run)
  Draft-step m n run k = Ends-fail_with failed (statement run) (
      Ends-weaken (statement run) (λ s p. p) (λ u s q. q) (λ s r. r.rest)
        (statement-Ends (Draft tmp m d) (Draft tmp n d) run (λ t u r p e. k t r u p e)))

  rename_step :
      (n : Node)
      → Ends
          (λ s. Draft tmp n d s.rows)
          (λ u s. Replaced tmp target n d s.rows)
          (λ s. IsBut tmp d s.rows)
          (failing failed (rename_file tmp target))
  rename_step n = Ends-fail_with failed (statement (rename_file tmp target)) (
      Ends-weaken (statement (rename_file tmp target)) (λ s p. p) (λ u s q. q) (λ s r. r.rest)
        (statement-Ends (Draft tmp n d) (Replaced tmp target n d) (rename_file tmp target)
          (λ t u r p e. rename_file-Replaced tmp target n d t r u p e)))

  write_and_rename-Ends :
      (content : Text) (perm : ℕ)
      → Ends
          (λ s. Draft tmp (file [] 384 now) d s.rows)
          (λ u s. Replaced tmp target (file content perm now) d s.rows)
          (λ s. IsBut tmp d s.rows)
          (write_and_rename now tmp target content perm)
  unfolding write_and_rename
  write_and_rename-Ends content perm =
      let first = file [] 384 now in
      let filled = file content 384 now in
      let final = file content perm now in
      Ends-bind _ _
        (Draft-step first filled _
          (λ t r u k e. overwrite-Draft tmp d t r u content [] now 384 now k e))
        (λ u.
          Ends-bind _ _
            (Draft-step filled filled _ (λ t r u k e. same-Draft tmp d t r u filled k e))
            (λ u.
              Ends-bind _ _
                (Draft-step filled final _
                  (λ t r u k e. chmod-Draft tmp d t r u content perm 384 now k e))
                (λ u.
                  Ends-bind _ _
                    (Draft-step final final _ (λ t r u k e. same-Draft tmp d t r u final k e))
                    (λ u. rename_step final))))

remove-IsBut :
    (tmp : FilePath) (t r : Disk) (u : Unit {0}) → remove tmp t ≡ ok (u, r) → IsBut tmp t r
unfolding remove removed
remove-IsBut tmp t r u h = elim (Option-cases (node_at tmp t)) [
  | inl o ↦ absurd (ground arith)
  | inr (file c i n, o) ↦
      subst (IsBut tmp t) (ok_right (remove tmp t) (erase tmp t) u (rw o refl) h) erased
  | inr (directory i, o) ↦ elim (Bool-cases (has_children tmp t)) [
    | inl b ↦ absurd (ground arith)
    | inr b ↦
        subst (IsBut tmp t) (ok_right (remove tmp t) (erase tmp t) u (rw (o, b) refl) h) erased
  ]
]
  where
    erased : IsBut tmp t (erase tmp t)
    erased = IsBut-erase tmp t t (λ q o. refl)

-- what holds of all other files survives the removal of the temporary one
removing-Ends :
    {A : Type 0} (tmp : FilePath) (P Q R : Disk → Type 0) (m : Exec (Db Disk) TlsError A)
    → ((t r : Disk) → IsBut tmp t r → Q t → Q r)
    → ((t r : Disk) → IsBut tmp t r → R t → R r)
    → Ends (λ s. P s.rows) (λ a s. Q s.rows) (λ s. R s.rows) m
    → Ends (λ s. P s.rows) (λ a s. Q s.rows) (λ s. R s.rows) (removing tmp m)
removing-Ends tmp P Q R m q r h = record {
  value = λ s p a e. (kept Q q).after (m s).1 (h.value s p a e);
  error = λ s p x e. (kept R r).after (m s).1 (h.error s p x e);
}
  where
    kept :
        (Q : Disk → Type 0)
        → ((t r : Disk) → IsBut tmp t r → Q t → Q r)
        → Keeps (λ s. Q s.rows) (statement (remove tmp))
    kept Q q = statement-Keeps Q (remove tmp) (λ t u r e k. q t r (remove-IsBut tmp t r u e) k)

module _ (now : ℕ) (drawn : Text) (target : FilePath) (content : Text) (perm : ℕ) (d : Disk) where
  -- Whatever calls fail, but for the temporary file the disk is as it was, or only the target has been replaced, by a
  -- file with exactly the new content and mode; the second is the case exactly when the write returns.
  pub atomic_write_secret-Ends :
      Ends
        (λ s. s.rows ≡ d)
        (λ u s. Replaced (temporary target drawn) target (file content perm now) d s.rows)
        (λ s. IsBut (temporary target drawn) d s.rows)
        (atomic_write_secret now drawn target content perm)
  unfolding atomic_write_secret
  atomic_write_secret-Ends =
      let tmp = temporary target drawn in
      Ends-bind _ _
        (Ends-fail_with failed (statement (create_new 384 now tmp)) (
          Ends-weaken (statement (create_new 384 now tmp)) (λ s p. p) (λ u s q. q)
            (λ s p q o. ap (node_at q) p)
            (statement-Ends (λ t. t ≡ d) (Draft tmp (file [] 384 now) d) (create_new 384 now tmp)
              (λ t u r p e.
                subst (λ d. Draft tmp (file [] 384 now) d r) p
                  (create_new-Draft 384 now tmp t r u e)))))
        (λ u.
          removing-Ends tmp (Draft tmp (file [] 384 now) d)
            (Replaced tmp target (file content perm now) d) (IsBut tmp d) _
            (λ t r k h q o. k q o ∙ h q o) (λ t r k h q o. k q o ∙ h q o)
            (write_and_rename-Ends now tmp target d content perm))
