-- ===== src/Tls/Replace.antt =====
-- What a replaced file is, and what else `atomicWriteSecret` changes.
pub mod Writes
use mathlib.Core.Path.{subst}
use opemail.Prelude.{
  ◌≡◌, refl, ap, ◌∙◌, ℕ, false, ◌||◌, some, [], inl, inr, arith, Bool-cases, Option-cases,
  if◌then◌else◌,
}
use opemail.Text.{Text}
use opemail.Exec.{ok}
use opemail.Paths.{FilePath, parent, same}
use opemail.Paths.Inside.{same_sound, same_refl}
use opemail.Disk.{
  Node, Disk, Outcome, node_at, put, erase, directory, file, is_file, is_directory, holds,
  create_new, overwrite, written, chmod, chmod_of, rename_file, renamed,
}
use opemail.Disk.Laws.{node_at-put, node_at-put_other, node_at-erase_other}
use opemail.Webmail.Writes.{ok_right}

-- the disk is as it was but for one file
abbrev pub IsBut : FilePath → Disk → Disk → Type 0
IsBut tmp d e = (q : FilePath) → same tmp q ≡ false → node_at q e ≡ node_at q d

IsBut-put : (tmp : FilePath) (n : Node) (d e : Disk) → IsBut tmp d e → IsBut tmp d (put tmp n e)
IsBut-put tmp n d e k q o = node_at-put_other tmp q n e o ∙ k q o

pub IsBut-erase : (tmp : FilePath) (d e : Disk) → IsBut tmp d e → IsBut tmp d (erase tmp e)
IsBut-erase tmp d e k q o = node_at-erase_other tmp q e o ∙ k q o

-- and the temporary file has this content and mode
pub record Draft (tmp : FilePath) (n : Node) (d e : Disk) : Type 0 where
  pub rest : IsBut tmp d e
  pub draft : node_at tmp e ≡ some n

Draft-put :
    (tmp : FilePath) (m n : Node) (d e : Disk) → Draft tmp m d e → Draft tmp n d (put tmp n e)
Draft-put tmp m n d e k = record { rest = IsBut-put tmp n d e k.rest; draft = node_at-put tmp n e }

pub create_new-Draft :
    (m now : ℕ) (tmp : FilePath) (t r : Disk) (u : Unit {0})
    → create_new m now tmp t ≡ ok (u, r)
    → Draft tmp (file [] m now) t r
unfolding create_new
create_new-Draft m now tmp t r u h =
    elim (Bool-cases (is_directory (node_at tmp t) || is_file (node_at tmp t))) [
      | inl x ↦ absurd (ground arith)
      | inr x ↦ elim (Bool-cases (holds (parent tmp) t)) [
        | inr y ↦ absurd (ground arith)
        | inl y ↦
            subst (Draft tmp (file [] m now) t)
              (ok_right (create_new m now tmp t) (put tmp (file [] m now) t) u (rw (x, y) refl) h)
              (record {
                rest = IsBut-put tmp (file [] m now) t t (λ q o. refl);
                draft = node_at-put tmp (file [] m now) t;
              })
      ]
    ]

module _ (tmp : FilePath) (d t r : Disk) (u : Unit {0}) where
  pub overwrite-Draft :
      (content b : Text) (now m i : ℕ)
      → Draft tmp (file b m i) d t
      → overwrite tmp content now t ≡ ok (u, r)
      → Draft tmp (file content m now) d r
  unfolding overwrite written
  overwrite-Draft content b now m i k h =
      subst (Draft tmp (file content m now) d)
        (ok_right (overwrite tmp content now t) (put tmp (file content m now) t) u (rw k.draft refl)
          h)
        (Draft-put tmp (file b m i) (file content m now) d t k)

  pub chmod-Draft :
      (content : Text) (perm m now : ℕ)
      → Draft tmp (file content m now) d t
      → chmod tmp perm t ≡ ok (u, r)
      → Draft tmp (file content perm now) d r
  unfolding chmod chmod_of
  chmod-Draft content perm m now k h =
      subst (Draft tmp (file content perm now) d)
        (ok_right (chmod tmp perm t) (put tmp (file content perm now) t) u (rw k.draft refl) h)
        (Draft-put tmp (file content m now) (file content perm now) d t k)

  pub same-Draft :
      (n : Node)
      → Draft tmp n d t
      → ◌≡◌ {A = Outcome (Unit {0})} (ok (tt, t)) (ok (u, r))
      → Draft tmp n d r
  same-Draft n k h = subst (Draft tmp n d) (ok_right (ok (tt, t)) t u refl h) k

-- the disk after the rename: but for the temporary file, only the target's node has changed
abbrev pub Replaced : FilePath → FilePath → Node → Disk → Disk → Type 0
Replaced tmp target n d e =
    (q : FilePath)
    → same tmp q ≡ false
    → node_at q e ≡ (if same target q then some n else node_at q d)

module _ (tmp target : FilePath) (n : Node) (d e : Disk) (k : Replaced tmp target n d e) where
  pub Replaced-target : same tmp target ≡ false → node_at target e ≡ some n
  Replaced-target o = k target o ∙ rw (same_refl target) refl

  pub Replaced-other :
      (q : FilePath) → same tmp q ≡ false → same target q ≡ false → node_at q e ≡ node_at q d
  Replaced-other q o x = k q o ∙ rw x refl

Replaced-put :
    (tmp target : FilePath) (n : Node) (d t : Disk)
    → IsBut tmp d t
    → Replaced tmp target n d (put target n (erase tmp t))
Replaced-put tmp target n d t k q o = elim (Bool-cases (same target q)) [
  | inl s ↦
      let is = same_sound target q s in
      rw s (
        subst (λ x. node_at x (put target n (erase tmp t)) ≡ some n) is
          (node_at-put target n (erase tmp t)))
  | inr s ↦ rw s (node_at-put_other target q n (erase tmp t) s ∙ IsBut-erase tmp d t k q o)
]

pub rename_file-Replaced :
    (tmp target : FilePath) (n : Node) (d t r : Disk) (u : Unit {0})
    → Draft tmp n d t
    → rename_file tmp target t ≡ ok (u, r)
    → Replaced tmp target n d r
unfolding rename_file renamed
rename_file-Replaced tmp target n d t r u k h =
    elim (Bool-cases (is_directory (node_at target t))) [
      | inl x ↦ absurd (ground arith)
      | inr x ↦ elim (Bool-cases (holds (parent target) t)) [
        | inr y ↦ absurd (ground arith)
        | inl y ↦
            let now =
              ok_right (rename_file tmp target t) (put target n (erase tmp t)) u
                (rw (x, y, k.draft) refl) h in
            subst (Replaced tmp target n d) now (Replaced-put tmp target n d t k.rest)
      ]
    ]
