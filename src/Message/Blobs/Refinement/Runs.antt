-- ===== src/Message/Blobs/Refinement/Runs.antt =====
-- The directory follows the store.
use mathlib.Core.Path.{subst}
use opemail.Prelude.{
  ℕ, ◌+◌, ◌≡◌, refl, sym, ap, ◌∙◌, inl, inr, true, false, none, some, List, [], ◌∷◌, any,
  Bool-cases, Option-cases,
}
use opemail.Text.{Text, eqb, is_empty}
use opemail.Exec.{◌>>=◌, when, pure}
use opemail.Message.Blobs.{Disk, find_file, remove_file, write_file, is_id, move, put, get, delete}
use opemail.Message.Blobs.Refinement.{
  Store, Op, store, fetch, drop, Reply, stored, content, removed, refused, missing, broken, view,
  with_text, serve, perform, perform_all, Agrees, Step, served, failed, kept, Steps, stop, step,
}
use opemail.Message.Blobs.Refinement.Files.{
  is_some, any-find_file, view-remove_file, view-write_file, there_some, put-Down, get-Down,
  delete-Down,
}

module _ (sha256 : Text → Text) where
  -- an operation that serves its reply and leaves this directory
  served_by :
      (op : Op) (s : Disk) (r : Reply) (m : Store) (t : Disk)
      → perform sha256 op s ≡ (r, t)
      → serve sha256 op (view s.rows) ≡ (r, m)
      → Agrees sha256 m (view t.rows)
      → Step sha256 s.down
          (view s.rows)
          op
          (perform sha256 op s).0
          (view (perform sha256 op s).1.rows)
  served_by op s r m t runs serves same =
      subst (λ x. Step sha256 s.down (view s.rows) op x.0 (view x.1.rows)) (sym runs)
        (subst (λ x. Step sha256 s.down (view s.rows) op x (view t.rows)) (ap (λ x. x.0) serves)
          (served op (λ i. ap (λ x. x.1 i) serves ∙ same i)))

  failed_by :
      (op : Op) (s : Disk) (k : ℕ) (t : Disk)
      → s.down k ≡ true
      → perform sha256 op s ≡ (broken, t)
      → t.rows ≡ s.rows
      → Step sha256 s.down
          (view s.rows)
          op
          (perform sha256 op s).0
          (view (perform sha256 op s).1.rows)
  failed_by op s k t down runs same =
      subst (λ x. Step sha256 s.down (view s.rows) op x.0 (view x.1.rows)) (sym runs)
        (failed op k down (λ i. ap (λ fs. find_file i fs) (sym same)))

  fetch_step :
      (i : Text) (s : Disk)
      → Step sha256 s.down
          (view s.rows)
          (fetch i)
          (perform sha256 (fetch i) s).0
          (view (perform sha256 (fetch i) s).1.rows)
  unfolding perform serve get ◌>>=◌ when
  fetch_step i s = elim (Bool-cases (is_id i)) [
    | inr v ↦ served_by (fetch i) s refused (view s.rows) s (rw v refl) (rw v refl) (λ j. refl)
    | inl v ↦ elim (Bool-cases (s.down s.statements)) [
      | inl d ↦
          failed_by (fetch i) s s.statements (record s { statements = s.statements + 1 }) d
            (rw (v, d) refl) refl
      | inr d ↦ elim (Option-cases (find_file i s.rows)) [
        | inl o ↦
            served_by (fetch i) s missing (view s.rows) (record s { statements = s.statements + 1 })
              (rw (v, d, o) refl) (rw (v, o) refl) (λ j. refl)
        | inr (c, o) ↦
            served_by (fetch i) s (content c) (view s.rows)
              (record s { statements = s.statements + 1 }) (rw (v, d, o) refl) (rw (v, o) refl)
              (λ j. refl)
      ]
    ]
  ]

  drop_step :
      (i : Text) (s : Disk)
      → Step sha256 s.down
          (view s.rows)
          (drop i)
          (perform sha256 (drop i) s).0
          (view (perform sha256 (drop i) s).1.rows)
  unfolding perform serve delete ◌>>=◌ when
  drop_step i s = elim (Bool-cases (is_id i)) [
    | inr v ↦ served_by (drop i) s refused (view s.rows) s (rw v refl) (rw v refl) (λ j. refl)
    | inl v ↦ elim (Bool-cases (s.down s.statements)) [
      | inl d ↦
          failed_by (drop i) s s.statements (record s { statements = s.statements + 1 }) d
            (rw (v, d) refl) refl
      | inr d ↦ elim (Option-cases (find_file i s.rows)) [
        | inl o ↦
            let no : any (λ f. eqb f.id i) s.rows ≡ false = any-find_file i s.rows ∙ ap is_some o in
            served_by (drop i) s missing (view s.rows) (record s { statements = s.statements + 1 })
              (rw (v, d, no) refl) (rw (v, o) refl) (λ j. refl)
        | inr (c, o) ↦
            let yes : any (λ f. eqb f.id i) s.rows ≡ true = any-find_file i s.rows ∙ ap is_some o in
            served_by (drop i) s removed (with_text i none (view s.rows))
              (record s { rows = remove_file i s.rows; statements = s.statements + 1 })
              (rw (v, d, yes) refl) (rw (v, o) refl) (λ j. sym (view-remove_file i s.rows j))
      ]
    ]
  ]

  store_step :
      (raw : Text) (s : Disk)
      → Step sha256 s.down
          (view s.rows)
          (store raw)
          (perform sha256 (store raw) s).0
          (view (perform sha256 (store raw) s).1.rows)
  unfolding perform serve put move ◌>>=◌ when pure
  store_step raw s =
      let n = s.statements in
      elim (Bool-cases (s.down n)) [
        | inl d0 ↦ failed_by (store raw) s n (record s { statements = n + 1 }) d0 (rw d0 refl) refl
        | inr d0 ↦ elim (Bool-cases (is_empty raw)) [
          | inl e ↦
              served_by (store raw) s refused (view s.rows) (record s { statements = n + 1 })
                (rw (d0, e) refl) (rw e refl) (λ j. refl)
          | inr e ↦ elim (Bool-cases (s.down (n + 1))) [
            | inl d1 ↦
                failed_by (store raw) s (n + 1) (record s { statements = n + 1 + 1 }) d1
                  (rw (d0, e, d1) refl) refl
            | inr d1 ↦ elim (Bool-cases (s.down (n + 1 + 1))) [
              | inr d2 ↦
                  served_by (store raw) s (stored (sha256 raw))
                    (with_text (sha256 raw) (some raw) (view s.rows))
                    (record s {
                      rows = write_file (sha256 raw) raw s.rows;
                      statements = n + 1 + 1 + 1;
                    })
                    (rw (d0, e, d1, d2) refl) (rw e refl)
                    (λ j. sym (view-write_file (sha256 raw) raw s.rows j))
              | inl d2 ↦ elim (Bool-cases (any (λ f. eqb f.id (sha256 raw)) s.rows)) [
                | inr gone ↦
                    failed_by (store raw) s (n + 1 + 1) (record s { statements = n + 1 + 1 + 1 }) d2
                      (rw (d0, e, d1, d2, gone) refl) refl
                | inl there ↦
                    let (c, here) =
                      there_some (find_file (sha256 raw) s.rows)
                        (sym (any-find_file (sha256 raw) s.rows) ∙ there) in
                    let runs : perform sha256 (store raw) s
                        ≡ (stored (sha256 raw), record s { statements = n + 1 + 1 + 1 }) =
                      rw (d0, e, d1, d2, there) refl in
                    subst (λ x. Step sha256 s.down (view s.rows) (store raw) x.0 (view x.1.rows))
                      (sym runs) (kept raw c (n + 1 + 1) d2 here (λ j. refl))
              ]
            ]
          ]
        ]
      ]

  perform_step :
      (op : Op) (s : Disk)
      → Step sha256 s.down
          (view s.rows)
          op
          (perform sha256 op s).0
          (view (perform sha256 op s).1.rows)
  perform_step (store raw) s = store_step raw s
  perform_step (fetch i) s = fetch_step i s
  perform_step (drop i) s = drop_step i s

  perform-down : (op : Op) (s : Disk) → (perform sha256 op s).1.down ≡ s.down
  unfolding perform
  perform-down (store raw) s = (put-Down sha256 raw s.down).after s refl
  perform-down (fetch i) s = (get-Down i s.down).after s refl
  perform-down (drop i) s = (delete-Down i s.down).after s refl

  -- Any run of `put`, `get` and `delete` on the directory is a run of the store of texts with the same replies: every
  -- operation does what `serve` says, except where a statement of the file system does fail; then it may fail and change
  -- nothing, and a text whose id is there already keeps the bytes that are there.
  pub perform_all-Steps :
      (ops : List Op) (s : Disk)
      → Steps sha256 s.down
          (view s.rows)
          (perform_all sha256 ops s).0
          (view (perform_all sha256 ops s).1.rows)
  unfolding perform_all
  perform_all-Steps [] s = stop
  perform_all-Steps (op ∷ ops) s = step (perform_step op s) (
      subst
        (λ down.
          Steps sha256 down (view (perform sha256 op s).1.rows)
            (perform_all sha256 ops (perform sha256 op s).1).0
            (view (perform_all sha256 ops (perform sha256 op s).1).1.rows))
        (perform-down op s) (perform_all-Steps ops (perform sha256 op s).1))
