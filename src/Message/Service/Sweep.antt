-- ===== src/Message/Service/Sweep.antt =====
-- What the collection of orphan blobs leaves alone.
use opemail.Prelude.{
  ℕ, ◌≡◌, refl, sym, Bool, true, false, some, List, [], ◌∷◌, map, arith, Bool-cases, inl, inr, ◌==◌,
}
use opemail.Text.{Text, eqb}
use opemail.Text.Laws.{eqb_sound, eqb_refl}
use opemail.Exec.{ok}
use opemail.Exec.Outcomes.{bind-keeps}
use opemail.Exec.Keeps.{Keeps, Keeps-if, Keeps-bind, Keeps-when, keeps_rules}
use opemail.Database.Statements.{statement-Keeps}
use opemail.Message.Blobs.{File, find_file, remove_file, delete, list_ids}
use opemail.Message.Service.{
  Message, find_message, World, GcStats, get_all_blob_ids, visit, visit_all, garbage_collect,
  is_referenced,
}

find_file-remove_file :
    (i j c : Text) (fs : List File)
    → eqb j i ≡ false
    → find_file i fs ≡ some c
    → find_file i (remove_file j fs) ≡ some c
unfolding find_file remove_file
find_file-remove_file i j c [] other h = ground arith
find_file-remove_file i j c (f ∷ fs) other h = elim (Bool-cases (eqb f.id j)) [
  | inl t ↦
      let same = eqb_sound f.id j t in
      let missed : eqb f.id i ≡ false = rw same other in
      let rest = find_file-remove_file i j c fs other (ground arith) in ground arith
  | inr t ↦ elim (Bool-cases (eqb f.id i)) [
    | inl s ↦ ground arith
    | inr s ↦ let rest = find_file-remove_file i j c fs other (ground arith) in ground arith
  ]
]

-- the blob is there with its bytes
abbrev IsStored : Text → Text → List File → Type 0
IsStored i c fs = find_file i fs ≡ some c

delete-Keeps : (i j c : Text) → eqb j i ≡ false → Keeps (λ s. IsStored i c s.rows) (delete j)
unfolding delete
delete-Keeps i j c other = Keeps-bind _ _ (Keeps-when _ _) (λ _. record {
  after = λ s h.
      (statement-Keeps (IsStored i c) _ (λ fs a r ran here.
          let now : remove_file j fs ≡ r = ground arith in
          rw (sym now) (find_file-remove_file i j c fs other here))).after
        s h;
})

module _ (i c : Text) (refs : List Text) (referenced : is_referenced i refs ≡ true) where
  abbrev Stays : World → Type 0
  Stays w = IsStored i c w.disk.rows

  visit-Keeps : (dry_run : Bool) (j : Text) (st : GcStats) → Keeps Stays (visit dry_run refs j st)
  unfolding visit is_referenced
  visit-Keeps dry_run j st = elim (Bool-cases (is_referenced j refs)) [
    | inl t ↦ rw t (search keeps_rules)
    | inr t ↦ rw t (
        Keeps-if dry_run _ _ (search keeps_rules)
          (record { after = λ w h. (delete-Keeps i j c (unlike j t)).after w.disk h }))
  ]
    where
      unlike : (j : Text) → is_referenced j refs ≡ false → eqb j i ≡ false
      unlike j t = elim (Bool-cases (eqb j i)) [
        | inl s ↦
            let same = eqb_sound j i s in
            let seen : is_referenced j refs ≡ true = rw same referenced in ground arith
        | inr s ↦ s
      ]

  visit_all-Keeps :
      (dry_run : Bool) (ids : List Text) (st : GcStats)
      → Keeps Stays (visit_all dry_run refs ids st)
  unfolding visit_all
  visit_all-Keeps dry_run [] st = search keeps_rules
  visit_all-Keeps dry_run (j ∷ ids) st =
      Keeps-bind _ _ (visit-Keeps dry_run j st) (λ st'. visit_all-Keeps dry_run ids st')

list_ids-Keeps : (Q : List File → Type 0) → Keeps (λ s. Q s.rows) list_ids
unfolding list_ids
list_ids-Keeps Q = record {
  after = λ s h.
      (statement-Keeps Q _
          (λ fs a r ran here. let same : fs ≡ r = ground arith in rw (sym same) here)).after
        s h;
}

find_message-is_referenced :
    (n : ℕ) (ms : List Message) (m : Message)
    → find_message n ms ≡ some m
    → is_referenced m.blob_id (map (λ x. x.blob_id) ms) ≡ true
unfolding find_message is_referenced
find_message-is_referenced n [] m h = ground arith
find_message-is_referenced n (x ∷ ms) m h = elim (Bool-cases (x.id == n)) [
  | inl t ↦
      let same : x ≡ m = ground arith in let hit = eqb_refl m.blob_id in rw same (ground arith)
  | inr t ↦ let rest = find_message-is_referenced n ms m (ground arith) in ground arith
]

refs_of :
    (b : Bool) (w : World) (refs : List Text)
    → w.db.down w.db.statements ≡ b
    → (get_all_blob_ids w).0 ≡ ok refs
    → map (λ x. x.blob_id) w.db.rows.messages ≡ refs
unfolding get_all_blob_ids
refs_of true w refs e h = ground arith
refs_of false w refs e h = ground arith

-- The collection of orphan blobs, dry or not and whatever file operations fail, leaves the blob of every stored
-- message as it is.
pub gc_keeps_referenced :
    (dry_run : Bool) (w : World) (n : ℕ) (m : Message) (c : Text)
    → find_message n w.db.rows.messages ≡ some m
    → find_file m.blob_id w.disk.rows ≡ some c
    → find_file m.blob_id (garbage_collect dry_run w).1.disk.rows ≡ some c
unfolding garbage_collect get_all_blob_ids
gc_keeps_referenced dry_run w n m c known stored =
    bind-keeps (λ v. IsStored m.blob_id c v.disk.rows) get_all_blob_ids _ w
      (λ refs got.
        let known_ref = find_message-is_referenced n w.db.rows.messages m known in
        let these = refs_of _ w refs refl got in
        let listed : is_referenced m.blob_id refs ≡ true = rw (sym these) known_ref in
        Keeps-bind _ _
          (record { after = λ v h. (list_ids-Keeps (IsStored m.blob_id c)).after v.disk h })
          (λ ids. visit_all-Keeps m.blob_id c refs listed dry_run ids _))
      stored
