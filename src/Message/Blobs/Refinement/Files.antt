-- ===== src/Message/Blobs/Refinement/Files.antt =====
-- The files of the directory under the view, and what no operation changes.
use mathlib.Core.Path.{subst}
use opemail.Prelude.{
  ℕ, ◌≡◌, refl, ◌∙◌, inl, inr, Bool, true, false, Option, none, some, List, [], ◌∷◌, any, arith,
  Bool-cases,
}
use opemail.Text.{Text, eqb}
use opemail.Text.Laws.{eqb_sound}
use opemail.Exec.{Result}
use opemail.Exec.Keeps.{Keeps, Keeps-bind, Keeps-when, Keeps-pure}
use opemail.Database.{DbError}
use opemail.Database.Statements.{statement-Down}
use opemail.Message.Blobs.{
  on_disk, File, find_file, remove_file, write_file, move, put, get, delete,
}
use opemail.Message.Blobs.Refinement.{view, with_text}

abbrev pub is_some : {A : Type 0} → Option A → Bool
is_some none = false
is_some (some a) = true

pub any-find_file :
    (i : Text) (fs : List File) → any (λ f. eqb f.id i) fs ≡ is_some (find_file i fs)
unfolding find_file
any-find_file i [] = refl
any-find_file i (f ∷ fs) = let rest = any-find_file i fs in ground arith

-- an id that is not the first one's
other_id : (i j k : Text) → eqb k i ≡ true → eqb i j ≡ false → eqb k j ≡ false
other_id i j k h o = let same = eqb_sound k i h in rw same o

pub view-remove_file :
    (i : Text) (fs : List File) (j : Text)
    → find_file j (remove_file i fs) ≡ with_text i none (view fs) j
unfolding find_file remove_file
view-remove_file i [] j = elim (Bool-cases (eqb i j)) [ inl h ↦ rw h refl | inr h ↦ rw h refl ]
view-remove_file i (f ∷ fs) j =
    let rest = view-remove_file i fs j in
    elim (Bool-cases (eqb f.id i)) [
      | inl h ↦ elim (Bool-cases (eqb i j)) [
        | inl e ↦ ground arith
        | inr e ↦ let different = other_id i j f.id h e in ground arith
      ]
      | inr h ↦ elim (Bool-cases (eqb i j)) [
        | inl e ↦
            let no : eqb f.id j ≡ false = subst (λ x. eqb f.id x ≡ false) (eqb_sound i j e) h in
            ground arith
        | inr e ↦ ground arith
      ]
    ]

pub view-write_file :
    (i c : Text) (fs : List File) (j : Text)
    → find_file j (write_file i c fs) ≡ with_text i (some c) (view fs) j
unfolding find_file write_file
view-write_file i c fs j = elim (Bool-cases (eqb i j)) [
  | inl e ↦ rw e refl
  | inr e ↦ rw e (view-remove_file i fs j ∙ rw e refl)
]

pub there_some : (o : Option Text) → is_some o ≡ true → (c : Text) × (o ≡ some c)
there_some none h = absurd (ground arith)
there_some (some c) h = (c, refl)

on_disk-Down :
    {A : Type 0} (run : List File → Result DbError (A × List File)) (D : ℕ → Bool)
    → Keeps (λ s. s.down ≡ D) (on_disk run)
on_disk-Down run D = record { after = (statement-Down D run).after }

pub put-Down :
    (sha256 : Text → Text) (raw : Text) (D : ℕ → Bool) → Keeps (λ s. s.down ≡ D) (put sha256 raw)
unfolding put move
put-Down sha256 raw D = Keeps-bind _ _ (on_disk-Down _ D) (λ u.
    Keeps-bind _ _ (Keeps-when _ _) (λ u. Keeps-bind _ _ (on_disk-Down _ D) (λ u.
      Keeps-bind (move (sha256 raw) raw) _ (record { after = (on_disk-Down _ D).after })
        (λ u. Keeps-pure _))))

pub get-Down : (i : Text) (D : ℕ → Bool) → Keeps (λ s. s.down ≡ D) (get i)
unfolding get
get-Down i D = Keeps-bind _ _ (Keeps-when _ _) (λ u. on_disk-Down _ D)

pub delete-Down : (i : Text) (D : ℕ → Bool) → Keeps (λ s. s.down ≡ D) (delete i)
unfolding delete
delete-Down i D = Keeps-bind _ _ (Keeps-when _ _) (λ u. on_disk-Down _ D)
