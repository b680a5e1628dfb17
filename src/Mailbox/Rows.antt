-- ===== src/Mailbox/Rows.antt =====
-- The statements of the repository, as the service's proofs use them.
use opemail.Prelude.{
  ℕ, ◌≡◌, refl, sym, ap, true, false, not, Option, none, some, List, [], ◌∷◌, ◌++◌, map, any, keep,
  arith, Bool-cases, inl, inr, ◌==◌, if◌then◌else◌,
}
use opemail.Text.{Text, eqb, to_lower}
use opemail.Text.Laws.{eqb_sound, eqb_refl}
use opemail.Exec.{Result, ok, err, Exec, is_ok, recode_by}
use opemail.Exec.Keeps.{Keeps}
use opemail.Exec.Outcomes.{Yields, Refuses}
use opemail.Database.{DbError, duplicate, no_rows, Db}
use opemail.Database.Statements.{statement-Keeps, statement-Yields, statement-Refuses}
use opemail.Directory.Tables.{Mailbox, Domain, Tables, find_email, find_domain, mailbox_taken}
use opemail.Mailbox.Model.{on_db, of_db, Account}
use opemail.Mailbox.Repository.{
  create_row, filled, get_by_email, joined, located, set_by_id, update_by_id, delete_row,
}

-- the row under an e-mail is one with the property
pub record Holds (e : Text) (P : Mailbox → Type 0) (t : Tables) : Type 0 where
  pub row : Mailbox
  pub here : find_email e t.mailboxes ≡ some row
  pub good : P row

pub same_lower : (s t : Text) → eqb s t ≡ true → eqb (to_lower s) (to_lower t) ≡ true
same_lower s t h = rw (eqb_sound s t h) (eqb_refl (to_lower t))

find_email-append :
    (m n : Mailbox) (ms : List Mailbox)
    → n.email ≡ m.email
    → mailbox_taken m ms ≡ false
    → find_email m.email (ms ++ n ∷ []) ≡ some n
unfolding find_email mailbox_taken
find_email-append m n [] e free = rw (e, eqb_refl m.email) refl
find_email-append m n (x ∷ ms) e free = elim (Bool-cases (eqb x.email m.email)) [
  | inl same ↦ let lowered = same_lower x.email m.email same in ground arith
  | inr other ↦ let rest = find_email-append m n ms e (ground arith) in ground arith
]

pub find_email-mailbox_taken :
    (m x : Mailbox) (ms : List Mailbox) → find_email m.email ms ≡ some x → mailbox_taken m ms ≡ true
unfolding find_email mailbox_taken
find_email-mailbox_taken m x [] h = ground arith
find_email-mailbox_taken m x (y ∷ ms) h = elim (Bool-cases (eqb y.email m.email)) [
  | inl same ↦ let lowered = same_lower y.email m.email same in ground arith
  | inr other ↦ let rest = find_email-mailbox_taken m x ms (ground arith) in ground arith
]

pub find_email-map :
    (e : Text) (f : Mailbox → Mailbox) (ms : List Mailbox) (m : Mailbox)
    → ((x : Mailbox) → (f x).email ≡ x.email)
    → find_email e ms ≡ some m
    → find_email e (map f ms) ≡ some (f m)
unfolding find_email
find_email-map e f [] m k h = ground arith
find_email-map e f (x ∷ ms) m k h =
    let same : eqb (f x).email e ≡ eqb x.email e = ap (λ z. eqb z e) (k x) in
    elim (Bool-cases (eqb x.email e)) [
      | inl t ↦ let x_is_m : x ≡ m = ground arith in rw (same, t) (ap (λ z. some (f z)) x_is_m)
      | inr t ↦ let rest = find_email-map e f ms m k (ground arith) in ground arith
    ]

joined_rows :
    (t : Tables) (m : Mailbox) (o : Option Domain) (a : Account) (r : Tables)
    → joined t m o ≡ ok (a, r)
    → t ≡ r
joined_rows t m none a r h = ground arith
joined_rows t m (some d) a r h = ground arith

located_rows :
    (t : Tables) (o : Option Mailbox) (a : Account) (r : Tables) → located t o ≡ ok (a, r) → t ≡ r
unfolding located
located_rows t none a r h = ground arith
located_rows t (some m) a r h = joined_rows t m (find_domain m.domain_id t.domains) a r h

pub get_by_email-Keeps : (Q : Tables → Type 0) (x : Text) → Keeps (λ s. Q s.rows) (get_by_email x)
unfolding get_by_email
get_by_email-Keeps Q x = statement-Keeps Q _ (λ t a r done h.
    let same = located_rows t (find_email x t.mailboxes) a r done in rw (sym same) h)

module _ (e : Text) (P : Mailbox → Type 0) where
  pub update_by_id-Keeps :
      (i : ℕ) (f : Mailbox → Mailbox)
      → ((m : Mailbox) → (f m).email ≡ m.email)
      → ((m : Mailbox) → P m → P (f m))
      → Keeps (λ s. Holds e P s.rows) (update_by_id i f)
  unfolding update_by_id set_by_id
  update_by_id-Keeps i f k g = statement-Keeps (Holds e P) _ after
    where
      same : (m : Mailbox) → (set_by_id i f m).email ≡ m.email
      same m = elim (Bool-cases (m.id == i)) [ inl t ↦ rw t (k m) | inr t ↦ rw t refl ]

      good : (m : Mailbox) → P m → P (set_by_id i f m)
      good m h = elim (Bool-cases (m.id == i)) [ inl t ↦ rw t (g m h) | inr t ↦ rw t h ]

      after :
          (t : Tables) (a : Unit {0}) (r : Tables)
          → (if◌then◌else◌ {A = Result DbError (Unit {0} × Tables)}
              (any (λ m. m.id == i) t.mailboxes)
              (ok (tt, record t { mailboxes = map (set_by_id i f) t.mailboxes }))
              (err no_rows))
            ≡ ok (a, r)
          → Holds e P t
          → Holds e P r
      after t a r done h =
          let now : record t { mailboxes = map (set_by_id i f) t.mailboxes } ≡ r = ground arith in
          rw (sym now) (record {
            row = set_by_id i f h.row;
            here = find_email-map e (set_by_id i f) t.mailboxes h.row same h.here;
            good = good h.row h.good;
          })

module _ (m : Mailbox) (P : Mailbox → Type 0) where
  pub create_row-Yields : P (filled m) → Yields (λ s. Holds m.email P s.rows) (create_row m)
  unfolding create_row
  create_row-Yields g = statement-Yields (Holds m.email P) _ (λ t a r done.
      let free : mailbox_taken m t.mailboxes ≡ false = ground arith in
      let now : record t { mailboxes = t.mailboxes ++ filled m ∷ [] } ≡ r = ground arith in
      rw (sym now) (record {
        row = filled m;
        here = find_email-append m (filled m) t.mailboxes refl free;
        good = g;
      }))

  pub create_row-Refuses : Refuses (λ s. Holds m.email P s.rows) (create_row m)
  unfolding create_row
  create_row-Refuses =
      statement-Refuses (Holds m.email P) _ duplicate
        (λ t h. rw (find_email-mailbox_taken m h.row t.mailboxes h.here) refl)

-- no row is left under the e-mail
abbrev pub IsGone : Text → Tables → Type 0
IsGone e t = find_email e t.mailboxes ≡ none

find_email-keep :
    (e : Text) (ms : List Mailbox) → find_email e (keep (λ m. not (eqb m.email e)) ms) ≡ none
unfolding find_email
find_email-keep e [] = refl
find_email-keep e (m ∷ ms) = let rest = find_email-keep e ms in ground arith

pub delete_row-Yields : (e : Text) → Yields (λ s. IsGone e s.rows) (delete_row e)
unfolding delete_row
delete_row-Yields e = statement-Yields (IsGone e) _ (λ t a r done.
    let now : record t { mailboxes = keep (λ m. not (eqb m.email e)) t.mailboxes } ≡ r =
      ground arith in
    rw (sym now) (find_email-keep e t.mailboxes))

pub ok-recode_by : {A : Type 0} (q : Result DbError A) (a : A) → recode_by of_db q ≡ ok a → q ≡ ok a
ok-recode_by (ok b) a h = ground arith
ok-recode_by (err e) a h = ground arith

refused-recode_by :
    {A : Type 0} (q : Result DbError A) → is_ok q ≡ false → is_ok (recode_by of_db q) ≡ false
refused-recode_by (ok b) h = h
refused-recode_by (err e) h = refl

module _ {D A : Type 0} (Q : Tables → Type 0) where
  pub on_db-Keeps :
      (m : Exec (Db Tables) DbError A)
      → Keeps (λ s. Q s.rows) m
      → Keeps (λ w. Q w.db.rows) (on_db {D = D} m)
  unfolding on_db
  on_db-Keeps m k = record { after = λ w h. k.after w.db h }

  pub on_db-Yields :
      (m : Exec (Db Tables) DbError A)
      → Yields (λ s. Q s.rows) m
      → Yields (λ w. Q w.db.rows) (on_db {D = D} m)
  unfolding on_db
  on_db-Yields m y = record { after = λ w a h. y.after w.db a (ok-recode_by (m w.db).0 a h) }

  pub on_db-Refuses :
      (m : Exec (Db Tables) DbError A)
      → Refuses (λ s. Q s.rows) m
      → Refuses (λ w. Q w.db.rows) (on_db {D = D} m)
  unfolding on_db
  on_db-Refuses m x = record {
    after = λ w h. (refused-recode_by (m w.db).0 (x.after w.db h).0, (x.after w.db h).1);
  }
