-- ===== src/Identity/Sync/Standing.antt =====
-- A row that stands under its e-mail, and what leaves it.
use opemail.Prelude.{
  ℕ, ◌≡◌, refl, sym, ap, ◌∙◌, Bool, false, not, ◌&&◌, Option, none, some, List, [], ◌∷◌, map, any,
  arith, Bool-cases, inl, inr, ◌⊎◌, ◌==◌, if◌then◌else◌,
}
use opemail.Text.{Text, eqb, canonical}
use opemail.Text.Laws.{eqb_sound}
use opemail.Exec.{Result, ok, err, Exec, ◌>>=◌}
use opemail.Exec.Keeps.{Keeps}
use opemail.Database.{DbError, no_rows}
use opemail.Database.Statements.{statement-Keeps}
use opemail.Directory.Tables.{Mailbox, Tables, find_email}
use opemail.Mailbox.Model.{Account, World}
use opemail.Mailbox.Repository.{set_by_id, update_by_id}
use opemail.Mailbox.Rows.{find_email-map}
use opemail.Identity.Sync.{Accounts, value_of, tried}

-- a row stands under its e-mail, and no row with another e-mail has its id
pub record Stands (m : Mailbox) (t : Tables) : Type 0 where
  pub here : find_email m.email t.mailboxes ≡ some m
  pub alone : any (λ x. (x.id == m.id) && not (eqb x.email m.email)) t.mailboxes ≡ false

-- what the synchronisation relies on: the mailbox service leaves the row, and never gives its id to a new account
pub record Spares {D : Type 0} (m : Mailbox) (service : Accounts D) : Type 0 where
  pub create-Keeps :
      (k : ℕ) (email password : Text) (quota : _)
      → Keeps (λ w. Stands m w.db.rows) (service.create k email password quota)
  pub fresh :
      (k : ℕ) (email password : Text) (quota : _) (w : World D) (a : Account)
      → Stands m w.db.rows
      → (service.create k email password quota w).0 ≡ ok a
      → ((a.mailbox.id == m.id) ≡ false) × (eqb (canonical email) m.email ≡ false)
  pub provision-Keeps :
      (k : ℕ) (email : Text)
      → eqb (canonical email) m.email ≡ false
      → Keeps (λ w. Stands m w.db.rows) (service.provision k email)

abbrev pub AllSpare : {D : Type 0} → Mailbox → Option (Accounts D) → Type 0
AllSpare m none = Unit
AllSpare m (some service) = Spares m service

pub find_email_hit :
    (e : Text) (p : Mailbox → Bool) (ms : List Mailbox) (x : Mailbox)
    → find_email e ms ≡ some x
    → any p ms ≡ false
    → (x.email ≡ e) × (p x ≡ false)
unfolding find_email
find_email_hit e p [] x h n = ground arith
find_email_hit e p (y ∷ ms) x h n = elim (Bool-cases (eqb y.email e)) [
  | inl t ↦
      let same : y ≡ x = ground arith in
      let none_here : p y ≡ false = ground arith in rw (sym same) (eqb_sound y.email e t, none_here)
  | inr f ↦ find_email_hit e p ms x (ground arith) (ground arith)
]

-- a row that is found is the one that stands, or has another id
pub found_other :
    (m : Mailbox) (t : Tables) (e : Text) (x : Mailbox)
    → Stands m t
    → find_email e t.mailboxes ≡ some x
    → (x ≡ m) ⊎ ((x.id == m.id) ≡ false)
found_other m t e x s h =
    let (own, other) = find_email_hit e _ t.mailboxes x h s.alone in
    elim (Bool-cases (eqb x.email m.email)) [
      | inl same ↦
          let e_is : m.email ≡ e = sym (eqb_sound x.email m.email same) ∙ own in
          let both : some x ≡ some m =
            sym h ∙ (ap (λ k. find_email k t.mailboxes) (sym e_is) ∙ s.here) in
          inl (ground arith)
      | inr f ↦ inr (ground arith)
    ]

any-map :
    (p : Mailbox → Bool) (f : Mailbox → Mailbox) (ms : List Mailbox)
    → ((x : Mailbox) → p (f x) ≡ p x)
    → any p (map f ms) ≡ any p ms
any-map p f [] k = refl
any-map p f (x ∷ ms) k = rw (k x, any-map p f ms k) refl

pub update-Stands :
    (m : Mailbox) (i : ℕ) (f : Mailbox → Mailbox)
    → ((x : Mailbox) → (f x).email ≡ x.email)
    → ((x : Mailbox) → (f x).id ≡ x.id)
    → (i == m.id) ≡ false
    → Keeps (λ s. Stands m s.rows) (update_by_id i f)
unfolding update_by_id set_by_id
update-Stands m i f e d other = statement-Keeps (Stands m) _ after
  where
    same_email : (x : Mailbox) → (set_by_id i f x).email ≡ x.email
    same_email x = elim (Bool-cases (x.id == i)) [ inl t ↦ rw t (e x) | inr t ↦ rw t refl ]

    same_id : (x : Mailbox) → (set_by_id i f x).id ≡ x.id
    same_id x = elim (Bool-cases (x.id == i)) [ inl t ↦ rw t (d x) | inr t ↦ rw t refl ]

    untouched : set_by_id i f m ≡ m
    untouched = let differ : (m.id == i) ≡ false = ground arith in rw differ refl

    after :
        (t : Tables) (a : Unit {0}) (r : Tables)
        → (if◌then◌else◌ {A = Result DbError (Unit {0} × Tables)}
            (any (λ x. x.id == i) t.mailboxes)
            (ok (tt, record t { mailboxes = map (set_by_id i f) t.mailboxes }))
            (err no_rows))
          ≡ ok (a, r)
        → Stands m t
        → Stands m r
    after t a r done h =
        let now : record t { mailboxes = map (set_by_id i f) t.mailboxes } ≡ r = ground arith in
        rw (sym now) (record {
          here =
              find_email-map m.email (set_by_id i f) t.mailboxes m same_email h.here
              ∙ ap some untouched;
          alone =
              any-map _ (set_by_id i f) t.mailboxes (λ x. rw (same_email x, same_id x) refl)
              ∙ h.alone;
        })

module _ {S E F A : Type 0} {P : S → Type 0} where
  pub tried-Keeps : (m : Exec S E A) → Keeps P m → Keeps P (tried {F = F} m)
  unfolding tried
  tried-Keeps m k = record { after = k.after }

  -- what comes after it may depend on what it gave
  pub tried_then :
      {B : Type 0} (m : Exec S E A) (f : Option A → Exec S F B)
      → Keeps P m
      → ((s : S) → P s → (x : Option A) → value_of (m s).0 ≡ x → Keeps P (f x))
      → Keeps P (tried m >>= f)
  unfolding tried ◌>>=◌
  tried_then m f k g = record {
    after = λ s h. (g s h (value_of (m s).0) refl).after (m s).1 (k.after s h);
  }

pub value_of-some : {E A : Type 0} (r : Result E A) (a : A) → value_of r ≡ some a → r ≡ ok a
value_of-some (ok b) a h = ground arith
value_of-some (err e) a h = ground arith
