-- ===== src/Mailbox/Service/Login.antt =====
-- Who is let in by `authenticate`, and what a new password and a suspension change.
use opemail.Prelude.{
  ℕ, ◌≡◌, refl, sym, ap, Bool, true, false, not, Option, none, some, map, arith, Bool-cases, inl,
  inr, ◌==◌,
}
use opemail.Text.{Text, codes, eqb, canonical}
use opemail.Text.Laws.{eqb_sound}
use opemail.Exec.{Result, ok, err, is_ok, pure, Result-cases}
use opemail.Exec.Outcomes.{bind_ok, when_ok}
use opemail.Database.{DbError, Db, attempt, answer}
use opemail.Directory.Tables.{Mailbox, Domain, Tables, find_email, find_domain}
use opemail.Mailbox.Model.{MailboxError, Account, Provisioner, World, on_db, active}
use opemail.Mailbox.Repository.{
  get_by_email, located, joined, update_status, update_by_id, set_by_id,
}
use opemail.Mailbox.Rows.{find_email-map, ok-recode_by}
use opemail.Mailbox.Service.{authenticate, suspend}

joined-ok :
    (t : Tables) (m : Mailbox) (o : Option Domain) (a : Account) (r : Tables)
    → joined t m o ≡ ok (a, r)
    → a.mailbox ≡ m
joined-ok t m none a r h = ground arith
joined-ok t m (some d) a r h = ground arith

pub located-ok :
    (t : Tables) (o : Option Mailbox) (a : Account) (r : Tables)
    → located t o ≡ ok (a, r)
    → o ≡ some a.mailbox
unfolding located
located-ok t none a r h = ground arith
located-ok t (some m) a r h =
    let same = joined-ok t m (find_domain m.domain_id t.domains) a r h in ap some (sym same)

pub attempt-ok :
    {R A : Type 0} (b : Bool) (run : R → Result DbError (A × R)) (s : Db R) (a : A)
    → (attempt b run s).0 ≡ ok a
    → (r : R) × (run s.rows ≡ ok (a, r)) × ((attempt b run s).1.rows ≡ r)
attempt-ok true run s a h = ground arith
attempt-ok false run s a h = of_answer (run s.rows) refl h
  where
    of_answer :
        (q : Result DbError _)
        → run s.rows ≡ q
        → (answer s q).0 ≡ ok a
        → (r : _) × (q ≡ ok (a, r)) × ((answer s q).1.rows ≡ r)
    of_answer (ok (b, r)) here e = (r, ground arith, refl)
    of_answer (err x) here e = ground arith

pub get_by_email-ok :
    (e : Text) (s : Db Tables) (a : Account)
    → (get_by_email e s).0 ≡ ok a
    → find_email e s.rows.mailboxes ≡ some a.mailbox
unfolding get_by_email
get_by_email-ok e s a h =
    let (r, here, now) = attempt-ok (s.down s.statements) _ s a h in
    located-ok s.rows (find_email e s.rows.mailboxes) a r here

-- a statement that updates one row returned: what stands under an e-mail then
pub update_by_id-ok :
    (e : Text) (i : ℕ) (f : Mailbox → Mailbox) (s : Db Tables) (m : Mailbox)
    → ((x : Mailbox) → (f x).email ≡ x.email)
    → m.id ≡ i
    → find_email e s.rows.mailboxes ≡ some m
    → (update_by_id i f s).0 ≡ ok tt
    → find_email e (update_by_id i f s).1.rows.mailboxes ≡ some (f m)
unfolding update_by_id set_by_id
update_by_id-ok e i f s m k same here h =
    let (r, ran, now) = attempt-ok (s.down s.statements) _ s tt h in
    let there : record s.rows { mailboxes = map (set_by_id i f) s.rows.mailboxes } ≡ r =
      ground arith in
    let hit : set_by_id i f m ≡ f m = ground arith in
    rw (now, sym there, sym hit) (find_email-map e (set_by_id i f) s.rows.mailboxes m kept here)
  where
    kept : (x : Mailbox) → (set_by_id i f x).email ≡ x.email
    kept x = elim (Bool-cases (x.id == i)) [ inl t ↦ rw t (k x) | inr t ↦ rw t refl ]

clash :
    (o : Option Mailbox) (x y : Mailbox)
    → o ≡ some x
    → o ≡ some y
    → x.status ≡ active
    → y.status ≡ codes "suspended"
    → (b : Bool) → b ≡ false
clash o x y hx hy sx sy b =
    let x_is_y : x ≡ y = ground arith in
    let both : active ≡ codes "suspended" = rw (sym sx, x_is_y) sy in ground arith

settled :
    (o : Option Mailbox) (b a : Account) (v : Text → Bool)
    → not (eqb b.mailbox.status active) ≡ false
    → not (v b.mailbox.password_hash) ≡ false
    → ◌≡◌ {A = Result MailboxError Account} (ok b) (ok a)
    → o ≡ some b.mailbox
    → (o ≡ some a.mailbox) × (a.mailbox.status ≡ active) × (v a.mailbox.password_hash ≡ true)
settled o b a v status password same here =
    let b_is_a : b ≡ a = ground arith in
    let is_active : eqb b.mailbox.status active ≡ true = ground arith in
    let accepted : v b.mailbox.password_hash ≡ true = ground arith in
    rw (sym b_is_a) (here, eqb_sound b.mailbox.status active is_active, accepted)

module _ {D : Type 0} (parse_address : Text → Bool) (hash_password : Text → Option Text)
    (verify_password : Text → Text → Bool) (provisioner : Option (Provisioner D)) where
  -- `authenticate` returns only the row under the canonical e-mail, and only when it is active and
  -- `VerifyPassword` accepts the password for its hash.
  pub authenticate_sound :
      (email password : Text) (w : World D) (a : Account)
      → (authenticate parse_address hash_password verify_password provisioner email password w).0
        ≡ ok a
      → (find_email (canonical email) w.db.rows.mailboxes ≡ some a.mailbox)
        × (a.mailbox.status ≡ active)
        × (verify_password password a.mailbox.password_hash ≡ true)
  unfolding authenticate on_db pure
  authenticate_sound email password w a h =
      let (addressed, h1) = when_ok _ _ _ w a h in
      let (b, got, h2) = bind_ok _ _ w a h1 in
      let (is_active, h3) = when_ok _ _ _ _ a h2 in
      let (verified, h4) = when_ok _ _ _ _ a h3 in
      let here = get_by_email-ok (canonical email) w.db b (ok-recode_by _ b got) in
      settled _ b a (verify_password password) is_active verified h4 here

  -- After a suspension that returned, nobody is let in under the e-mail of that row, whatever statements fail.
  suspended_shut_out :
      (now id : ℕ) (email password : Text) (w : World D) (m : Mailbox)
      → find_email (canonical email) w.db.rows.mailboxes ≡ some m
      → m.id ≡ id
      → (suspend now id w).0 ≡ ok tt
      → is_ok
          (authenticate parse_address hash_password verify_password provisioner email password
            (suspend now id w).1).0
        ≡ false
  unfolding suspend on_db update_status
  suspended_shut_out now id email password w m here same h =
      elim (Result-cases
        (authenticate parse_address hash_password verify_password provisioner email password
          (suspend now id w).1).0) [
            | inl (a, e) ↦
                let (row, is_active, verified) =
                  authenticate_sound email password (suspend now id w).1 a e in
                let now_there =
                  update_by_id-ok (canonical email) id _ w.db m (λ x. refl) same here
                    (ok-recode_by _ tt h) in
                clash _ a.mailbox _ row now_there is_active refl _
            | inr (x, e) ↦ rw e refl
          ]
