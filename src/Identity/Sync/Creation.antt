-- ===== src/Identity/Sync/Creation.antt =====
-- The steps of the mailbox service on a row that stands.
use opemail.Prelude.{
  ℕ, ◌≡◌, refl, sym, ap, ◌∙◌, Bool, true, false, not, ◌&&◌, ◌||◌, Option, none, some, List, [], ◌∷◌,
  ◌++◌, any, arith, Bool-cases, inl, inr, ◌==◌,
}
use opemail.Text.{Text, eqb}
use opemail.Text.Laws.{eqb_sound, eqb_refl}
use opemail.Exec.{ok}
use opemail.Exec.Keeps.{Keeps, keeps_rules}
use opemail.Exec.Outcomes.{Refuses}
use opemail.Database.{duplicate}
use opemail.Database.Statements.{statement-Keeps, statement-Refuses}
use opemail.Directory.Tables.{Mailbox, Tables, find_email, mailbox_taken}
use opemail.Mailbox.Model.{Account, Provisioner, World, on_db}
use opemail.Mailbox.Repository.{create_row, get_by_email, filled, update_provisioning_status}
use opemail.Mailbox.Rows.{on_db-Keeps, on_db-Refuses, same_lower, ok-recode_by}
use opemail.Mailbox.Service.{provision_new, provision_with, run_provisioner, note_outcome}
use opemail.Mailbox.Service.Login.{get_by_email-ok}
use opemail.Identity.Sync.Standing.{Stands, find_email_hit, found_other, update-Stands}

-- the new row has the id or the e-mail of the one that stands
abbrev pub clashes : Mailbox → ℕ → Text → Bool
clashes m id email = (id == m.id) || eqb email m.email

taken :
    (m n : Mailbox) (ms : List Mailbox)
    → find_email m.email ms ≡ some m
    → clashes m n.id n.email ≡ true
    → mailbox_taken n ms ≡ true
unfolding find_email mailbox_taken
taken m n [] h c = ground arith
taken m n (x ∷ ms) h c = elim (Bool-cases (eqb x.email m.email)) [
  | inl t ↦
      let same : x ≡ m = ground arith in
      elim (Bool-cases (n.id == m.id)) [
        | inl i ↦ rw same (let back : (m.id == n.id) ≡ true = ground arith in rw back refl)
        | inr f ↦
            let mails : eqb n.email m.email ≡ true = ground arith in
            let own : m.email ≡ n.email = sym (eqb_sound n.email m.email mails) in
            let lowered = same_lower m.email n.email (rw own (eqb_refl n.email)) in
            rw (same) (ground arith)
      ]
  | inr f ↦ let rest = taken m n ms (ground arith) c in ground arith
]

found-append :
    (m n : Mailbox) (e : Text) (ms : List Mailbox)
    → find_email e ms ≡ some m
    → find_email e (ms ++ n ∷ []) ≡ some m
unfolding find_email
found-append m n e [] h = ground arith
found-append m n e (x ∷ ms) h = elim (Bool-cases (eqb x.email e)) [
  | inl t ↦ ground arith
  | inr f ↦ let rest = found-append m n e ms (ground arith) in ground arith
]

none_of : (ms : List Mailbox) → any (λ x. false) ms ≡ false
none_of [] = refl
none_of (x ∷ ms) = none_of ms

append-Stands :
    (m n : Mailbox) (t : Tables)
    → clashes m n.id n.email ≡ false
    → Stands m t
    → Stands m (record t { mailboxes = t.mailboxes ++ n ∷ [] })
append-Stands m n t c h = record {
  here = found-append m n m.email t.mailboxes h.here;
  alone = others t.mailboxes h.alone;
}
  where
    others :
        (ms : List Mailbox)
        → any (λ x. (x.id == m.id) && not (eqb x.email m.email)) ms ≡ false
        → any (λ x. (x.id == m.id) && not (eqb x.email m.email)) (ms ++ n ∷ []) ≡ false
    others [] e = ground arith
    others (x ∷ ms) e = let rest = others ms (ground arith) in ground arith

module _ {D : Type 0} (m : Mailbox) where
  pub create_row-Stands :
      (n : Mailbox)
      → clashes m n.id n.email ≡ false
      → Keeps (λ w. Stands m w.db.rows) (on_db {D = D} (create_row n))
  unfolding create_row
  create_row-Stands n c = on_db-Keeps (Stands m) _ (
      statement-Keeps (Stands m) _ (λ t a r done h.
        let now : record t { mailboxes = t.mailboxes ++ filled n ∷ [] } ≡ r = ground arith in
        rw (sym now) (append-Stands m (filled n) t c h)))

  pub create_row-Refused :
      (n : Mailbox)
      → clashes m n.id n.email ≡ true
      → Refuses (λ w. Stands m w.db.rows) (on_db {D = D} (create_row n))
  unfolding create_row
  create_row-Refused n c =
      on_db-Refuses (Stands m) _
        (statement-Refuses (Stands m) _ duplicate (λ t h. rw (taken m n t.mailboxes h.here c) refl))

  marked-Keeps :
      (now i : ℕ) (status : Text)
      → (i == m.id) ≡ false
      → Keeps (λ w. Stands m w.db.rows) (on_db {D = D} (update_provisioning_status now i status))
  unfolding update_provisioning_status
  marked-Keeps now i status other =
      on_db-Keeps (Stands m) _ (update-Stands m i _ (λ x. refl) (λ x. refl) other)

  provision_with-Keeps :
      (p : Provisioner D) (a : Account) → Keeps (λ w. Stands m w.db.rows) (provision_with p a)
  unfolding provision_with
  provision_with-Keeps p a = record { after = λ w h. h }

  note_outcome-Keeps :
      (now : ℕ) (a : Account) (b : Bool)
      → (a.mailbox.id == m.id) ≡ false
      → Keeps (λ w. Stands m w.db.rows) (note_outcome {D = D} now a b)
  unfolding note_outcome
  note_outcome-Keeps now a true other = search (keeps_rules, marked-Keeps, other)
  note_outcome-Keeps now a false other = search (keeps_rules, marked-Keeps, other)

  pub run_provisioner-Keeps :
      (now : ℕ) (a : Account) (p : Provisioner D)
      → (a.mailbox.id == m.id) ≡ false
      → Keeps (λ w. Stands m w.db.rows) (run_provisioner now a p)
  unfolding run_provisioner
  run_provisioner-Keeps now a p other =
      search (keeps_rules, marked-Keeps, provision_with-Keeps, note_outcome-Keeps, other)

  pub provision_new-Keeps :
      (now : ℕ) (a : Account) (o : Option (Provisioner D))
      → (a.mailbox.id == m.id) ≡ false
      → Keeps (λ w. Stands m w.db.rows) (provision_new now a o)
  unfolding provision_new
  provision_new-Keeps now a none other = search keeps_rules
  provision_new-Keeps now a (some p) other = run_provisioner-Keeps now a p other

  pub found_elsewhere :
      (w : World D) (e : Text) (a : Account)
      → eqb e m.email ≡ false
      → Stands m w.db.rows
      → (on_db (get_by_email e) w).0 ≡ ok a
      → (a.mailbox.id == m.id) ≡ false
  unfolding on_db
  found_elsewhere w e a elsewhere h q =
      let here = get_by_email-ok e w.db a (ok-recode_by _ a q) in
      elim (found_other m w.db.rows e a.mailbox h here) [
        | inl same ↦
            let (own, unused) =
              find_email_hit e (λ x. false) w.db.rows.mailboxes a.mailbox here
                (none_of w.db.rows.mailboxes) in
            let mails : m.email ≡ e = ap (λ x. x.email) (sym same) ∙ own in
            let hit : eqb e m.email ≡ true = rw mails (eqb_refl e) in ground arith
        | inr other ↦ other
      ]
