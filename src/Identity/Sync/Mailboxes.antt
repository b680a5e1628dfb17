-- ===== src/Identity/Sync/Mailboxes.antt =====
-- The mailbox service as the synchronisation uses it.
use opemail.Prelude.{
  ℕ, ◌≡◌, ap, Bool, true, false, Option, none, some, arith, Bool-cases, inl, inr, ◌==◌,
  if◌then◌else◌,
}
use opemail.Text.{Text, codes, eqb, canonical}
use opemail.Exec.{Result, ok, err, Exec, pure, is_ok, ◌>>=◌}
use opemail.Exec.Keeps.{
  Keeps, Keeps-pure, Keeps-if, Keeps-when, Keeps-bind, Keeps-then, keeps_rules,
}
use opemail.Exec.Outcomes.{Refuses, Refuses-late, Refuses-early, bind_ok, when_ok}
use opemail.Directory.Tables.{ℤ, Mailbox}
use opemail.Mailbox.Model.{Account, Provisioner, World, on_db, ready}
use opemail.Mailbox.Repository.{get_by_email}
use opemail.Mailbox.Rows.{get_by_email-Keeps, on_db-Keeps}
use opemail.Mailbox.Service.{
  create, create_canonical, provision, provision_new, provision_found, run_provisioner,
  note_outcome, new_mailbox,
}
use opemail.Mailbox.Service.Accounts.{
  resolve_domain-Keeps, must_be_free-Keeps, some_or_fail-Keeps, some_or_fail-Refuses,
}
use opemail.Identity.Sync.{Accounts}
use opemail.Identity.Sync.Standing.{Stands, Spares}
use opemail.Identity.Sync.{SyncOptions, Directory, sync}
use opemail.Identity.Sync.Takeover.{sync_spares_local}
use opemail.Identity.Sync.Creation.{
  clashes, create_row-Stands, create_row-Refused, run_provisioner-Keeps, provision_new-Keeps,
  found_elsewhere,
}

-- a provisioned account has the id it was given
note_outcome-id :
    {D : Type 0} (now : ℕ) (a b : Account) (c : Bool) (w : World D)
    → (note_outcome now a c w).0 ≡ ok b
    → b.mailbox.id ≡ a.mailbox.id
unfolding note_outcome ◌>>=◌
note_outcome-id now a b true w h = ground arith
note_outcome-id now a b false w h = ground arith

provision_new-id :
    {D : Type 0} (now : ℕ) (a b : Account) (o : Option (Provisioner D)) (w : World D)
    → (provision_new now a o w).0 ≡ ok b
    → b.mailbox.id ≡ a.mailbox.id
unfolding provision_new run_provisioner opemail.Exec.pure
provision_new-id now a b none w h = ground arith
provision_new-id now a b (some p) w h =
    let (u, marked, h1) = bind_ok _ _ w b h in
    let (c, worked, h2) = bind_ok _ _ _ b h1 in note_outcome-id now a b c _ h2

module _ {D : Type 0} (parse_address : Text → Bool) (hash_password : Text → Option Text)
    (verify_password : Text → Text → Bool) (provisioner : Option (Provisioner D)) (now : ℕ) where
  module _ (m : Mailbox) (id : ℕ) (email password : Text) (quota : ℤ) where
    create_canonical-Keeps :
        clashes m id email ≡ false
        → Keeps
            (λ w. Stands m w.db.rows)
            (create_canonical parse_address hash_password verify_password provisioner now id email
              password quota)
    unfolding create_canonical new_mailbox
    create_canonical-Keeps c =
        let other : (id == m.id) ≡ false = ground arith in
        Keeps-bind _ _ (Keeps-when _ _) (λ _. Keeps-bind _ _ (Keeps-when _ _) (λ _.
          Keeps-bind _ _ (some_or_fail-Keeps _ _ _) (λ parts.
            Keeps-bind _ _ (resolve_domain-Keeps (Stands m) parts.1) (λ dom.
              Keeps-bind _ _ (must_be_free-Keeps (Stands m) email) (λ _.
                Keeps-bind _ _ (some_or_fail-Keeps _ _ _) (λ hash.
                  Keeps-bind _ _ (create_row-Stands m (new_mailbox now id dom email hash quota) c)
                    (λ _. provision_new-Keeps m now _ provisioner other)))))))

    create_canonical-Refused :
        clashes m id email ≡ true
        → Refuses
            (λ w. Stands m w.db.rows)
            (create_canonical parse_address hash_password verify_password provisioner now id email
              password quota)
    unfolding create_canonical new_mailbox
    create_canonical-Refused c = Refuses-late _ _ (Keeps-when _ _) (λ _.
        Refuses-late _ _ (Keeps-when _ _) (λ _. some_or_fail-Refuses _ _ _ _ (λ parts.
          Refuses-late _ _ (resolve_domain-Keeps (Stands m) parts.1) (λ dom.
            Refuses-late _ _ (must_be_free-Keeps (Stands m) email) (λ _.
              some_or_fail-Refuses _ _ _ _ (λ hash.
                Refuses-early _ _
                  (create_row-Refused m (new_mailbox now id dom email hash quota) c)))))))

    create_canonical-id :
        (w : World D) (a : Account)
        → (create_canonical parse_address hash_password verify_password provisioner now id email
            password quota w).0
          ≡ ok a
        → a.mailbox.id ≡ id
    unfolding create_canonical new_mailbox
    create_canonical-id w a h =
        let (valid, h1) = when_ok _ _ _ w a h in
        let (long, h2) = when_ok _ _ _ w a h1 in
        let (parts, split_up, h3) = bind_ok _ _ _ a h2 in
        let (dom, resolved, h4) = bind_ok _ _ _ a h3 in
        let (free, unused, h5) = bind_ok _ _ _ a h4 in
        let (hash, hashed, h6) = bind_ok _ _ _ a h5 in
        let (u, stored, h7) = bind_ok _ _ _ a h6 in provision_new-id now _ a provisioner _ h7

  provision_found-Keeps :
      (m : Mailbox) (a : Account)
      → (a.mailbox.id == m.id) ≡ false
      → (o : Option (Provisioner D))
      → Keeps
          (λ w. Stands m w.db.rows)
          (provision_found parse_address hash_password verify_password provisioner now a o)
  provision_found-Keeps m a other none = search keeps_rules
  provision_found-Keeps m a other (some p) =
      Keeps-bind _ _ (run_provisioner-Keeps m now a p other) (λ b. Keeps-pure _)

  provision-Keeps :
      (m : Mailbox) (email : Text)
      → eqb (canonical email) m.email ≡ false
      → Keeps
          (λ w. Stands m w.db.rows)
          (provision parse_address hash_password verify_password provisioner now email)
  unfolding provision
  provision-Keeps m email elsewhere =
      Keeps-then _ _ (on_db-Keeps (Stands m) _ (get_by_email-Keeps (Stands m) (canonical email)))
        (λ w h a q. located w h a q)
    where
      located :
          (w : World D)
          → Stands m w.db.rows
          → (a : Account) → (on_db (get_by_email (canonical email)) w).0 ≡ ok a
          → Keeps
              (λ v. Stands m v.db.rows)
              (if eqb a.mailbox.provisioning_status ready
                then pure (a, true)
                else provision_found parse_address hash_password verify_password provisioner now a
                    provisioner)
      located w h a q =
          let other : (a.mailbox.id == m.id) ≡ false =
            found_elsewhere m w (canonical email) a elsewhere h q in
          Keeps-if (eqb a.mailbox.provisioning_status ready) _ _ (Keeps-pure (a, true))
            (provision_found-Keeps m a other provisioner)

  abbrev pub mailboxes : (ℕ → ℕ) → Accounts D
  mailboxes ids = record {
    create = λ k email password quota.
        create parse_address hash_password verify_password provisioner now (ids k) email password
          quota;
    provision =
        λ k email. provision parse_address hash_password verify_password provisioner now email;
  }

  pub mailboxes-Spares : (ids : ℕ → ℕ) (m : Mailbox) → Spares m (mailboxes ids)
  unfolding create
  mailboxes-Spares ids m = record {
    create-Keeps = λ k email password quota.
        elim (Bool-cases (clashes m (ids k) (canonical email))) [
          | inl t ↦
              let no = create_canonical-Refused m (ids k) (canonical email) password quota t in
              record { after = λ w h. (no.after w h).1 }
          | inr f ↦ create_canonical-Keeps m (ids k) (canonical email) password quota f
        ];
    fresh = λ k email password quota w a h r.
        elim (Bool-cases (clashes m (ids k) (canonical email))) [
          | inl t ↦
              let no =
                ((create_canonical-Refused m (ids k) (canonical email) password quota t).after w
                  h).0 in
              let yes = ap is_ok r in ground arith
          | inr f ↦
              let same = create_canonical-id m (ids k) (canonical email) password quota w a r in
              (rw same (ground arith), ground arith)
        ];
    provision-Keeps = λ k email elsewhere. provision-Keeps m email elsewhere;
  }

module _ {D : Type 0} (parse_address : Text → Bool) (hash_password : Text → Option Text)
    (verify_password : Text → Text → Bool) (provisioner : Option (Provisioner D)) where
  -- A mailbox of a local account that stands under its e-mail, with an id that is of no other e-mail, is left as it
  -- is by a `sync` that creates mailboxes through the mailbox service, whatever the directory lists, whichever options
  -- are set, whatever UUIDs are drawn and whichever statements fail.
  pub local_accounts_spared :
      (now : ℕ) (ids : ℕ → ℕ) (drawn : ℕ → Text) (o : SyncOptions) (directory : Option Directory)
      (m : Mailbox) (w : World D)
      → m.identity_provider ≡ codes "local"
      → Stands m w.db.rows
      → Stands m
          (sync now drawn o
            (some (mailboxes parse_address hash_password verify_password provisioner now ids))
            directory
            w).1.db.rows
  local_accounts_spared now ids drawn o directory m w is_local =
      sync_spares_local m is_local now drawn o _ directory w
        (mailboxes-Spares parse_address hash_password verify_password provisioner now ids m)
