-- ===== src/Mailbox/Service/Accounts.antt =====
-- What creating, deleting and authenticating do to the rows.
use opemail.Prelude.{ℕ, ◌≡◌, refl, sym, Bool, true, false, Option, none, some, ltb, arith}
use opemail.Text.{Text, is_empty, canonical}
use opemail.Exec.{ok, Exec, is_ok, ◌>>=◌}
use opemail.Exec.Keeps.{Keeps, Keeps-when, keeps_rules}
use opemail.Exec.Outcomes.{Yields, Refuses, Yields-late, Yields-early, Refuses-late, Refuses-early}
use opemail.Database.Statements.{statement-Keeps}
use opemail.Directory.Tables.{ℤ, pos, negsuc, Mailbox, Domain, Tables, find_email, find_name}
use opemail.Domains.Repository.{get_by_name, found}
use opemail.Mailbox.Model.{MailboxError, hash_failed, Account, Provisioner, World, on_db, active}
use opemail.Mailbox.Repository.{create_row, update_provisioning_status}
use opemail.Mailbox.Rows.{
  Holds, IsGone, get_by_email-Keeps, update_by_id-Keeps, create_row-Yields, create_row-Refuses,
  delete_row-Yields, on_db-Keeps, on_db-Yields, on_db-Refuses,
}
use opemail.Mailbox.Service.{
  create, create_canonical, delete, or_gigabyte, resolve_domain, must_be_free, some_or_fail,
  provision_new, run_provisioner, note_outcome, provision_with, new_mailbox,
}

-- more than nothing
abbrev pub is_positive : ℤ → Bool
is_positive (pos n) = ltb 0 n
is_positive (negsuc n) = false

-- an active row with the hash of the password and room for mail
pub record IsOpened (hash_password : Text → Option Text) (password : Text) (m : Mailbox)
    : Type 0 where
  pub is_active : m.status ≡ active
  pub hashed : hash_password password ≡ some m.password_hash
  pub roomy : is_positive m.quota_bytes ≡ true

is_positive-or_gigabyte : (q : ℤ) → is_positive (or_gigabyte q) ≡ true
unfolding or_gigabyte
is_positive-or_gigabyte (pos n) = ground arith
is_positive-or_gigabyte (negsuc n) = refl

pub found_rows :
    (t : Tables) (o : Option Domain) (a : Domain) (r : Tables) → found t o ≡ ok (a, r) → t ≡ r
found_rows t none a r h = ground arith
found_rows t (some d) a r h = ground arith

module _ {D : Type 0} where
  pub resolve_domain-Keeps :
      (Q : Tables → Type 0) (n : Text) → Keeps (λ w. Q w.db.rows) (resolve_domain {D = D} n)
  unfolding resolve_domain get_by_name
  resolve_domain-Keeps Q n = record {
    after = λ w h.
        (statement-Keeps Q (λ t. found t (find_name n t.domains))
            (λ t a r e g. rw (sym (found_rows t (find_name n t.domains) a r e)) g)).after
          w.db h;
  }

  pub must_be_free-Keeps :
      (Q : Tables → Type 0) (e : Text) → Keeps (λ w. Q w.db.rows) (must_be_free {D = D} e)
  unfolding must_be_free
  must_be_free-Keeps Q e = record { after = λ w h. (get_by_email-Keeps Q e).after w.db h }

  pub some_or_fail-Keeps :
      {A : Type 0} (P : World D → Type 0) (e : MailboxError) (o : Option A)
      → Keeps P (some_or_fail e o)
  unfolding some_or_fail
  some_or_fail-Keeps P e none = search keeps_rules
  some_or_fail-Keeps P e (some a) = search keeps_rules

  pub some_or_fail-Refuses :
      {A B : Type 0} (P : World D → Type 0) (e : MailboxError) (o : Option A)
      (f : A → Exec (World D) MailboxError B)
      → ((a : A) → Refuses P (f a))
      → Refuses P (some_or_fail e o >>= f)
  some_or_fail-Refuses P e o f x = Refuses-late (some_or_fail e o) f (some_or_fail-Keeps P e o) x

module _ {D : Type 0} (e : Text) (P : Mailbox → Type 0)
    (any_status : (now : ℕ) (status : Text) (m : Mailbox)
      → P m
      → P (record m { provisioning_status = status; updated_at = now })) where
  mark-Keeps :
      (now i : ℕ) (status : Text)
      → Keeps (λ w. Holds e P w.db.rows) (on_db {D = D} (update_provisioning_status now i status))
  unfolding update_provisioning_status
  mark-Keeps now i status =
      on_db-Keeps (Holds e P) _ (update_by_id-Keeps e P i _ (λ m. refl) (any_status now status))

  provision_with-Keeps :
      (p : Provisioner D) (a : Account) → Keeps (λ w. Holds e P w.db.rows) (provision_with p a)
  unfolding provision_with
  provision_with-Keeps p a = record { after = λ w h. h }

  note_outcome-Keeps :
      (now : ℕ) (a : Account) (b : Bool)
      → Keeps (λ w. Holds e P w.db.rows) (note_outcome {D = D} now a b)
  unfolding note_outcome
  note_outcome-Keeps now a true = search (keeps_rules, mark-Keeps)
  note_outcome-Keeps now a false = search (keeps_rules, mark-Keeps)

  run_provisioner-Keeps :
      (now : ℕ) (a : Account) (p : Provisioner D)
      → Keeps (λ w. Holds e P w.db.rows) (run_provisioner now a p)
  unfolding run_provisioner
  run_provisioner-Keeps now a p =
      search (keeps_rules, mark-Keeps, provision_with-Keeps, note_outcome-Keeps)

  provision_new-Keeps :
      (now : ℕ) (a : Account) (o : Option (Provisioner D))
      → Keeps (λ w. Holds e P w.db.rows) (provision_new now a o)
  unfolding provision_new
  provision_new-Keeps now a none = search keeps_rules
  provision_new-Keeps now a (some p) = run_provisioner-Keeps now a p

IsOpened-any_status :
    (hash_password : Text → Option Text) (password : Text) (now : ℕ) (status : Text) (m : Mailbox)
    → IsOpened hash_password password m
    → IsOpened hash_password password (record m { provisioning_status = status; updated_at = now })
IsOpened-any_status hash_password password now status m h = record {
  is_active = h.is_active;
  hashed = h.hashed;
  roomy = h.roomy;
}

module _ {D : Type 0} (parse_address : Text → Bool) (hash_password : Text → Option Text)
    (verify_password : Text → Text → Bool) (provisioner : Option (Provisioner D)) where
  module _ (now id : ℕ) (email password : Text) (quota : ℤ) where
    abbrev Opened : World D → Type 0
    Opened w = Holds email (IsOpened hash_password password) w.db.rows

    create_with-Yields :
        (dom : Domain) (o : Option Text)
        → hash_password password ≡ o
        → Yields Opened (
            some_or_fail hash_failed o >>= λ hash.
            on_db (create_row (new_mailbox now id dom email hash quota)) >>= λ _.
            provision_new now
              (record { mailbox = new_mailbox now id dom email hash quota; domain_name = dom.name })
              provisioner)
    unfolding some_or_fail ◌>>=◌ is_empty new_mailbox
    create_with-Yields dom none e = record { after = λ s a h. ground arith }
    create_with-Yields dom (some hash) e =
        Yields-early _ _
          (on_db-Yields (Holds email (IsOpened hash_password password)) _ (
            create_row-Yields (new_mailbox now id dom email hash quota)
              (IsOpened hash_password password)
              (record { is_active = refl; hashed = e; roomy = is_positive-or_gigabyte quota })))
          (λ _.
            provision_new-Keeps email (IsOpened hash_password password)
              (IsOpened-any_status hash_password password) now _ provisioner)

    create_canonical-Yields : Yields Opened (
        create_canonical parse_address hash_password verify_password provisioner now id email
          password quota)
    unfolding create_canonical
    create_canonical-Yields = Yields-late _ _ (λ _. Yields-late _ _ (λ _. Yields-late _ _ (λ parts.
        Yields-late _ _
          (λ dom. Yields-late _ _ (λ _. create_with-Yields dom (hash_password password) refl)))))

    module _ (m : Mailbox) where
      abbrev Taken : World D → Type 0
      Taken w = Holds email (λ x. x ≡ m) w.db.rows

      create_with-Refuses :
          (dom : Domain) (hash : Text)
          → Refuses Taken (
              on_db (create_row (new_mailbox now id dom email hash quota)) >>= λ _.
              provision_new now
                (record {
                  mailbox = new_mailbox now id dom email hash quota;
                  domain_name = dom.name;
                })
                provisioner)
      unfolding new_mailbox
      create_with-Refuses dom hash = Refuses-early _ _ (
          on_db-Refuses (Holds email (λ x. x ≡ m)) _
            (create_row-Refuses (new_mailbox now id dom email hash quota) (λ x. x ≡ m)))

      create_canonical-Refuses : Refuses Taken (
          create_canonical parse_address hash_password verify_password provisioner now id email
            password quota)
      unfolding create_canonical
      create_canonical-Refuses = Refuses-late _ _ (Keeps-when _ _) (λ _.
          Refuses-late _ _ (Keeps-when _ _) (λ _. some_or_fail-Refuses Taken _ _ _ (λ parts.
            Refuses-late _ _ (resolve_domain-Keeps (Holds email (λ x. x ≡ m)) parts.1) (λ dom.
              Refuses-late _ _ (must_be_free-Keeps (Holds email (λ x. x ≡ m)) email)
                (λ _. some_or_fail-Refuses Taken _ _ _ (create_with-Refuses dom))))))

  -- When `create` returns a mailbox, whatever statements failed on the way, the row under the canonical e-mail is
  -- active, has the hash of the password, and has a positive quota, also where the quota asked for was not.
  create_opens :
      (now id : ℕ) (email password : Text) (quota : ℤ) (w : World D) (a : Account)
      → (create parse_address hash_password verify_password provisioner now id email password quota
          w).0
        ≡ ok a
      → Holds
          (canonical email)
          (IsOpened hash_password password)
          (create parse_address hash_password verify_password provisioner now id email password
            quota w).1.db.rows
  unfolding create
  create_opens now id email password quota w a h =
      (create_canonical-Yields now id (canonical email) password quota).after w a h

  -- While a row stands under the canonical e-mail, `create` never succeeds, whatever statements fail and also
  -- where the row's domain is missing, and the row stays as it is.
  pub one_mailbox_per_address :
      (now id : ℕ) (email password : Text) (quota : ℤ) (w : World D) (m : Mailbox)
      → find_email (canonical email) w.db.rows.mailboxes ≡ some m
      → let done =
          create parse_address hash_password verify_password provisioner now id email password quota
            w in
        (is_ok done.0 ≡ false) × (find_email (canonical email) done.1.db.rows.mailboxes ≡ some m)
  unfolding create
  one_mailbox_per_address now id email password quota w m h =
      let (none_made, still) =
        (create_canonical-Refuses now id (canonical email) password quota m).after w
          (record { row = m; here = h; good = refl }) in
      (none_made, rw (sym still.good) still.here)

  delete-Yields :
      (now : ℕ) (email : Text)
      → Yields
          (λ w. IsGone (canonical email) w.db.rows)
          (delete parse_address hash_password verify_password provisioner now email)
  unfolding delete
  delete-Yields now email = Yields-late _ _ (λ _. Yields-late _ _ (λ a. Yields-late _ _ (λ _.
      Yields-late _ _ (λ _.
        Yields-late _ _
          (λ _. on_db-Yields (IsGone (canonical email)) _ (delete_row-Yields (canonical email)))))))

  -- When `delete` returns, whatever earlier statements failed, no row is left under the canonical e-mail.
  delete_leaves_none :
      (now : ℕ) (email : Text) (w : World D)
      → (delete parse_address hash_password verify_password provisioner now email w).0 ≡ ok tt
      → find_email
          (canonical email)
          (delete parse_address hash_password verify_password provisioner now email
            w).1.db.rows.mailboxes
        ≡ none
  delete_leaves_none now email w h = (delete-Yields now email).after w tt h
