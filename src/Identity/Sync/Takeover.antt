-- ===== src/Identity/Sync/Takeover.antt =====
-- Local accounts under a synchronisation.
use opemail.Prelude.{
  ℕ, suc, ◌≡◌, refl, sym, true, false, not, ◌&&◌, Option, none, some, List, [], ◌∷◌, ◌++◌, inl, inr,
  ◌⊎◌, ◌==◌, if◌then◌else◌,
}
use opemail.Text.{Text, codes, eqb, canonical}
use opemail.Text.Laws.{eqb_refl}
use opemail.Exec.{Result, ok, err, Exec, pure, ignore, ◌>>=◌}
use opemail.Exec.Keeps.{Keeps, Keeps-pure, Keeps-ignore, Keeps-if, Keeps-bind, keeps_rules}
use opemail.Database.Statements.{statement-Keeps}
use opemail.Directory.Tables.{Mailbox, Domain, find_name}
use opemail.Domains.Repository.{get_by_name}
use opemail.Mailbox.Model.{Account, World, on_db}
use opemail.Mailbox.Repository.{get_by_email, update_identity_provider, update_status}
use opemail.Mailbox.Rows.{get_by_email-Keeps, on_db-Keeps, ok-recode_by}
use opemail.Mailbox.Service.Accounts.{found_rows}
use opemail.Mailbox.Service.Login.{get_by_email-ok}
use opemail.Mailbox.Service.{or_gigabyte}
use opemail.Identity.Sync.{
  Entry, SyncOptions, SyncReport, SyncError, Accounts, Directory, unlisted, listing, value_of, skip,
  mark_created, create_managed, sync_existing, sync_found, sync_mailbox, sync_in_domain,
  sync_identity, sync_all, sync,
}
use opemail.Identity.Sync.Standing.{
  Stands, Spares, AllSpare, found_other, update-Stands, tried-Keeps, tried_then, value_of-some,
}

module _ {D : Type 0} (m : Mailbox) where
  domain-Keeps : (n : Text) → Keeps (λ w. Stands m w.db.rows) (on_db {D = D} (get_by_name n))
  unfolding get_by_name
  domain-Keeps n = on_db-Keeps (Stands m) _ (
      statement-Keeps (Stands m) _
        (λ t a r e g. rw (sym (found_rows t (find_name n t.domains) a r e)) g))

  status-Keeps :
      (now i : ℕ) (status : Text)
      → (i == m.id) ≡ false
      → Keeps (λ w. Stands m w.db.rows) (on_db {D = D} (update_status now i status))
  unfolding update_status
  status-Keeps now i status other =
      on_db-Keeps (Stands m) _ (update-Stands m i _ (λ x. refl) (λ x. refl) other)

  provider-Keeps :
      (now i : ℕ) (provider : Text)
      → (i == m.id) ≡ false
      → Keeps (λ w. Stands m w.db.rows) (on_db {D = D} (update_identity_provider now i provider))
  unfolding update_identity_provider
  provider-Keeps now i provider other =
      on_db-Keeps (Stands m) _ (update-Stands m i _ (λ x. refl) (λ x. refl) other)

module _ {D : Type 0} (m : Mailbox) (is_local : m.identity_provider ≡ codes "local") (now : ℕ)
    (drawn : ℕ → Text) (o : SyncOptions) where
  abbrev Kept : World D → Type 0
  Kept w = Stands m w.db.rows

  mark-Keeps :
      (service : Accounts D) (k : ℕ) (email : Text) (r : SyncReport) (a : Account)
      → Spares m service
      → (a.mailbox.id == m.id) ≡ false
      → eqb (canonical email) m.email ≡ false
      → Keeps Kept (mark_created now drawn o (some service) service k email r (some a))
  unfolding mark_created
  mark-Keeps service k email r a spares other elsewhere =
      Keeps-bind _ _ (Keeps-ignore _ (provider-Keeps m now a.mailbox.id (codes "ldap") other)) (λ _.
        Keeps-bind _ _ (Keeps-ignore _ (spares.provision-Keeps k email elsewhere))
          (λ _. Keeps-pure _))

  failed-Keeps :
      (service : Accounts D) (k : ℕ) (email : Text) (r : SyncReport)
      → Keeps Kept (mark_created now drawn o (some service) service k email r none)
  unfolding mark_created
  failed-Keeps service k email r = search keeps_rules

  create-Kept :
      (accounts : Option (Accounts D)) (k : ℕ) (email : Text) (r : SyncReport)
      → AllSpare m accounts
      → Keeps Kept (create_managed now drawn o accounts k email r accounts)
  unfolding create_managed
  create-Kept none k email r spares = search keeps_rules
  create-Kept (some service) k email r spares =
      Keeps-if (o.auto_create_mailbox && not o.dry_run) _ _
        (tried_then _ _ (spares.create-Keeps k email _ _) (λ w h x e. created w h x e))
        (Keeps-pure (skip r))
    where
      created :
          (w : World D)
          → Kept w
          → (x : Option Account)
          → value_of
              (service.create k email
                (codes "LDAP_MANAGED_" ++ drawn k)
                (or_gigabyte o.default_quota_bytes)
                w).0
            ≡ x
          → Keeps Kept (mark_created now drawn o (some service) service k email r x)
      created w h none e = failed-Keeps service k email r
      created w h (some a) e =
          let (other, elsewhere) = spares.fresh k email _ _ w a h (value_of-some _ a e) in
          mark-Keeps service k email r a spares other elsewhere

  suspend-Keeps :
      (i : ℕ)
      → (i == m.id) ≡ false
      → Keeps Kept (
          if o.dry_run
          then pure {E = SyncError} tt
          else ignore (on_db (update_status now i (codes "suspended"))))
  suspend-Keeps i other = search (keeps_rules, status-Keeps, other)

  existing-Keeps :
      (accounts : Option (Accounts D)) (e : Entry) (email : Text) (r : SyncReport) (a : Account)
      → (a.mailbox ≡ m) ⊎ ((a.mailbox.id == m.id) ≡ false)
      → Keeps Kept (sync_existing now drawn o accounts e email r a)
  unfolding sync_existing
  existing-Keeps accounts e email r a (inl same) =
      let named : eqb a.mailbox.identity_provider (codes "local") ≡ true =
        rw (same, is_local) (eqb_refl (codes "local")) in
      rw named (search keeps_rules)
  existing-Keeps accounts e email r a (inr other) =
      search (keeps_rules, suspend-Keeps, other) depth 14

  mailbox-Keeps :
      (accounts : Option (Accounts D)) (k : ℕ) (e : Entry) (email : Text) (r : SyncReport)
      → AllSpare m accounts
      → Keeps Kept (sync_mailbox now drawn o accounts k e email r)
  unfolding sync_mailbox sync_found on_db
  mailbox-Keeps accounts k e email r spares =
      tried_then _ _ (on_db-Keeps (Stands m) _ (get_by_email-Keeps (Stands m) email))
        (λ w h x q. found_then w h x q)
    where
      found_then :
          (w : World D)
          → Kept w
          → (x : Option Account) → value_of (on_db (get_by_email email) w).0 ≡ x
          → Keeps Kept (sync_found now drawn o accounts k e email r x)
      found_then w h none q = create-Kept accounts k email r spares
      found_then w h (some a) q = existing-Keeps accounts e email r a (
          found_other m w.db.rows email a.mailbox h
            (get_by_email-ok email w.db a (ok-recode_by _ a (value_of-some _ a q))))

  in_domain-Keeps :
      (accounts : Option (Accounts D)) (k : ℕ) (e : Entry) (email : Text) (r : SyncReport)
      (d : Option Domain)
      → AllSpare m accounts
      → Keeps Kept (sync_in_domain now drawn o accounts k e email r d)
  unfolding sync_in_domain
  in_domain-Keeps accounts k e email r none spares = search keeps_rules
  in_domain-Keeps accounts k e email r (some d) spares = search (keeps_rules, mailbox-Keeps, spares)

  identity-Keeps :
      (accounts : Option (Accounts D)) (es : List Entry) (k : ℕ) (e : Entry) (r : SyncReport)
      → AllSpare m accounts
      → Keeps Kept (sync_identity now drawn o accounts es k e r)
  unfolding sync_identity
  identity-Keeps accounts es k e r spares =
      search (keeps_rules, tried-Keeps, domain-Keeps, in_domain-Keeps, spares) depth 14

  all-Keeps :
      (accounts : Option (Accounts D)) (es : List Entry) (k : ℕ) (rest : List Entry)
      (r : SyncReport)
      → AllSpare m accounts
      → Keeps Kept (sync_all now drawn o accounts es k rest r)
  unfolding sync_all
  all-Keeps accounts es k [] r spares = search keeps_rules
  all-Keeps accounts es k (e ∷ rest) r spares =
      Keeps-bind _ _ (identity-Keeps accounts es k e r spares)
        (λ r'. all-Keeps accounts es (suc k) rest r' spares)

  -- A row of a local account that stands under its e-mail, with an id that no other e-mail has, is the same after a
  -- `sync`, whatever the directory lists, whichever options are set and whichever statements fail, where the mailbox
  -- service leaves the row too and gives a new account another id.
  pub sync_spares_local :
      (accounts : Option (Accounts D)) (directory : Option Directory) (w : World D)
      → AllSpare m accounts
      → Stands m w.db.rows
      → Stands m (sync now drawn o accounts directory w).1.db.rows
  unfolding sync opemail.Exec.fail
  sync_spares_local accounts none w spares h = h
  sync_spares_local accounts (some unlisted) w spares h = h
  sync_spares_local accounts (some (listing none)) w spares h = h
  sync_spares_local accounts (some (listing (some es))) w spares h =
      (all-Keeps accounts es 0 es _ spares).after w h
