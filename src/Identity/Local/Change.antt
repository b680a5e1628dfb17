-- ===== src/Identity/Local/Change.antt =====
-- A new password of a local account, and the login that follows.
use opemail.Prelude.{
  [], ◌∷◌, length, ltb, ◌≡◌, refl, sym, ap, ◌∙◌, true, false, Option, none, some, ℕ, map, arith,
}
use mathlib.Core.Option.{some-injective}
use mathlib.Core.Path.{subst}
use opemail.Text.{Text, codes, is_empty, canonical}
use opemail.Exec.{ok, fail_with, ◌>>=◌, when}
use opemail.Exec.Brings.{recode_ok}
use opemail.Exec.Outcomes.{bind_ok, when_ok, bind_run, when_run}
use opemail.Database.{Db, IsUp}
use opemail.Database.Statements.{statement-Keeps}
use opemail.Directory.Tables.{Mailbox, Domain, Tables, find_email, find_domain}
use opemail.Mailbox.Model.{Account}
use opemail.Mailbox.Repository.{
  get_by_email, located, joined, set_by_id, update_by_id, update_password_hash,
}
use opemail.Mailbox.Service.Login.{located-ok, attempt-ok, update_by_id-ok}
use opemail.Mailbox.Password.{Hashing, key_of, hash_password, verify_password}
use opemail.Mailbox.Password.RoundTrip.{IsFaithful, verify-hash_password}
use opemail.Identity.Local.{
  closed, identity_of, default_params, stored, admit, authenticate, set_password,
}
use opemail.Identity.Local.Login.{get_by_email_rows}

-- an open mailbox under the canonical name, whose hash verifies the password, is let in while the database answers
admits :
    (lib : Hashing) (id_text : ℕ → Text) (username password : Text) (s : Db Tables) (a : Account)
    → IsUp s
    → is_empty (canonical username) ≡ false
    → is_empty password ≡ false
    → located s.rows (find_email (canonical username) s.rows.mailboxes) ≡ ok (a, s.rows)
    → closed a.mailbox ≡ none
    → verify_password lib password a.mailbox.password_hash ≡ ok true
    → (authenticate lib id_text username password s).0
      ≡ ok (identity_of lib id_text (codes "active") a.mailbox)
unfolding authenticate get_by_email fail_with admit ◌>>=◌ when
admits lib id_text username password s a up named given here is_open good =
    rw (named, given, up s.statements, here, is_open, good) refl

stored_update :
    (now i : ℕ) (h : Option Text) (s : Db Tables)
    → (stored now i h s).0 ≡ ok tt
    → (hash : Text) × (h ≡ some hash)
      × ((update_password_hash now i hash s).0 ≡ ok tt)
      × ((stored now i h s).1 ≡ (update_password_hash now i hash s).1)
unfolding fail_with
stored_update now i none s h = absurd (ground arith)
stored_update now i (some x) s h =
    (x, refl, recode_ok _ (update_password_hash now i x s).0 tt h, refl)

found_domain :
    (t : Tables) (m : Mailbox) (o : Option Domain) (a : Account) (r : Tables)
    → joined t m o ≡ ok (a, r)
    → (d : Domain) × (o ≡ some d)
found_domain t m none a r h = ground arith
found_domain t m (some d) a r h = (d, refl)

with_domain :
    (t : Tables) (m : Mailbox) (a : Account) (r : Tables)
    → located t (some m) ≡ ok (a, r)
    → (d : Domain) × (find_domain m.domain_id t.domains ≡ some d)
unfolding located
with_domain t m a r h = found_domain t m (find_domain m.domain_id t.domains) a r h

-- a look-up that returned found the row, and the row's domain
located_both :
    (t : Tables) (o : Option Mailbox) (a : Account) (r : Tables)
    → located t o ≡ ok (a, r)
    → (o ≡ some a.mailbox) × (d : Domain) × (find_domain a.mailbox.domain_id t.domains ≡ some d)
located_both t o a r h =
    let here = located-ok t o a r h in
    let found : located t (some a.mailbox) ≡ ok (a, r) = rw (sym here) h in
    let (d, domain) = with_domain t a.mailbox a r found in (here, d, domain)

get_by_email-both :
    (e : Text) (s : Db Tables) (a : Account)
    → (get_by_email e s).0 ≡ ok a
    → (find_email e s.rows.mailboxes ≡ some a.mailbox)
      × (d : Domain) × (find_domain a.mailbox.domain_id s.rows.domains ≡ some d)
unfolding get_by_email
get_by_email-both e s a h =
    let (r, here, now) = attempt-ok (s.down s.statements) _ s a h in
    located_both s.rows (find_email e s.rows.mailboxes) a r here

-- the mailbox after `UpdatePasswordHash`
abbrev changed : ℕ → Text → Mailbox → Mailbox
changed now h m = record m { password_hash = h; updated_at = now }

update_domains :
    (now i : ℕ) (h : Text) (s : Db Tables)
    → (update_password_hash now i h s).1.rows.domains ≡ s.rows.domains
unfolding update_password_hash update_by_id
update_domains now i h s =
    (statement-Keeps (λ t. t.domains ≡ s.rows.domains) _
        (λ t a r e k.
          let same : record t { mailboxes = map (set_by_id i (changed now h)) t.mailboxes } ≡ r =
            ground arith in
          rw (sym same) k)).after
      s refl

-- the row of the password's new hash, once `SetPassword` has returned
set_password-row :
    (lib : Hashing) (now : ℕ) (salt : Text) (username password : Text) (s : Db Tables)
    → (set_password lib now (some salt) username password s).0 ≡ ok tt
    → (m : Mailbox) × (d : Domain) × (hash : Text) × (hash_password lib password
          (some salt)
          default_params
        ≡ some hash)
      × (find_email (canonical username) s.rows.mailboxes ≡ some m)
      × (find_email
            (canonical username)
            (set_password lib now (some salt) username password s).1.rows.mailboxes
          ≡ some (changed now hash m))
      × (find_domain m.domain_id
            (set_password lib now (some salt) username password s).1.rows.domains
          ≡ some d)
unfolding set_password fail_with update_by_id update_password_hash
set_password-row lib now salt username password s h =
    let (long_enough, h1) = when_ok _ _ _ s tt h in
    let (a, got, h2) = bind_ok _ _ s tt h1 in
    let s1 = (get_by_email (canonical username) s).1 in
    let (row, d, domain) = get_by_email-both (canonical username) s a (recode_ok _ _ a got) in
    let (hash, hashed, updated, same) =
      stored_update now a.mailbox.id (hash_password lib password (some salt) default_params) s1
        h2 in
    let run : set_password lib now (some salt) username password s ≡ _ =
      when_run _ _ _ s long_enough ∙ bind_run _ _ s a got in
    let after = ap (λ x. x.1) run ∙ same in
    let there =
      update_by_id-ok (canonical username) a.mailbox.id (changed now hash) s1 a.mailbox (λ x. refl)
        refl (rw (get_by_email_rows (canonical username) s) row) updated in
    (
      a.mailbox,
      d,
      hash,
      hashed,
      row,
      subst
          (λ t.
            find_email (canonical username) t.rows.mailboxes ≡ some (changed now hash a.mailbox))
          (sym after) there,
      subst (λ t. find_domain a.mailbox.domain_id t.rows.domains ≡ some d) (sym after)
          (ap (λ ds. find_domain a.mailbox.domain_id ds)
              (update_domains now a.mailbox.id hash s1
                ∙ ap (λ t. t.domains) (get_by_email_rows (canonical username) s))
            ∙ domain),
    )

same_standing :
    (lib : Hashing) (id_text : ℕ → Text) (now : ℕ) (hash : Text) (m : Mailbox)
    → (closed (changed now hash m) ≡ closed m)
      × (identity_of lib id_text (codes "active") (changed now hash m)
          ≡ identity_of lib id_text (codes "active") m)
unfolding closed identity_of
same_standing lib id_text now hash m = (refl, refl)

filled_in : (p : Text) → ltb (length p) 8 ≡ false → is_empty p ≡ false
unfolding is_empty
filled_in [] h = ground arith
filled_in (c ∷ p) h = refl

there_again :
    (t : Tables) (e : Text) (m : Mailbox) (d : Domain)
    → find_email e t.mailboxes ≡ some m
    → find_domain m.domain_id t.domains ≡ some d
    → located t (find_email e t.mailboxes) ≡ ok (record { mailbox = m; domain_name = d.name }, t)
unfolding located
there_again t e m d row domain = rw (row, domain) refl

-- While the libraries read back what they wrote for the new hash and the random salt was drawn, a mailbox that is open
-- under a user name that is not blank can log in with its new password as soon as `set_password` has returned: with
-- the rows as it left them and a database that answers, `authenticate` returns the identity of this mailbox.
pub new_password_admits :
    (lib : Hashing) (id_text : ℕ → Text) (now : ℕ) (salt username password : Text)
    (s later : Db Tables) (m : Mailbox)
    → IsFaithful lib default_params salt (key_of lib password salt default_params)
    → is_empty (canonical username) ≡ false
    → find_email (canonical username) s.rows.mailboxes ≡ some m
    → closed m ≡ none
    → (set_password lib now (some salt) username password s).0 ≡ ok tt
    → later.rows ≡ (set_password lib now (some salt) username password s).1.rows
    → IsUp later
    → (authenticate lib id_text username password later).0
      ≡ ok (identity_of lib id_text (codes "active") m)
unfolding set_password
new_password_admits lib id_text now salt username password s later m faithful named row is_open h
      same up =
    let (x, d, hash, hashed, was, row_now, domain) =
      set_password-row lib now salt username password s h in
    let x_is_m : x ≡ m = some-injective _ _ (sym was ∙ row) in
    let (long_enough, _) = when_ok _ _ _ s tt h in
    let (open_now, identity_now) = same_standing lib id_text now hash x in
    let good =
      (verify-hash_password lib default_params password salt hash password faithful hashed).0 in
    let here =
      subst
        (λ t.
          located t (find_email (canonical username) t.mailboxes)
          ≡ ok (record { mailbox = changed now hash x; domain_name = d.name }, t))
        (sym same) (there_again _ (canonical username) (changed now hash x) d row_now domain) in
    admits lib id_text username password later _ up named (filled_in password long_enough) here
      (open_now ∙ ap closed x_is_m ∙ is_open) good
    ∙ ap ok (identity_now ∙ ap (identity_of lib id_text (codes "active")) x_is_m)
