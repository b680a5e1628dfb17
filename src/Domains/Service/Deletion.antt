-- ===== src/Domains/Service/Deletion.antt =====
-- What deleting a domain takes with it, and what creating one needs.
use opemail.Prelude.{ℕ, ◌≡◌, refl, false, ◌⊎◌, inl, inr, none, some, any, arith, Bool-cases, ◌==◌}
use opemail.Text.{Text, eqb, is_empty, canonical}
use opemail.Exec.{ok, is_ok, ◌>>=◌}
use opemail.Database.{Db}
use opemail.Directory.Tables.{Domain, Mailbox, Tables, find_name, find_email}
use opemail.Domains.Repository.{delete_row, create_row, get_by_name, belongs, cascade}
use opemail.Domains.Repository.Laws.{
  find_name-belongs, find_name-keep, mailboxes_of-cascade, aliases_of-cascade, find_email-cascade,
}
use opemail.Domains.Service.{delete, create, must_be_new, is_valid_domain_name}

rows_of-delete :
    (name : Text) (s : Db Tables)
    → (((delete name s).1.rows ≡ s.rows) × (is_ok (delete name s).0 ≡ false))
      ⊎ ((delete name s).1.rows ≡ cascade (canonical name) s.rows)
unfolding delete delete_row ◌>>=◌
rows_of-delete name s = elim (Bool-cases (is_empty (canonical name))) [
  | inl e ↦ rw e (inl (refl, refl))
  | inr e ↦ elim (Bool-cases (s.down s.statements)) [
    | inl d ↦ rw (e, d) (inl (refl, refl))
    | inr d ↦ elim (Bool-cases (any (λ d. eqb d.name (canonical name)) s.rows.domains)) [
      | inl a ↦ rw (e, d, a) (inr refl)
      | inr a ↦ rw (e, d, a) (inl (refl, refl))
    ]
  ]
]

domains_gone : (n : Text) (t : Tables) → find_name n (cascade n t).domains ≡ none
unfolding cascade
domains_gone n t = find_name-keep n t.domains

-- When `delete` returns, the domain is gone under its canonical name, and no mailbox and no alias of it is left.
pub delete_cascades :
    (name : Text) (s : Db Tables) (d : Domain)
    → find_name (canonical name) s.rows.domains ≡ some d
    → (delete name s).0 ≡ ok tt
    → (find_name (canonical name) (delete name s).1.rows.domains ≡ none)
      × (any (λ m. m.domain_id == d.id) (delete name s).1.rows.mailboxes ≡ false)
      × (any (λ a. a.domain_id == d.id) (delete name s).1.rows.aliases ≡ false)
delete_cascades name s d here done = elim (rows_of-delete name s) [
  | inl (same, failed) ↦ ground arith
  | inr gone ↦
      let own = find_name-belongs (canonical name) s.rows.domains d here in
      rw gone (
        domains_gone (canonical name) s.rows,
        mailboxes_of-cascade (canonical name) s.rows d.id own,
        aliases_of-cascade (canonical name) s.rows d.id own,
      )
]

-- Whether `delete` returns or fails, the mailbox under an e-mail stays as it is when its domain does not have the name.
delete_spares :
    (name e : Text) (s : Db Tables) (m : Mailbox)
    → find_email e s.rows.mailboxes ≡ some m
    → belongs (canonical name) s.rows.domains m.domain_id ≡ false
    → find_email e (delete name s).1.rows.mailboxes ≡ some m
delete_spares name e s m here other = elim (rows_of-delete name s) [
  | inl (same, failed) ↦ rw same here
  | inr gone ↦ rw gone (find_email-cascade (canonical name) e s.rows m here other)
]

-- While a domain stands under the canonical name, `create` never succeeds, whatever statements fail, and no
-- table changes.
one_domain_per_name :
    (now id : ℕ) (name : Text) (s : Db Tables) (d : Domain)
    → find_name (canonical name) s.rows.domains ≡ some d
    → (is_ok (create now id name s).0 ≡ false) × ((create now id name s).1.rows ≡ s.rows)
unfolding create must_be_new get_by_name create_row ◌>>=◌
one_domain_per_name now id name s d here =
    elim (Bool-cases (is_valid_domain_name (canonical name))) [
      | inl v ↦ elim (Bool-cases (s.down s.statements)) [
        | inl x ↦ rw (v, x) (refl, refl)
        | inr x ↦ rw (v, x, here) (refl, refl)
      ]
      | inr v ↦ rw v (refl, refl)
    ]
