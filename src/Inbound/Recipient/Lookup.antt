-- ===== src/Inbound/Recipient/Lookup.antt =====
-- Which recipients are accepted.
use opemail.Prelude.{
  ℕ, suc, ◌+◌, ◌≡◌, refl, Bool, true, false, ◌&&◌, some, List, [], ◌∷◌, inl, inr, get_elem?,
  Bool-cases, arith,
}
use opemail.Text.{Text, codes, eqb, to_lower, folded, split}
use opemail.Text.Laws.{eqb_sound}
use opemail.Database.{Db, IsUp}
use opemail.Directory.Tables.{Tables, Domain, Mailbox}
use opemail.Inbound.Recipient.{
  active_domain, ready_mailbox, query_domain, query_mailboxes, query_aliases, verify_parts,
  verify_recipient,
}

-- one part before the `@` and the name of an active domain behind it
abbrev pub at_active_domain : List Text → Tables → Bool
at_active_domain (local ∷ domain ∷ []) t = active_domain domain t.domains
at_active_domain _ t = false

verify_parts_sound :
    (email : Text) (parts : List Text) (s : Db Tables)
    → (verify_parts email parts s).0 ≡ true
    → (at_active_domain parts s.rows ≡ true) × (ready_mailbox email s.rows.mailboxes ≡ true)
unfolding query_domain query_mailboxes query_aliases
verify_parts_sound email [] s h = cc
verify_parts_sound email (local ∷ []) s h = cc
verify_parts_sound email (local ∷ domain ∷ []) s h = ground arith
verify_parts_sound email (local ∷ domain ∷ x ∷ rest) s h = cc

verify_parts_complete :
    (email : Text) (parts : List Text) (s : Db Tables)
    → IsUp s
    → at_active_domain parts s.rows ≡ true
    → ready_mailbox email s.rows.mailboxes ≡ true
    → (verify_parts email parts s).0 ≡ true
unfolding query_domain query_mailboxes query_aliases
verify_parts_complete email [] s up d m = cc
verify_parts_complete email (local ∷ []) s up d m = cc
verify_parts_complete email (local ∷ domain ∷ []) s up d m =
    ground (arith, up s.statements, up (s.statements + 1))
verify_parts_complete email (local ∷ domain ∷ x ∷ rest) s up d m = cc

-- a row of the domains with this name in lower case, which is active
pub record ActiveDomain (name : Text) (t : Tables) : Type 0 where
  pub index : ℕ
  pub row : Domain
  pub here : get_elem? t.domains index ≡ some row
  pub named : to_lower row.name ≡ name
  pub is_active : row.status ≡ codes "active"

-- a row of the mailboxes with this e-mail in lower case, which is active and ready
pub record ReadyMailbox (email : Text) (t : Tables) : Type 0 where
  pub index : ℕ
  pub row : Mailbox
  pub here : get_elem? t.mailboxes index ≡ some row
  pub named : to_lower row.email ≡ email
  pub is_active : row.status ≡ codes "active"
  pub is_ready : row.provisioning_status ≡ codes "ready"

active_domain-row :
    (name : Text) (ds : List Domain)
    → active_domain name ds ≡ true
    → (i : ℕ) × (d : Domain) × (get_elem? ds i ≡ some d)
      × (to_lower d.name ≡ name)
      × (d.status ≡ codes "active")
unfolding active_domain
active_domain-row name [] h = absurd (ground arith)
active_domain-row name (d ∷ ds) h =
    elim (Bool-cases (eqb (to_lower d.name) name && eqb d.status (codes "active"))) [
      | inl t ↦ (
        0,
        d,
        refl,
        eqb_sound _ _ (ground arith),
        eqb_sound d.status (codes "active") (ground arith),
      )
      | inr f ↦
          let (i, e, here, same, good) = active_domain-row name ds (ground arith) in
          (suc i, e, here, same, good)
    ]

ready_mailbox-row :
    (email : Text) (ms : List Mailbox)
    → ready_mailbox email ms ≡ true
    → (i : ℕ) × (m : Mailbox) × (get_elem? ms i ≡ some m)
      × (to_lower m.email ≡ email)
      × (m.status ≡ codes "active")
      × (m.provisioning_status ≡ codes "ready")
unfolding ready_mailbox
ready_mailbox-row email [] h = absurd (ground arith)
ready_mailbox-row email (m ∷ ms) h =
    elim (Bool-cases (
      eqb (to_lower m.email) email
      && eqb m.status (codes "active")
      && eqb m.provisioning_status (codes "ready"))) [
        | inl t ↦ (
          0,
          m,
          refl,
          eqb_sound _ _ (ground arith),
          eqb_sound m.status (codes "active") (ground arith),
          eqb_sound m.provisioning_status (codes "ready") (ground arith),
        )
        | inr f ↦
            let (i, n, here, same, good, ready) = ready_mailbox-row email ms (ground arith) in
            (suc i, n, here, same, good, ready)
      ]

two_parts :
    (parts : List Text) (t : Tables)
    → at_active_domain parts t ≡ true
    → (local : Text) × (domain : Text) × (parts ≡ local ∷ domain ∷ [])
      × (active_domain domain t.domains ≡ true)
two_parts [] t h = absurd (ground arith)
two_parts (local ∷ []) t h = absurd (ground arith)
two_parts (local ∷ domain ∷ []) t h = (local, domain, refl, h)
two_parts (local ∷ domain ∷ x ∷ rest) t h = absurd (ground arith)

-- Whichever statements fail and whatever the table of aliases holds, an address is accepted only where it has one
-- `@`, behind which stands the name of a domain whose row is active, and where a mailbox whose row is active and
-- ready has this e-mail, both up to case; an alias alone is refused.
pub verify_recipient_sound :
    (address : Text) (s : Db Tables)
    → (verify_recipient address s).0 ≡ true
    → (local : Text) × (domain : Text) × (split (folded address) b'@' ≡ local ∷ domain ∷ [])
      × ActiveDomain domain s.rows
      × ReadyMailbox (folded address) s.rows
unfolding verify_recipient
verify_recipient_sound address s h =
    let (known, ready) = verify_parts_sound (folded address) (split (folded address) b'@') s h in
    let (local, domain, parts, found) = two_parts (split (folded address) b'@') s.rows known in
    let (i, d, d_here, d_named, d_active) = active_domain-row domain s.rows.domains found in
    let (j, m, m_here, m_named, m_active, m_ready) =
      ready_mailbox-row (folded address) s.rows.mailboxes ready in
    (
      local,
      domain,
      parts,
      record { index = i; row = d; here = d_here; named = d_named; is_active = d_active },
      record {
        index = j;
        row = m;
        here = m_here;
        named = m_named;
        is_active = m_active;
        is_ready = m_ready;
      },
    )

-- While the database answers, every such address is accepted.
verify_recipient_complete :
    (address : Text) (s : Db Tables)
    → IsUp s
    → at_active_domain (split (folded address) b'@') s.rows ≡ true
    → ready_mailbox (folded address) s.rows.mailboxes ≡ true
    → (verify_recipient address s).0 ≡ true
unfolding verify_recipient
verify_recipient_complete address s up d m =
    verify_parts_complete (folded address) (split (folded address) b'@') s up d m
