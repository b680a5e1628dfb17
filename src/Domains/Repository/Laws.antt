-- ===== src/Domains/Repository/Laws.antt =====
-- What a delete takes away and what it leaves.
use opemail.Prelude.{
  ℕ, ◌≡◌, refl, Bool, true, false, not, none, some, List, [], ◌∷◌, any, keep, arith, Bool-cases,
  inl, inr, ◌==◌,
}
use opemail.Text.{Text, eqb}
use opemail.Directory.Tables.{Domain, Mailbox, Tables, find_name, find_email}
use opemail.Domains.Repository.{belongs, cascade}

any-keep-not :
    {A : Type 0} (p q : A → Bool) (xs : List A)
    → ((x : A) → q x ≡ true → p x ≡ true)
    → any q (keep (λ x. not (p x)) xs) ≡ false
any-keep-not p q [] k = refl
any-keep-not p q (x ∷ xs) k =
    let rest = any-keep-not p q xs k in
    elim (Bool-cases (p x)) [
      | inl t ↦ rw t rest
      | inr t ↦ elim (Bool-cases (q x)) [
        | inl s ↦ let clash = k x s in ground arith
        | inr s ↦ rw (t, s) rest
      ]
    ]

pub find_name-belongs :
    (n : Text) (ds : List Domain) (d : Domain) → find_name n ds ≡ some d → belongs n ds d.id ≡ true
unfolding find_name belongs
find_name-belongs n [] d h = ground arith
find_name-belongs n (x ∷ ds) d h = elim (Bool-cases (eqb x.name n)) [
  | inl t ↦ let same : x ≡ d = ground arith in ground arith
  | inr t ↦ let rest = find_name-belongs n ds d (ground arith) in ground arith
]

pub find_name-keep :
    (n : Text) (ds : List Domain) → find_name n (keep (λ d. not (eqb d.name n)) ds) ≡ none
unfolding find_name
find_name-keep n [] = refl
find_name-keep n (d ∷ ds) = let rest = find_name-keep n ds in ground arith

pub mailboxes_of-cascade :
    (n : Text) (t : Tables) (i : ℕ)
    → belongs n t.domains i ≡ true
    → any (λ m. m.domain_id == i) (cascade n t).mailboxes ≡ false
unfolding cascade
mailboxes_of-cascade n t i h =
    any-keep-not (λ m. belongs n t.domains m.domain_id) (λ m. m.domain_id == i) t.mailboxes
      (λ m e. let same : m.domain_id ≡ i = ground arith in rw same h)

pub aliases_of-cascade :
    (n : Text) (t : Tables) (i : ℕ)
    → belongs n t.domains i ≡ true
    → any (λ a. a.domain_id == i) (cascade n t).aliases ≡ false
unfolding cascade
aliases_of-cascade n t i h =
    any-keep-not (λ a. belongs n t.domains a.domain_id) (λ a. a.domain_id == i) t.aliases
      (λ a e. let same : a.domain_id ≡ i = ground arith in rw same h)

find_email-keep :
    (p : Mailbox → Bool) (e : Text) (ms : List Mailbox) (m : Mailbox)
    → find_email e ms ≡ some m
    → p m ≡ true
    → find_email e (keep p ms) ≡ some m
unfolding find_email
find_email-keep p e [] m h k = ground arith
find_email-keep p e (x ∷ ms) m h k = elim (Bool-cases (eqb x.email e)) [
  | inl t ↦ let same : x ≡ m = ground arith in let stays : p x ≡ true = rw same k in ground arith
  | inr t ↦ let rest = find_email-keep p e ms m (ground arith) k in ground arith
]

pub find_email-cascade :
    (n e : Text) (t : Tables) (m : Mailbox)
    → find_email e t.mailboxes ≡ some m
    → belongs n t.domains m.domain_id ≡ false
    → find_email e (cascade n t).mailboxes ≡ some m
unfolding cascade
find_email-cascade n e t m h k = find_email-keep _ e t.mailboxes m h (rw k refl)
