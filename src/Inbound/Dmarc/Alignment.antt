-- ===== src/Inbound/Dmarc/Alignment.antt =====
-- When two domains are aligned.
use opemail.Prelude.{
  ◌≡◌, ◌≢◌, ◌↔◌, sym, true, false, ◌⊎◌, inl, inr, ◌∷◌, ◌++◌, length, length-append, arith,
  Bool-cases, ap,
}
use opemail.Text.{Text, is_empty, eqb, folded, has_suffix}
use opemail.Text.Laws.{eqb_iff, eqb_sound, has_suffix_sound, has_suffix-append}
use opemail.Inbound.Dmarc.{aligned, is_domain_aligned}

-- one domain is the other, or lies below it
abbrev pub SameOrBelow : Text → Text → Type 0
SameOrBelow a b = (a ≡ b) ⊎ ((t : Text) × (a ≡ t ++ b'.' ∷ b)) ⊎ ((t : Text) × (b ≡ t ++ b'.' ∷ a))

aligned_tests :
    (a b : Text)
    → aligned a b false ≡ true
    → (is_empty a ≡ false)
      × (is_empty b ≡ false)
      × ((eqb a b ≡ true) ⊎ (has_suffix a (b'.' ∷ b) ≡ true) ⊎ (has_suffix b (b'.' ∷ a) ≡ true))
unfolding aligned
aligned_tests a b h = ground arith

aligned_sound :
    (a b : Text)
    → aligned a b false ≡ true
    → (is_empty a ≡ false) × (is_empty b ≡ false) × SameOrBelow a b
aligned_sound a b h =
    let (ea, eb, why) = aligned_tests a b h in
    (
      ea,
      eb,
      elim why [
        | inl same ↦ inl (eqb_sound a b same)
        | inr below ↦ elim below [
          | inl left ↦ inr (inl (has_suffix_sound a (b'.' ∷ b) left))
          | inr right ↦ inr (inr (has_suffix_sound b (b'.' ∷ a) right))
        ]
      ],
    )

aligned_complete :
    (a b : Text)
    → (is_empty a ≡ false) × (is_empty b ≡ false) × SameOrBelow a b
    → aligned a b false ≡ true
unfolding aligned
aligned_complete a b (ea, eb, why) = elim why [
  | inl same ↦ ground (arith, eqb_iff a b)
  | inr below ↦ elim below [
    | inl left ↦
        let s : has_suffix a (b'.' ∷ b) ≡ true = rw left.1 (has_suffix-append left.0 (b'.' ∷ b)) in
        ground arith
    | inr right ↦
        let s : has_suffix b (b'.' ∷ a) ≡ true =
          rw right.1 (has_suffix-append right.0 (b'.' ∷ a)) in
        ground arith
  ]
]

-- Two domains are aligned in relaxed mode exactly when, in lower case and without white space
-- around them, neither is empty and one is the other or a subdomain of it.
is_domain_aligned_iff :
    (a b : Text)
    → (is_domain_aligned a b false ≡ true)
      ↔ (is_empty (folded a) ≡ false)
        × (is_empty (folded b) ≡ false)
        × SameOrBelow (folded a) (folded b)
unfolding is_domain_aligned
is_domain_aligned_iff a b =
    (aligned_sound (folded a) (folded b), aligned_complete (folded a) (folded b))

longer : (a b t : Text) → length a ≡ length b → a ≡ t ++ b'.' ∷ b → ⊥
longer a b t same e = omega (arith, ap (λ (s : Text). length s) e, length-append t (b'.' ∷ b))

-- Two different domains of the same length are never aligned, so two hosts below one domain, such as
-- mx1.example.com and mx2.example.com, are not.
is_domain_aligned_siblings :
    (a b : Text)
    → length (folded a) ≡ length (folded b)
    → folded a ≢ folded b
    → is_domain_aligned a b false ≡ false
is_domain_aligned_siblings a b same differ = elim (Bool-cases (is_domain_aligned a b false)) [
  | inr no' ↦ no'
  | inl yes' ↦ absurd (elim ((is_domain_aligned_iff a b).0 yes').2 [
    | inl e ↦ differ e
    | inr below ↦ elim below [
      | inl left ↦ longer (folded a) (folded b) left.0 same left.1
      | inr right ↦ longer (folded b) (folded a) right.0 (sym same) right.1
    ]
  ])
]
