-- ===== src/Tls/Parsing.antt =====
-- The loop of `ParseCertificates` ends.
use opemail.Prelude.{
  ℕ, zero, suc, ◌≡◌, ◌≢◌, ◌<◌, refl, sym, ap, ◌∙◌, Bool, true, false, Option, none, some, List, [],
  ◌∷◌, length, inl, inr, arith, if◌then◌else◌, Bool-cases, Option-cases,
}
use mathlib.Core.Bool.{false≢true}
use mathlib.Core.Path.{subst}
use opemail.Text.{Text, codes, eqb}
use opemail.Exec.{Result, ok, err}
use opemail.Tls.Model.{TlsError, out_of_fuel, X509, Block, Library}
use opemail.Tls.Validation.{and_certificate, some_certificate, parse_blocks, parse_certificates}

-- what follows a block is shorter than the text
abbrev pub Shrinks : Library → Type 0
Shrinks lib =
    (pem : Text) (block : Block) (rest : Text)
    → lib.pem_decode pem ≡ some (block, rest)
    → length rest < length pem

-- any result but that of a loop without fuel
abbrev is_final : {A : Type 0} → Result TlsError A → Bool
is_final (ok a) = true
is_final (err out_of_fuel) = false
is_final (err e) = true

and_certificate-final :
    (c : Option X509) (r : Result TlsError (List X509))
    → is_final r ≡ true
    → is_final (and_certificate c r) ≡ true
and_certificate-final none r h = refl
and_certificate-final (some c) (ok cs) h = refl
and_certificate-final (some c) (err e) h = h

some_certificate-final :
    (r : Result TlsError (List X509)) → is_final r ≡ true → is_final (some_certificate r) ≡ true
some_certificate-final (ok []) h = refl
some_certificate-final (ok (c ∷ cs)) h = refl
some_certificate-final (err e) h = h

final-differs : {A : Type 0} (r : Result TlsError A) → is_final r ≡ true → r ≢ err out_of_fuel
final-differs r h e = false≢true (sym (ap is_final e) ∙ h)

-- one turn of the loop, given what the rest of the text gives
abbrev turn : Library → Block → Result TlsError (List X509) → Result TlsError (List X509)
turn lib block others =
    if eqb block.kind (codes "CERTIFICATE")
    then and_certificate (lib.parse_certificate block.bytes) others
    else others

turn-final :
    (lib : Library) (block : Block) (r : Result TlsError (List X509))
    → is_final r ≡ true
    → is_final (turn lib block r) ≡ true
turn-final lib block r h = elim (Bool-cases (eqb block.kind (codes "CERTIFICATE"))) [
  | inl y ↦
      let is : turn lib block r ≡ and_certificate (lib.parse_certificate block.bytes) r =
        rw y refl in
      subst (λ x. is_final x ≡ true) (sym is)
        (and_certificate-final (lib.parse_certificate block.bytes) r h)
  | inr y ↦ let is : turn lib block r ≡ r = rw y refl in subst (λ x. is_final x ≡ true) (sym is) h
]

module _ (lib : Library) where
  parse_blocks-end :
      (fuel : ℕ) (pem : Text) → lib.pem_decode pem ≡ none → parse_blocks lib (suc fuel) pem ≡ ok []
  unfolding parse_blocks
  parse_blocks-end fuel pem n = rw (parse_blocks, n) refl

  parse_blocks-turn :
      (fuel : ℕ) (pem : Text) (block : Block) (rest : Text)
      → lib.pem_decode pem ≡ some (block, rest)
      → parse_blocks lib (suc fuel) pem ≡ turn lib block (parse_blocks lib fuel rest)
  unfolding parse_blocks
  parse_blocks-turn fuel pem block rest n = rw (parse_blocks, n) refl

module _ (lib : Library) (shrinks : Shrinks lib) where
  -- with more fuel than the text is long the loop ends, and any other such fuel gives the same
  parse_blocks-enough :
      (fuel more : ℕ) (pem : Text)
      → length pem < fuel
      → length pem < more
      → (is_final (parse_blocks lib fuel pem) ≡ true)
        × (parse_blocks lib fuel pem ≡ parse_blocks lib more pem)
  parse_blocks-enough zero more pem h k = absurd (omega (arith, h))
  parse_blocks-enough (suc fuel) zero pem h k = absurd (omega (arith, k))
  parse_blocks-enough (suc fuel) (suc more) pem h k = elim (Option-cases (lib.pem_decode pem)) [
    | inl n ↦
        let here = parse_blocks-end lib fuel pem n in
        (
          subst (λ r. is_final r ≡ true) (sym here) refl,
          here ∙ sym (parse_blocks-end lib more pem n),
        )
    | inr ((block, rest), n) ↦
        let less = shrinks pem block rest n in
        let (final, same) =
          parse_blocks-enough fuel more rest (omega (arith, less, h)) (omega (arith, less, k)) in
        let here = parse_blocks-turn lib fuel pem block rest n in
        (
          subst (λ r. is_final r ≡ true) (sym here) (turn-final lib block _ final),
          here ∙ ap (turn lib block) same ∙ sym (parse_blocks-turn lib more pem block rest n),
        )
  ]

  -- While the decoder leaves less than it is given, `parse_certificates` never runs out of fuel, and the loop gives the
  -- same with any fuel above the length of the text.
  pub parse_certificates_ends :
      (pem : Text)
      → (parse_certificates lib pem ≢ err out_of_fuel)
        × ((fuel : ℕ)
            → length pem < fuel
            → some_certificate (parse_blocks lib fuel pem) ≡ parse_certificates lib pem)
  unfolding parse_certificates
  parse_certificates_ends pem = (
    final-differs (some_certificate (parse_blocks lib (suc (length pem)) pem)) (
        some_certificate-final (parse_blocks lib (suc (length pem)) pem)
          (parse_blocks-enough (suc (length pem)) (suc (length pem)) pem (omega arith)
            (omega arith)).0),
    λ fuel h.
        ap some_certificate (parse_blocks-enough fuel (suc (length pem)) pem h (omega arith)).1,
  )
