-- ===== src/Inbound/Spf/FirstMatch.antt =====
-- The verdict of an SPF record is that of the first term that matches the client.
use opemail.Prelude.{
  ◌≡◌, refl, true, false, ◌⊎◌, inl, inr, List, [], ◌∷◌, ◌++◌, All, Bool-cases, ap,
}
use opemail.Text.{Text, codes, is_empty, trim_space, trim_quotes, has_prefix, fields}
use opemail.Inbound.Model.{AuthStatus, fail, neutral}
use opemail.Inbound.Spf.{
  Addresses, qualified, term_matches, result_of, evaluate_terms, after_version, evaluate_spf,
}

-- the mechanisms of a record
abbrev pub terms_of : Text → List Text
terms_of r = after_version (fields (trim_space (trim_quotes r)))

module _ (net : Addresses) where
  abbrev pub Missed : List Text → Type 0
  Missed = All (λ t. term_matches net t ≡ false)

  -- the first term that matches decides, and the terms behind it are not looked at
  pub record Decision (terms : List Text) (verdict : AuthStatus) : Type 0 where
    pub before : List Text
    pub term : Text
    pub after : List Text
    pub split : terms ≡ before ++ term ∷ after
    pub missed : Missed before
    pub hit : term_matches net term ≡ true
    pub decides : verdict ≡ result_of (qualified term).0

  evaluate_terms-append :
      (ts us : List Text) → Missed ts → evaluate_terms net (ts ++ us) ≡ evaluate_terms net us
  unfolding evaluate_terms
  evaluate_terms-append [] us h = refl
  evaluate_terms-append (t ∷ ts) us (m, h) = rw m (evaluate_terms-append ts us h)

  decide :
      (ts : List Text)
      → Decision ts (evaluate_terms net ts) ⊎ (Missed ts × (evaluate_terms net ts ≡ neutral))
  unfolding evaluate_terms
  decide [] = inr (tt, refl)
  decide (t ∷ ts) = elim (Bool-cases (term_matches net t)) [
    | inl hit ↦ inl (record {
      before = [];
      term = t;
      after = ts;
      split = refl;
      missed = tt;
      hit = hit;
      decides = rw hit;
    })
    | inr miss ↦ elim (decide ts) [
      | inl d ↦ inl (record {
        before = t ∷ d.before;
        term = d.term;
        after = d.after;
        split = ap (λ l. t ∷ l) d.split;
        missed = (miss, d.missed);
        hit = d.hit;
        decides = rw miss d.decides;
      })
      | inr (missed, e) ↦ inr ((miss, missed), rw miss e)
    ]
  ]

  -- For a record that is there and begins with the version, either some term is the first that
  -- matches and its qualifier is the verdict, or no term matches and the verdict is neutral.
  evaluate_spf-Decision :
      (r : Text)
      → is_empty r ≡ false
      → has_prefix (trim_space (trim_quotes r)) (codes "v=spf1") ≡ true
      → Decision (terms_of r) (evaluate_spf net r)
        ⊎ (Missed (terms_of r) × (evaluate_spf net r ≡ neutral))
  unfolding evaluate_spf
  evaluate_spf-Decision r some_text version = rw (some_text, version) (decide (terms_of r))

  -- A record that closes with `-all` fails every client that none of the terms before it matches.
  evaluate_spf_closed :
      (r : Text) (before after : List Text)
      → is_empty r ≡ false
      → has_prefix (trim_space (trim_quotes r)) (codes "v=spf1") ≡ true
      → terms_of r ≡ before ++ codes "-all" ∷ after
      → Missed before
      → evaluate_spf net r ≡ fail
  unfolding evaluate_spf
  evaluate_spf_closed r before after some_text version split missed =
      rw (some_text, version, split, evaluate_terms-append before (codes "-all" ∷ after) missed)
        (unfold evaluate_terms in refl)
