-- ===== src/Dkim/Policy/Fallback.antt =====
-- What setting one policy does to the rest of the row.
use opemail.Prelude.{
  ◌+◌, ◌≡◌, refl, sym, ap, ◌∙◌, ℕ, true, false, some, inl, inr, List, [], Option-cases, ==_refl,
}
use mathlib.Core.Path.{subst}
use opemail.Text.{Text, codes}
use opemail.Exec.{ok, ◌>>=◌}
use opemail.Database.{Db, IsUp}
use opemail.Directory.Tables.{Domain, find_name, find_domain}
use opemail.Domains.Repository.{get_by_name}
use opemail.Dkim.Model.{Policy, World}
use opemail.Dkim.Repository.{
  find_policy, put_policy, upserted, domain_exists, joined_policy, get_policy_row, upsert_policy,
}
use opemail.Dkim.Keys.{domain_of}
use opemail.Dkim.Policy.{Env, bare_policy, get_policy, set_spf_policy}

find-put :
    (now : ℕ) (p : Policy) (ps : List Policy)
    → find_policy p.domain_id (put_policy now p ps)
      ≡ some (upserted now p (find_policy p.domain_id ps))
unfolding find_policy put_policy
find-put now p ps = elim (Option-cases (find_policy p.domain_id ps)) [
  | inl e ↦ rw e (rw (==_refl p.domain_id) refl)
  | inr (q, e) ↦ rw e (rw (==_refl p.domain_id) refl)
]

domain_exists-found :
    (w : World) (d : Domain)
    → find_domain d.id w.directory.domains ≡ some d
    → domain_exists d.id w ≡ true
unfolding domain_exists
domain_exists-found w d h = rw (domain_exists, h) refl

joined_policy-found :
    (w : World) (d : Domain) (p : Policy)
    → find_policy d.id w.policies ≡ some p
    → find_domain d.id w.directory.domains ≡ some d
    → joined_policy w d.id ≡ some (record p { domain = d.name })
unfolding joined_policy
joined_policy-found w d p h k = rw (joined_policy, h) (rw k refl)

module _ (now : ℕ) (e : Env) (name spf : Text) (s : Db World) (d : Domain) where
  -- While no call fails, `set_spf_policy` on a domain that has a policy changes its SPF policy and the time of its
  -- update, and nothing else of the row.
  set_spf_exact :
      (p : Policy)
      → IsUp s
      → find_name name s.rows.directory.domains ≡ some d
      → find_domain d.id s.rows.directory.domains ≡ some d
      → find_policy d.id s.rows.policies ≡ some p
      → p.domain_id ≡ d.id
      → ((set_spf_policy now e name spf s).0 ≡ ok tt)
        × (find_policy d.id (set_spf_policy now e name spf s).1.rows.policies
            ≡ some (record p { domain = d.name; spf_policy = spf; updated_at = now }))
  unfolding set_spf_policy get_policy domain_of get_by_name get_policy_row upsert_policy ◌>>=◌
  set_spf_exact p up by_name by_id here own =
      rw (up s.statements, by_name)
        (rw (up (s.statements + 1), by_name)
          (rw (up (s.statements + 1 + 1), joined_policy-found s.rows d p here by_id)
            (rw (up (s.statements + 1 + 1 + 1)) (rw (exists) (refl, put)))))
    where
      exists : domain_exists p.domain_id s.rows ≡ true
      exists = rw own (domain_exists-found s.rows d by_id)

      put :
          find_policy d.id
            (put_policy now (record p { domain = d.name; spf_policy = spf }) s.rows.policies)
          ≡ some (record p { domain = d.name; spf_policy = spf; updated_at = now })
      put =
          let q = record p { domain = d.name; spf_policy = spf } in
          let old = subst (λ i. find_policy i s.rows.policies ≡ some p) (sym own) here in
          subst
            (λ i.
              find_policy i (put_policy now q s.rows.policies)
              ≡ some (record p { domain = d.name; spf_policy = spf; updated_at = now }))
            own (find-put now q s.rows.policies ∙ ap (λ o. some (upserted now q o)) old)

  -- A `set_spf_policy` whose read of the current policy fails still succeeds, and what it writes has the DMARC policy
  -- `p=none` and zero thresholds, whatever policy the domain had.
  set_spf_clobbers :
      s.down s.statements ≡ false
      → s.down (s.statements + 1) ≡ true
      → s.down (s.statements + 1 + 1) ≡ false
      → find_name name s.rows.directory.domains ≡ some d
      → find_domain d.id s.rows.directory.domains ≡ some d
      → ((set_spf_policy now e name spf s).0 ≡ ok tt)
        × (find_policy d.id (set_spf_policy now e name spf s).1.rows.policies
            ≡ some (
                upserted now
                  (bare_policy d.id [] spf (codes "v=DMARC1; p=none"))
                  (find_policy d.id s.rows.policies)))
  unfolding set_spf_policy get_policy domain_of get_by_name get_policy_row upsert_policy ◌>>=◌
  set_spf_clobbers up1 down2 up3 by_name by_id =
      rw (up1, by_name)
        (rw down2 (
          rw up3 (
            rw (domain_exists-found s.rows d by_id) (
              refl,
              find-put now (bare_policy d.id [] spf (codes "v=DMARC1; p=none")) s.rows.policies,
            ))))
