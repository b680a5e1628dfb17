-- ===== src/Domains/Examples.antt =====
-- Two domains with a mailbox each.
use opemail.Prelude.{ℕ, ◌≡◌, refl, false, none, [], ◌∷◌, any, ◌==◌}
use opemail.Text.{Text, codes, canonical}
use opemail.Exec.{is_ok}
use opemail.Database.{Db}
use opemail.Directory.Tables.{pos, Domain, Mailbox, Tables, find_name}
use opemail.Domains.Service.{delete}
use opemail.Domains.Service.Deletion.{delete_cascades}

abbrev domain : ℕ → Text → Domain
domain i n = record { id = i; name = n; status = codes "active"; created_at = 0; updated_at = 0 }

abbrev mailbox : ℕ → ℕ → Text → Mailbox
mailbox i d e = record {
  id = i;
  domain_id = d;
  email = e;
  password_hash = codes "h";
  quota_bytes = pos 10;
  used_bytes = pos 0;
  status = codes "active";
  provisioning_status = codes "ready";
  identity_provider = codes "local";
  created_at = 0;
  updated_at = 0;
}

abbrev tables : Db Tables
tables = record {
  rows = record {
    domains = domain 1 (codes "b.id") ∷ domain 2 (codes "c.id") ∷ [];
    mailboxes = mailbox 3 1 (codes "a@b.id") ∷ mailbox 4 2 (codes "a@c.id") ∷ [];
    aliases =
        record {
          id = 5;
          domain_id = 1;
          source = codes "x@b.id";
          destination = codes "a@b.id";
          created_at = 0;
        }
        ∷ [];
  };
  down = λ n. false;
  statements = 0;
}

delete_cascades_example :
    (find_name (canonical (codes " B.id")) (delete (codes " B.id") tables).1.rows.domains ≡ none)
    × (any (λ m. m.domain_id == 1) (delete (codes " B.id") tables).1.rows.mailboxes ≡ false)
    × (any (λ a. a.domain_id == 1) (delete (codes " B.id") tables).1.rows.aliases ≡ false)
unfolding find_name opemail.Text.eqb canonical delete opemail.Exec.◌>>=◌
    opemail.Domains.Repository.delete_row
delete_cascades_example = delete_cascades (codes " B.id") tables (domain 1 (codes "b.id")) refl refl
