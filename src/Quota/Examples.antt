-- ===== src/Quota/Examples.antt =====
-- A mailbox with a quota of ten bytes.
use opemail.Prelude.{◌≡◌, refl, false, [], ◌∷◌, arith}
use opemail.Text.{Text, codes}
use opemail.Exec.{err}
use opemail.Database.{Db}
use opemail.Directory.Tables.{pos, Domain, Mailbox, Tables}
use opemail.Mailbox.Model.{Account}
use opemail.Quota.{quota_exceeded, check_can_accept}
use opemail.Quota.Acceptance.{accept_exact}

abbrev domain : Domain
domain = record {
  id = 1;
  name = codes "b.id";
  status = codes "active";
  created_at = 0;
  updated_at = 0;
}

abbrev mailbox : Mailbox
mailbox = record {
  id = 3;
  domain_id = 1;
  email = codes "a@b.id";
  password_hash = codes "h";
  quota_bytes = pos 10;
  used_bytes = pos 6;
  status = codes "active";
  provisioning_status = codes "ready";
  identity_provider = codes "local";
  created_at = 0;
  updated_at = 0;
}

abbrev account : Account
account = record { mailbox = mailbox; domain_name = codes "b.id" }

abbrev tables : Db Tables
tables = record {
  rows = record { domains = domain ∷ []; mailboxes = mailbox ∷ []; aliases = [] };
  down = λ n. false;
  statements = 0;
}

accept_exact_example : (check_can_accept (codes "A@b.id") (pos 5) tables).0 ≡ err quota_exceeded
unfolding opemail.Mailbox.Repository.get_by_email opemail.Text.eqb opemail.Text.folded
accept_exact_example =
    accept_exact (codes "A@b.id") tables account 10 6 5 refl refl refl (ground arith)
