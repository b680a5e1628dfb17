-- ===== src/Identity/Examples.antt =====
-- A login of a mailbox that is assigned to the directory server.
use opemail.Prelude.{ℕ, ◌+◌, refl, false, true, none, some, List, [], ◌∷◌}
use opemail.Text.{codes, eqb}
use opemail.Database.{Db}
use opemail.Directory.Tables.{pos, Mailbox, Tables}
use opemail.Mailbox.Model.{Account, World}
use opemail.Identity.Service.{Identity}
use opemail.Identity.Sync.{Entry, SyncOptions, listing, sync}
use opemail.Identity.Sync.Standing.{Stands}
use opemail.Identity.Sync.Mailboxes.{mailboxes, local_accounts_spared}

abbrev ana : Identity
ana = record {
  id = codes "cn=ana";
  username = codes "ana";
  email = codes "ana@b.id";
  status = codes "active";
  provider_name = codes "ldap";
  roles = codes "user" ∷ [];
}

abbrev account : Account
account = record {
  mailbox = record {
    id = 2;
    domain_id = 1;
    email = codes "ana@b.id";
    password_hash = codes "h";
    quota_bytes = pos 10;
    used_bytes = pos 0;
    status = codes "active";
    provisioning_status = codes "ready";
    identity_provider = codes "ldap";
    created_at = 0;
    updated_at = 0;
  };
  domain_name = codes "b.id";
}

abbrev tables : Db Tables
tables = record {
  rows = record {
    domains =
        record {
          id = 1;
          name = codes "b.id";
          status = codes "active";
          created_at = 0;
          updated_at = 0;
        }
        ∷ [];
    mailboxes = account.mailbox ∷ [];
    aliases = [];
  };
  down = λ n. false;
  statements = 0;
}

-- a local account, which the directory claims
abbrev bob : Mailbox
bob = record account.mailbox { id = 3; email = codes "bob@b.id"; identity_provider = codes "local" }

abbrev claimed : World (Unit {0})
claimed = record {
  db = record tables { rows = record tables.rows { mailboxes = account.mailbox ∷ bob ∷ [] } };
  disk = tt;
}

-- a claim on the local account, a disabled account and a new one
abbrev claims : List Entry
claims =
    record { id = codes "cn=bob"; email = codes "Bob@b.id"; is_disabled = true }
    ∷ record { id = codes "cn=ana"; email = codes "ana@b.id"; is_disabled = true }
    ∷ record { id = codes "cn=eve"; email = codes "eve@b.id"; is_disabled = false }
    ∷ []

abbrev options : SyncOptions
options = record {
  domain_name = [];
  auto_create_mailbox = true;
  default_quota_bytes = pos 0;
  on_user_missing = codes "suspend";
  dry_run = false;
}

abbrev new_ids : ℕ → ℕ
new_ids k = 10 + k

abbrev after_sync : World (Unit {0})
after_sync =
    (sync 5 (λ k. codes "u") options (some (mailboxes (λ t. true) (λ p. some p) eqb none 5 new_ids))
      (some (listing (some claims))) claimed).1

local_accounts_spared_example : Stands bob after_sync.db.rows
unfolding opemail.Directory.Tables.find_email eqb
local_accounts_spared_example =
    local_accounts_spared (λ t. true) (λ p. some p) eqb none 5 new_ids (λ k. codes "u") options
      (some (listing (some claims))) bob claimed refl (record { here = refl; alone = refl })
