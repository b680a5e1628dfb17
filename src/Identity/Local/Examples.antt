-- ===== src/Identity/Local/Examples.antt =====
-- Ana's local account: she changes her password and logs in through the service. A key is the password itself.
use opemail.Prelude.{ℕ, ◌≡◌, refl, false, none, some, List, [], ◌∷◌}
use opemail.Text.{Text, codes}
use opemail.Exec.{ok}
use opemail.Database.{Db}
use opemail.Directory.Tables.{pos, Mailbox, Tables}
use opemail.Mailbox.Model.{Account}
use opemail.Mailbox.Password.{Hashing}
use opemail.Mailbox.Password.RoundTrip.{IsFaithful}
use opemail.Identity.Service.{Provider, Identity}
use opemail.Identity.Local.{default_params, identity_of, local, authenticate, set_password}
use opemail.Identity.Local.Login.{Verified, local_login-Verified}
use opemail.Identity.Local.Change.{new_password_admits}

abbrev lib : Hashing
lib = record {
  version = 19;
  id_key = λ pw salt t m par n. pw;
  encode = λ x. x;
  decode = some;
  decimal = λ n. codes "7";
  scan_version = λ x. some 19;
  scan_params = λ x. some (65536, 1, 4);
}

abbrev id_text : ℕ → Text
id_text n = codes "id"

abbrev password : Text
password = codes "a-password-of-thirty-two-letters"

abbrev ana : Account
ana = record {
  mailbox = record {
    id = 2;
    domain_id = 1;
    email = codes "ana@b.id";
    password_hash = codes "$argon2id$v=7$m=7,t=7,p=7$s$secret";
    quota_bytes = pos 10;
    used_bytes = pos 0;
    status = codes "active";
    provisioning_status = codes "ready";
    identity_provider = codes "local";
    created_at = 0;
    updated_at = 0;
  };
  domain_name = codes "b.id";
}

abbrev tables : Db Tables
tables = record {
  rows = record {
    domains =
        record {
          id = 1;
          name = codes "b.id";
          status = codes "active";
          created_at = 0;
          updated_at = 0;
        }
        ∷ [];
    mailboxes = ana.mailbox ∷ [];
    aliases = [];
  };
  down = λ n. false;
  statements = 0;
}

abbrev providers : List (Text × Provider)
providers = (codes "local", local lib id_text 5 none) ∷ []

local_login-Verified_example :
    Verified lib id_text
      (codes "secret")
      ana.mailbox
      (identity_of lib id_text (codes "active") ana.mailbox)
unfolding opemail.Text.is_empty opemail.Identity.Service.registered
    opemail.Mailbox.Repository.get_by_email opemail.Text.canonical
    opemail.Identity.Service.authenticate opemail.Exec.◌>>=◌
    opemail.Identity.Service.choose_provider opemail.Identity.Service.get_provider authenticate
local_login-Verified_example =
    local_login-Verified lib id_text (codes "local") providers 5 none (codes " Ana@b.id")
      (codes "secret") tables ana (identity_of lib id_text (codes "active") ana.mailbox) refl refl
      refl refl refl

faithful : IsFaithful lib default_params (codes "s") password
faithful = record {
  plain_version = refl;
  plain_params = refl;
  plain_salt = refl;
  plain_key = refl;
  scanned_version = refl;
  scanned_params = refl;
  decoded_salt = refl;
  decoded_key = refl;
  key_size = refl;
}

abbrev later : Db Tables
later = record {
  rows = (set_password lib 5 (some (codes "s")) (codes "ana@b.id") password tables).1.rows;
  down = λ n. false;
  statements = 0;
}

new_password_admits_example :
    (authenticate lib id_text (codes "ana@b.id") password later).0
    ≡ ok (identity_of lib id_text (codes "active") ana.mailbox)
unfolding opemail.Text.is_empty opemail.Text.canonical opemail.Directory.Tables.find_email
    opemail.Text.eqb opemail.Identity.Local.closed set_password opemail.Exec.◌>>=◌
    opemail.Mailbox.Repository.update_password_hash
new_password_admits_example =
    new_password_admits lib id_text 5 (codes "s") (codes "ana@b.id") password tables later
      ana.mailbox faithful refl refl refl refl refl (λ n. refl)
