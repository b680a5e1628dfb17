-- ===== src/SmtpKey/Examples.antt =====
-- A key that is revoked, and calls after it.
use opemail.Prelude.{◌≡◌, refl, false, none, some, List, [], ◌∷◌}
use opemail.Text.{codes}
use opemail.Database.{Db}
use opemail.Directory.Tables.{Tables}
use opemail.SmtpKey.{revoked, Credential, Store}
use opemail.SmtpKey.Revocation.{
  find_credential, Operation, creation, revocation, run, revoked_for_good,
}

abbrev tables : Tables
tables = record {
  domains =
      record {
        id = 1;
        name = codes "b.id";
        status = codes "active";
        created_at = 0;
        updated_at = 0;
      }
      ∷ [];
  mailboxes = [];
  aliases = [];
}

abbrev old_key : Credential
old_key = record {
  key = record {
    id = 7;
    domain_id = 1;
    domain = codes "b.id";
    name = codes "otp";
    username = codes "mo_smtp_aa";
    status = revoked;
    created_at = 1;
    last_used_at = none;
    revoked_at = some 2;
  };
  secret_hash = codes "h";
}

abbrev store : Db Store
store = record {
  rows = record { directory = tables; credentials = old_key ∷ [] };
  down = λ n. false;
  statements = 0;
}

-- a key of the same name, a key under the same id, and the revocation of both
abbrev calls : List Operation
calls =
    creation 3 8 (codes "bb") (some (codes "r")) (codes "B.id") (codes " otp")
    ∷ creation 4 7 (codes "cc") (some (codes "r")) (codes "b.id") (codes "spare")
    ∷ revocation 5 (codes "b.id") 8
    ∷ revocation 6 (codes "b.id") 7
    ∷ []

revoked_for_good_example :
    find_credential 7 (run (λ p. some p) calls store).rows.credentials ≡ some old_key
unfolding find_credential
revoked_for_good_example = revoked_for_good (λ p. some p) calls store 7 old_key refl refl
