-- ===== src/Mailbox/Examples.antt =====
-- A mailbox that is created, used, suspended and deleted; the hash of a password is the password itself.
use opemail.Prelude.{ℕ, suc, ◌≡◌, refl, Bool, true, false, Option, some, List, [], ◌∷◌}
use opemail.Text.{Text, codes, eqb, canonical}
use opemail.Exec.{ok, is_ok}
use opemail.Directory.Tables.{pos, Domain, Mailbox, find_email}
use opemail.Mailbox.Model.{Provisioner, World, Account, active}
use opemail.Mailbox.Password.{Hashing, Argon2Params, verify_password}
use opemail.Mailbox.Password.RoundTrip.{IsFaithful, verify-hash_password}
use opemail.Mailbox.Service.{create, authenticate}
use opemail.Mailbox.Service.Accounts.{one_mailbox_per_address}
use opemail.Mailbox.Service.Login.{authenticate_sound}

abbrev parse : Text → Bool
parse e = true

abbrev hash : Text → Option Text
hash p = some p

-- the disk counts the maildirs that were made
abbrev maildirs : Provisioner ℕ
maildirs = record { provision = λ a n. (true, suc n); deprovision = λ a n. n }

abbrev home : Domain
home = record {
  id = 1;
  name = codes "b.id";
  status = codes "active";
  created_at = 0;
  updated_at = 0;
}

abbrev box : Mailbox
box = record {
  id = 2;
  domain_id = 1;
  email = codes "a@b.id";
  password_hash = codes "secret12";
  quota_bytes = pos 10;
  used_bytes = pos 0;
  status = codes "active";
  provisioning_status = codes "ready";
  identity_provider = codes "local";
  created_at = 0;
  updated_at = 0;
}

abbrev with_boxes : List Mailbox → World ℕ
with_boxes ms = record {
  db = record {
    rows = record { domains = home ∷ []; mailboxes = ms; aliases = [] };
    down = λ n. false;
    statements = 0;
  };
  disk = 0;
}

abbrev made : Account
made = record {
  mailbox = record box { id = 7; quota_bytes = pos 1073741824; created_at = 5; updated_at = 5 };
  domain_name = codes "b.id";
}

one_mailbox_per_address_example :
    let done =
      create parse hash eqb
        (some maildirs)
        5
        7
        (codes "A@B.id")
        (codes "secret12")
        (pos 9)
        (with_boxes (box ∷ [])) in
    (is_ok done.0 ≡ false)
    × (find_email (canonical (codes "A@B.id")) done.1.db.rows.mailboxes ≡ some box)
unfolding find_email eqb canonical
one_mailbox_per_address_example =
    one_mailbox_per_address parse hash eqb (some maildirs) 5 7 (codes "A@B.id") (codes "secret12")
      (pos 9) (with_boxes (box ∷ [])) box refl

authenticate_sound_example :
    (find_email (canonical (codes "A@B.id")) (with_boxes (box ∷ [])).db.rows.mailboxes ≡ some box)
    × (box.status ≡ active)
    × (eqb (codes "secret12") box.password_hash ≡ true)
unfolding authenticate opemail.Exec.◌>>=◌ opemail.Mailbox.Model.on_db
    opemail.Mailbox.Repository.get_by_email
authenticate_sound_example =
    authenticate_sound parse hash eqb (some maildirs) (codes "A@B.id") (codes "secret12")
      (with_boxes (box ∷ [])) (record { mailbox = box; domain_name = codes "b.id" }) refl

-- one hash with a salt `s` and a key that is the password
abbrev lib : Hashing
lib = record {
  version = 19;
  id_key = λ pw salt t m par n. pw;
  encode = λ x. x;
  decode = some;
  decimal = λ n. codes "7";
  scan_version = λ x. some 19;
  scan_params = λ x. some (65536, 1, 4);
}

abbrev params : Argon2Params
params = record { memory = 65536; iterations = 1; parallelism = 4; key_length = 8 }

faithful : IsFaithful lib params (codes "s") (codes "secret12")
faithful = record {
  plain_version = refl;
  plain_params = refl;
  plain_salt = refl;
  plain_key = refl;
  scanned_version = refl;
  scanned_params = refl;
  decoded_salt = refl;
  decoded_key = refl;
  key_size = refl;
}

verify-hash_password_example :
    (verify_password lib (codes "secret12") (codes "$argon2id$v=7$m=7,t=7,p=7$s$secret12")
      ≡ ok true)
    × (verify_password lib (codes "Secret12") (codes "$argon2id$v=7$m=7,t=7,p=7$s$secret12")
        ≡ ok (eqb (codes "secret12") (codes "Secret12")))
unfolding opemail.Mailbox.Password.hash_password
verify-hash_password_example =
    verify-hash_password lib params (codes "secret12") (codes "s")
      (codes "$argon2id$v=7$m=7,t=7,p=7$s$secret12") (codes "Secret12") faithful refl
