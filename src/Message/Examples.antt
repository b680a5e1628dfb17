-- ===== src/Message/Examples.antt =====
-- Two messages that share a blob, and an orphan; the hash of a text is forty times the digit `a`.
use opemail.Prelude.{ℕ, ◌≡◌, refl, false, some, [], ◌∷◌, ◌==◌}
use opemail.Text.{Text, codes}
use opemail.Exec.{ok, is_ok}
use opemail.Message.Blobs.{Disk, find_file}
use opemail.Message.Blobs.Refinement.{
  store, fetch, drop, stored, content, removed, missing, view, perform_all, Steps,
}
use opemail.Message.Blobs.Refinement.Runs.{perform_all-Steps}
use opemail.Message.Service.{Message, Rows, World, get_content, delete_by_id, garbage_collect}
use opemail.Message.Service.Sweep.{gc_keeps_referenced}
use opemail.Message.Service.Content.{shared_blob_lost}

abbrev digest : Text
digest = codes "aaaaaaaaaaaaaaaaaaaaaaaaaaaaaaaaaaaaaaaa"

abbrev orphan : Text
orphan = codes "bbbbbbbbbbbbbbbbbbbbbbbbbbbbbbbbbbbbbbbb"

abbrev message : ℕ → Message
message n = record {
  id = n;
  mailbox_id = 1;
  message_id = [];
  blob_id = digest;
  sender = [];
  subject = [];
  size_bytes = 2;
  received_at = 0;
  created_at = 0;
}

abbrev disk : Disk
disk = record {
  rows =
      record { id = orphan; content = codes "x" }
      ∷ record { id = digest; content = codes "hi" }
      ∷ [];
  down = λ n. false;
  statements = 0;
}

abbrev world : World
world = record {
  db = record {
    rows = record {
      directory = record { domains = []; mailboxes = []; aliases = [] };
      messages = message 1 ∷ message 2 ∷ [];
    };
    down = λ n. false;
    statements = 0;
  };
  disk = disk;
}

gc_keeps_referenced_example :
    find_file digest (garbage_collect false world).1.disk.rows ≡ some (codes "hi")
unfolding opemail.Message.Service.find_message find_file opemail.Text.eqb
gc_keeps_referenced_example = gc_keeps_referenced false world 2 (message 2) (codes "hi") refl refl

shared_blob_lost_example : is_ok (get_content 2 (delete_by_id 1 world).1).0 ≡ false
unfolding opemail.Message.Service.find_message delete_by_id opemail.Exec.◌>>=◌
    opemail.Message.Service.get_by_id opemail.Message.Service.delete_message
shared_blob_lost_example =
    shared_blob_lost 1 2 world (message 1) (message 2) refl refl refl refl refl

-- a second text with the same hash, whose rename fails
abbrev shaky : Disk
shaky = record disk { down = λ n. n == 2 }

perform_all-Steps_example :
    Steps
      (λ t. digest)
      shaky.down
      (view shaky.rows)
      ((store (codes "bye"), stored digest)
        ∷ (fetch digest, content (codes "hi"))
        ∷ (drop digest, removed)
        ∷ (fetch digest, missing)
        ∷ [])
      (view
        (perform_all
          (λ t. digest)
          (store (codes "bye") ∷ fetch digest ∷ drop digest ∷ fetch digest ∷ [])
          shaky).1.rows)
unfolding perform_all opemail.Exec.◌>>=◌
perform_all-Steps_example =
    perform_all-Steps (λ t. digest)
      (store (codes "bye") ∷ fetch digest ∷ drop digest ∷ fetch digest ∷ []) shaky
