-- ===== src/Inbound/Examples.antt =====
-- One message and one record through the checks of inbound mail.
use opemail.Prelude.{ℕ, ◌≡◌, ◌⊎◌, refl, true, false, List, [], ◌∷◌, leb, ltb, arith}
use opemail.Text.{Text, codes, is_empty, folded, split}
use opemail.Database.{Db}
use opemail.Directory.Tables.{pos, Domain, Mailbox, Tables}
use opemail.Inbound.Model.{pass, none_status, unset, Scores, Evaluation}
use opemail.Inbound.Dmarc.{evaluate_dmarc}
use opemail.Inbound.Recipient.{verify_recipient}
use opemail.Inbound.Recipient.Lookup.{ActiveDomain, ReadyMailbox, verify_recipient_sound}
use opemail.Inbound.Verdict.{evaluate}
use opemail.Inbound.Verdict.Safety.{Passed, evaluate-Passed}
use opemail.Inbound.RateLimit.{RateLimitPolicy, new_rate_limiter}
use opemail.Inbound.RateLimit.Bound.{
  Event, connection, message, WithinPolicy, last_time, run, nobody, run_bounded,
}

abbrev home : Domain
home = record {
  id = 1;
  name = codes "b.id";
  status = codes "active";
  created_at = 0;
  updated_at = 0;
}

abbrev box : Mailbox
box = record {
  id = 2;
  domain_id = 1;
  email = codes "a@b.id";
  password_hash = codes "h";
  quota_bytes = pos 10;
  used_bytes = pos 0;
  status = codes "active";
  provisioning_status = codes "ready";
  identity_provider = codes "local";
  created_at = 0;
  updated_at = 0;
}

abbrev directory : Db Tables
directory = record {
  rows = record { domains = home ∷ []; mailboxes = box ∷ []; aliases = [] };
  down = λ n. false;
  statements = 0;
}

verify_recipient_sound_example :
    (local : Text) × (domain : Text) × (split (folded (codes " A@b.id")) b'@' ≡ local ∷ domain ∷ [])
    × ActiveDomain domain directory.rows
    × ReadyMailbox (folded (codes " A@b.id")) directory.rows
unfolding verify_recipient
verify_recipient_sound_example = verify_recipient_sound (codes " A@b.id") directory refl

abbrev scores : Scores
scores = record { Score = ℕ; positive = ltb 0; at_least = λ x y. leb y x }

abbrev letter : Evaluation ℕ
letter = record {
  header_from = codes "x@news.example";
  recipient = codes "a@b.id";
  message_size = 4000;
  spf = record { status = pass; domain = codes "news.example" };
  dkim = record { status = none_status; domain = []; selector = [] };
  dmarc = record {
    status = none_status;
    policy = codes "reject";
    spf_aligned = false;
    dkim_aligned = false;
    action = unset;
    reason = [];
  };
  spam_score = 1;
  spam_threshold = 6;
  reject_threshold = 15;
  is_spam = false;
  antivirus_clean = true;
  final_action = unset;
}

evaluate-Passed_example :
    Passed scores letter
    × ((is_empty letter.recipient ≡ true)
        ⊎ ((verify_recipient letter.recipient directory).0 ≡ true))
unfolding evaluate is_empty verify_recipient evaluate_dmarc
evaluate-Passed_example = evaluate-Passed scores letter directory refl refl

abbrev policy : RateLimitPolicy
policy = record {
  max_connections_per_ip = 1;
  max_messages_per_ip = 0;
  max_recipients_per_ip = 0;
  window = 5;
}

abbrev calls : List (ℕ × Event)
calls = (3, connection (codes "i")) ∷ (4, connection (codes "i")) ∷ (9, message (codes "i")) ∷ []

run_bounded_example :
    WithinPolicy
      (new_rate_limiter policy).policy
      (last_time 0 calls)
      (codes "i")
      (run calls (new_rate_limiter policy, nobody)).1
run_bounded_example =
    run_bounded policy calls (codes "i") (omega arith, (omega arith, (omega arith, tt)))
