-- ===== src/Inbound/Verdict.antt =====
-- `EvaluateInboundSecurity` of internal/inbound/policy.go and `Evaluate` of
-- internal/inbound/service.go, over any type of scores.
pub mod Safety
use opemail.Prelude.{
  ℕ, ◌≡◌, refl, Bool, true, false, not, ◌&&◌, Option, none, some, ltb, if◌then◌else◌,
}
use opemail.Text.{Text, is_empty}
use opemail.Database.{Db}
use opemail.Directory.Tables.{Tables}
use opemail.Inbound.Model.{
  SpamAction, deliver, junk, quarantine, reject, Scores, Evaluation, InboundError,
  recipient_rejected, message_oversized, dmarc_rejected, malware_detected, spam_rejected,
}
use opemail.Inbound.Dmarc.{evaluate_dmarc}
use opemail.Inbound.Recipient.{verify_recipient}

-- 25 MB
abbrev pub max_message_size : ℕ
max_message_size = 26214400

module _ (scores : Scores) where
  open scores use {Score, positive, at_least}

  -- the threshold is set and the score reaches it
  abbrev pub reaches : Score → Score → Bool
  reaches score threshold = positive threshold && at_least score threshold

  -- the last step, on the action that DMARC asks for
  abbrev pub by_dmarc : SpamAction → Evaluation Score → Evaluation Score × Option InboundError
  by_dmarc reject e = (record e { final_action = reject }, some dmarc_rejected)
  by_dmarc quarantine e = (record e { final_action = quarantine }, none)
  by_dmarc _ e = (record e { final_action = deliver }, none)

  unfoldable pub evaluate_inbound_security :
      Evaluation Score → Evaluation Score × Option InboundError
  evaluate_inbound_security e =
      if not e.antivirus_clean
      then (record e { final_action = reject }, some malware_detected)
      else if ltb max_message_size e.message_size
      then (record e { final_action = reject }, some message_oversized)
      else if reaches e.spam_score e.reject_threshold
      then (record e { final_action = reject; is_spam = true }, some spam_rejected)
      else if reaches e.spam_score e.spam_threshold
      then (record e { final_action = junk; is_spam = true }, none)
      else by_dmarc e.dmarc.action e

  -- the steps behind the check of the recipient
  unfoldable pub judge : Evaluation Score → Evaluation Score × Option InboundError
  unfolding evaluate_inbound_security
  judge e =
      evaluate_inbound_security
        (record e { dmarc = evaluate_dmarc e.header_from e.spf e.dkim e.dmarc.policy })

  abbrev pub judge_accepted : Bool → Evaluation Score → Evaluation Score × Option InboundError
  judge_accepted true e = judge e
  judge_accepted false e = (e, some recipient_rejected)

  unfoldable pub evaluate :
      Evaluation Score → Db Tables → (Evaluation Score × Option InboundError) × Db Tables
  unfolding judge
  evaluate e s =
      if is_empty e.recipient
      then (judge e, s)
      else (let (accepted, s') = verify_recipient e.recipient s in (judge_accepted accepted e, s'))
