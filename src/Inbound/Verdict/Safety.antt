-- ===== src/Inbound/Verdict/Safety.antt =====
-- What a message that is delivered has passed, and when a message is refused.
use opemail.Prelude.{
  ◌≤◌, ◌≡◌, Bool, true, false, ◌⊎◌, inl, inr, Option, none, some, arith, Bool-cases,
}
use opemail.Text.{codes, is_empty, eqb}
use opemail.Database.{Db}
use opemail.Directory.Tables.{Tables}
use opemail.Inbound.Model.{SpamAction, deliver, junk, reject, Scores, Evaluation, InboundError}
use opemail.Inbound.Dmarc.{spf_aligned, dkim_aligned, policy_of, evaluate_dmarc}
use opemail.Inbound.Recipient.{verify_recipient}
use opemail.Inbound.Verdict.{max_message_size, reaches, judge, evaluate}

module _ (scores : Scores) where
  open scores use {Score}

  -- what a delivered message has passed
  pub record Passed (e : Evaluation Score) : Type 0 where
    pub clean : e.antivirus_clean ≡ true
    pub fits : e.message_size ≤ max_message_size
    pub below_reject : reaches scores e.spam_score e.reject_threshold ≡ false
    pub below_spam : reaches scores e.spam_score e.spam_threshold ≡ false
    pub authentic :
        (spf_aligned e.header_from e.spf ≡ true)
        ⊎ (dkim_aligned e.header_from e.dkim ≡ true)
        ⊎ ((eqb (policy_of e.dmarc.policy) (codes "reject") ≡ false)
            × (eqb (policy_of e.dmarc.policy) (codes "quarantine") ≡ false))

  judge-Passed : (e : Evaluation Score) → (judge scores e).0.final_action ≡ deliver → Passed e
  unfolding judge evaluate_dmarc
  judge-Passed e h = record {
    clean = ground arith;
    fits = ground arith;
    below_reject = ground arith;
    below_spam = ground arith;
    authentic = ground arith;
  }

  -- A message that is delivered, rather than refused, put into Junk or quarantined, was found clean and is not
  -- over the size limit, its score reaches neither threshold, it passes DMARC or its policy is
  -- neither reject nor quarantine, and its recipient, if one is named, was accepted.
  pub evaluate-Passed :
      (e : Evaluation Score) (s : Db Tables)
      → (evaluate scores e s).0.1 ≡ none
      → (evaluate scores e s).0.0.final_action ≡ deliver
      → Passed e × ((is_empty e.recipient ≡ true) ⊎ ((verify_recipient e.recipient s).0 ≡ true))
  unfolding evaluate
  evaluate-Passed e s accepted h = elim (Bool-cases (is_empty e.recipient)) [
    | inl nobody ↦ (judge-Passed e (ground arith), inl nobody)
    | inr named ↦ elim (Bool-cases (verify_recipient e.recipient s).0) [
      | inl found ↦ (judge-Passed e (ground arith), inr found)
      | inr unknown ↦ absurd (ground arith)
    ]
  ]

  abbrev pub is_refusal : SpamAction → Bool
  is_refusal reject = true
  is_refusal _ = false

  abbrev pub is_error : Option InboundError → Bool
  is_error none = false
  is_error (some x) = true

  -- Behind the check of the recipient, an error is returned exactly for the messages that are
  -- refused, and the fields that describe the message are left as they were.
  judge_exact :
      (e : Evaluation Score)
      → (is_error (judge scores e).1 ≡ is_refusal (judge scores e).0.final_action)
        × ((judge scores e).0.recipient ≡ e.recipient)
        × ((judge scores e).0.spf ≡ e.spf)
        × ((judge scores e).0.dkim ≡ e.dkim)
        × ((judge scores e).0.message_size ≡ e.message_size)
  unfolding judge evaluate_dmarc
  judge_exact e = (ground arith, ground arith, ground arith, ground arith, ground arith)

  -- A clean message of permitted size whose score reaches the spam threshold but not the reject
  -- threshold goes to Junk without an error, also where its DMARC policy asks for its rejection.
  junk_before_dmarc :
      (e : Evaluation Score)
      → e.antivirus_clean ≡ true
      → e.message_size ≤ max_message_size
      → reaches scores e.spam_score e.reject_threshold ≡ false
      → reaches scores e.spam_score e.spam_threshold ≡ true
      → ((judge scores e).0.final_action ≡ junk)
        × ((judge scores e).1 ≡ none)
        × ((judge scores e).0.dmarc ≡ evaluate_dmarc e.header_from e.spf e.dkim e.dmarc.policy)
  unfolding judge
  junk_before_dmarc e clean fits below spam = (ground arith, ground arith, ground arith)
