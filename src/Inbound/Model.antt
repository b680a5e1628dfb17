-- ===== src/Inbound/Model.antt =====
-- internal/inbound/model.go. Spam scores and thresholds are `float64`: the type and its order are the
-- parameter `Scores` of the definitions that compare them.
use opemail.Prelude.{ℕ, Bool}
use opemail.Text.{Text}

pub data AuthStatus : Type 0 where
  pass fail soft_fail neutral none_status temp_error perm_error : AuthStatus

pub data SpamAction : Type 0 where
  unset deliver junk quarantine reject : SpamAction

pub record SpfVerification : Type 0 where
  pub status : AuthStatus
  pub domain : Text

pub record DkimVerification : Type 0 where
  pub status : AuthStatus
  pub domain : Text
  pub selector : Text

pub record DmarcVerification : Type 0 where
  pub status : AuthStatus
  pub policy : Text
  pub spf_aligned : Bool
  pub dkim_aligned : Bool
  pub action : SpamAction
  pub reason : Text

-- `float64` as the code uses it: `x > 0` and `x >= y`
pub record Scores : Type 1 where
  pub Score : Type 0
  pub positive : Score → Bool
  pub at_least : Score → Score → Bool

-- The evaluation of one message; what the code only prints is left out (host names, HELO).
pub record Evaluation (Score : Type 0) : Type 0 where
  pub header_from : Text
  pub recipient : Text
  pub message_size : ℕ
  pub spf : SpfVerification
  pub dkim : DkimVerification
  pub dmarc : DmarcVerification
  pub spam_score : Score
  pub spam_threshold : Score
  pub reject_threshold : Score
  pub is_spam : Bool
  pub antivirus_clean : Bool
  pub final_action : SpamAction

pub data InboundError : Type 0 where
  recipient_rejected message_oversized dmarc_rejected malware_detected spam_rejected : InboundError
