-- ===== src/Inbound/RateLimit.antt =====
-- internal/inbound/rate_limit.go. Times and durations are in nanoseconds; each method holds the mutex for its
-- whole body, so a run is a sequence of calls.
pub mod Bound
use opemail.Prelude.{
  ℕ, ◌+◌, ◌*◌, ◌^◌, Bool, true, false, List, [], ◌∷◌, ◌++◌, keep, length, ltb, leb, ◌==◌,
  if◌then◌else◌,
}
use opemail.Text.{Text, eqb, update}

pub record RateLimitPolicy : Type 0 where
  pub max_connections_per_ip : ℕ
  pub max_messages_per_ip : ℕ
  pub max_recipients_per_ip : ℕ
  pub window : ℕ

pub record RateLimiter : Type 0 where
  pub policy : RateLimitPolicy
  pub connections : Text → List ℕ
  pub messages : Text → List ℕ
  pub recipients : Text → ℕ
  pub auth_failures : Text → ℕ

abbrev pub or_default : ℕ → ℕ → ℕ
or_default default n = if n == 0 then default else n

-- `NewMemoryRateLimiter`
unfoldable pub new_rate_limiter : RateLimitPolicy → RateLimiter
new_rate_limiter p = record {
  policy = record {
    max_connections_per_ip = or_default 50 p.max_connections_per_ip;
    max_messages_per_ip = or_default 60 p.max_messages_per_ip;
    max_recipients_per_ip = or_default 100 p.max_recipients_per_ip;
    window = or_default (60 * 10 ^ 9) p.window;
  };
  connections = λ ip. [];
  messages = λ ip. [];
  recipients = λ ip. 0;
  auth_failures = λ ip. 0;
}

-- `t.After(now.Add(-window))`
abbrev pub after_cutoff : ℕ → ℕ → ℕ → Bool
after_cutoff window now t = ltb now (t + window)

unfoldable pub allow_connection : ℕ → Text → RateLimiter → RateLimiter × Bool
unfolding eqb
allow_connection now ip r =
    let valid = keep (after_cutoff r.policy.window now) (r.connections ip) in
    if leb r.policy.max_connections_per_ip (length valid)
    then (record r { connections = update r.connections ip valid }, false)
    else (record r { connections = update r.connections ip (valid ++ now ∷ []) }, true)

unfoldable pub allow_message : ℕ → Text → RateLimiter → RateLimiter × Bool
unfolding eqb
allow_message now ip r =
    let valid = keep (after_cutoff r.policy.window now) (r.messages ip) in
    if leb r.policy.max_messages_per_ip (length valid)
    then (record r { messages = update r.messages ip valid }, false)
    else (record r { messages = update r.messages ip (valid ++ now ∷ []) }, true)

unfoldable pub record_auth_failure : Text → RateLimiter → RateLimiter × ℕ
unfolding eqb
record_auth_failure ip r = (
  record r { auth_failures = update r.auth_failures ip (r.auth_failures ip + 1) },
  r.auth_failures ip + 1,
)
