-- ===== src/Inbound/RateLimit/Bound.antt =====
-- No client gets more connections or messages in a window than the policy allows.
use opemail.Prelude.{
  ℕ, ◌≤◌, ◌≡◌, refl, ◌∙◌, Bool, true, false, List, [], ◌∷◌, ◌++◌, keep, length, leb, arith,
  Bool-cases, inl, inr,
}
use mathlib.Core.Path.{subst}
use opemail.Text.{Text, update}
use opemail.Window.{
  IsWindow, Tracks, Tracks-start, Tracks-later, Tracks-update-keep, Tracks-update-admit,
}
use opemail.Inbound.RateLimit.{
  RateLimitPolicy, RateLimiter, after_cutoff, new_rate_limiter, allow_connection, allow_message,
  record_auth_failure,
}

after_cutoff-IsWindow : (window : ℕ) → IsWindow (after_cutoff window)
after_cutoff-IsWindow window = record { shrinks = λ now later t le h. ground arith }

-- what can happen at the limiter
pub data Event : Type 0 where
  connection : Text → Event
  message : Text → Event
  auth_failure : Text → Event

-- the times at which the calls of each client were admitted
pub record Admitted : Type 0 where
  pub connections : Text → List ℕ
  pub messages : Text → List ℕ

abbrev note : Bool → ℕ → Text → (Text → List ℕ) → Text → List ℕ
note true now ip log = update log ip (log ip ++ now ∷ [])
note false now ip log = log

unfoldable pub step : ℕ → Event → RateLimiter × Admitted → RateLimiter × Admitted
step now (connection ip) (r, log) =
    let (r', allowed) = allow_connection now ip r in
    (r', record log { connections = note allowed now ip log.connections })
step now (message ip) (r, log) =
    let (r', allowed) = allow_message now ip r in
    (r', record log { messages = note allowed now ip log.messages })
step now (auth_failure ip) (r, log) = ((record_auth_failure ip r).0, log)

unfoldable pub run : List (ℕ × Event) → RateLimiter × Admitted → RateLimiter × Admitted
unfolding step
run [] s = s
run ((now, e) ∷ es) s = run es (step now e s)

-- the clock does not run backwards
abbrev pub Ascending : ℕ → List (ℕ × Event) → Type 0
Ascending start [] = Unit
Ascending start ((now, e) ∷ es) = (start ≤ now) × Ascending now es

abbrev pub last_time : ℕ → List (ℕ × Event) → ℕ
last_time start [] = start
last_time start ((now, e) ∷ es) = last_time now es

record Good (now : ℕ) (s : RateLimiter × Admitted) : Type 0 where
  connections :
      (ip : Text)
      → Tracks
          (after_cutoff s.0.policy.window)
          s.0.policy.max_connections_per_ip
          now
          (s.0.connections ip)
          (s.1.connections ip)
  messages :
      (ip : Text)
      → Tracks
          (after_cutoff s.0.policy.window)
          s.0.policy.max_messages_per_ip
          now
          (s.0.messages ip)
          (s.1.messages ip)

Good-later :
    {now : ℕ} (later : ℕ) (s : RateLimiter × Admitted) → now ≤ later → Good now s → Good later s
Good-later later (r, log) h g = record {
  connections =
      λ ip. Tracks-later _ (after_cutoff-IsWindow r.policy.window) _ later h (g.connections ip);
  messages = λ ip. Tracks-later _ (after_cutoff-IsWindow r.policy.window) _ later h (g.messages ip);
}

step-Good :
    (now : ℕ) (e : Event) (r : RateLimiter) (log : Admitted)
    → Good now (r, log)
    → Good now (step now e (r, log))
unfolding step allow_connection allow_message record_auth_failure
step-Good now (connection ip) r log g =
    let w = after_cutoff-IsWindow r.policy.window in
    elim (Bool-cases (
      leb r.policy.max_connections_per_ip
        (length (keep (after_cutoff r.policy.window now) (r.connections ip))))) [
          | inl full ↦ rw full (record {
            connections =
                λ j. Tracks-update-keep _ w _ r.connections log.connections ip j g.connections;
            messages = g.messages;
          })
          | inr room ↦ rw room (record {
            connections = λ j.
                Tracks-update-admit _ w _ r.connections log.connections ip j room g.connections;
            messages = g.messages;
          })
        ]
step-Good now (message ip) r log g =
    let w = after_cutoff-IsWindow r.policy.window in
    elim (Bool-cases (
      leb r.policy.max_messages_per_ip
        (length (keep (after_cutoff r.policy.window now) (r.messages ip))))) [
          | inl full ↦ rw full (record {
            connections = g.connections;
            messages = λ j. Tracks-update-keep _ w _ r.messages log.messages ip j g.messages;
          })
          | inr room ↦ rw room (record {
            connections = g.connections;
            messages = λ j. Tracks-update-admit _ w _ r.messages log.messages ip j room g.messages;
          })
        ]
step-Good now (auth_failure ip) r log g = record {
  connections = g.connections;
  messages = g.messages;
}

run-Good :
    (start : ℕ) (es : List (ℕ × Event)) (r : RateLimiter) (log : Admitted)
    → Ascending start es
    → Good start (r, log)
    → Good (last_time start es) (run es (r, log))
unfolding run
run-Good start [] r log h g = g
run-Good start ((now, e) ∷ es) r log (le, h) g =
    let (r', log') = step now e (r, log) in
    run-Good now es r' log' h (step-Good now e r log (Good-later now (r, log) le g))

step-policy :
    (now : ℕ) (e : Event) (r : RateLimiter) (log : Admitted)
    → (step now e (r, log)).0.policy ≡ r.policy
unfolding step allow_connection allow_message record_auth_failure
step-policy now (connection ip) r log = ground arith
step-policy now (message ip) r log = ground arith
step-policy now (auth_failure ip) r log = refl

run-policy :
    (es : List (ℕ × Event)) (r : RateLimiter) (log : Admitted)
    → (run es (r, log)).0.policy ≡ r.policy
unfolding run
run-policy [] r log = refl
run-policy ((now, e) ∷ es) r log =
    run-policy es (step now e (r, log)).0 (step now e (r, log)).1 ∙ step-policy now e r log

abbrev pub nobody : Admitted
nobody = record { connections = λ ip. []; messages = λ ip. [] }

-- the calls of a client that were admitted less than a window before `now`
abbrev pub recent : RateLimitPolicy → ℕ → List ℕ → List ℕ
recent p now admitted = keep (after_cutoff p.window now) admitted

abbrev pub WithinPolicy : RateLimitPolicy → ℕ → Text → Admitted → Type 0
WithinPolicy p now ip log =
    (length (recent p now (log.connections ip)) ≤ p.max_connections_per_ip)
    × (length (recent p now (log.messages ip)) ≤ p.max_messages_per_ip)

new-Good : (policy : RateLimitPolicy) → Good 0 (new_rate_limiter policy, nobody)
unfolding new_rate_limiter
new-Good policy = record {
  connections = λ ip. Tracks-start _ _ 0;
  messages = λ ip. Tracks-start _ _ 0;
}

-- From a new limiter, after any sequence of connections, messages and failed logins at times that do not
-- decrease, each client has been admitted to at most as many connections and at most as many messages within
-- the window before the last call as the policy, with its defaults, allows.
pub run_bounded :
    (policy : RateLimitPolicy) (es : List (ℕ × Event)) (ip : Text)
    → Ascending 0 es
    → WithinPolicy
        (new_rate_limiter policy).policy
        (last_time 0 es)
        ip
        (run es (new_rate_limiter policy, nobody)).1
run_bounded policy es ip h =
    let g = run-Good 0 es (new_rate_limiter policy) nobody h (new-Good policy) in
    let same = run-policy es (new_rate_limiter policy) nobody in
    subst (λ q. WithinPolicy q (last_time 0 es) ip (run es (new_rate_limiter policy, nobody)).1)
      same ((g.connections ip).within, (g.messages ip).within)
