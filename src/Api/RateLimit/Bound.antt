-- ===== src/Api/RateLimit/Bound.antt =====
-- No client has more requests passed on in a window than the limit, whenever the eviction runs.
use mathlib.Core.Path.{subst}
use opemail.Prelude.{
  ℕ, ◌≤◌, ◌≡◌, refl, ◌∙◌, Bool, true, false, List, [], ◌∷◌, ◌++◌, keep, length, leb, arith,
  Bool-cases, inl, inr,
}
use opemail.Text.{Text, update}
use opemail.Window.{
  IsWindow, Tracks, Tracks-start, Tracks-later, Tracks-keep, Tracks-update-admit, later-keep,
}
use opemail.Api.RateLimit.{RateLimiter, in_window, evict, serve}

in_window-IsWindow : (window : ℕ) → IsWindow (in_window window)
in_window-IsWindow window = record { shrinks = λ now later t le h. ground arith }

pub data Event : Type 0 where
  request : Text → Event
  eviction : Event

-- the times of the requests that were passed on, for each client
abbrev pub Log : Type 0
Log = Text → List ℕ

abbrev note : Bool → ℕ → Text → Log → Log
note true now key log = update log key (log key ++ now ∷ [])
note false now key log = log

unfoldable pub step : ℕ → Event → RateLimiter × Log → RateLimiter × Log
step now (request key) (rl, log) =
    let (rl', passed) = serve now key rl in (rl', note passed now key log)
step now eviction (rl, log) = (evict now rl, log)

unfoldable pub run : List (ℕ × Event) → RateLimiter × Log → RateLimiter × Log
unfolding step
run [] s = s
run ((now, e) ∷ es) s = run es (step now e s)

abbrev pub Ascending : ℕ → List (ℕ × Event) → Type 0
Ascending start [] = Unit
Ascending start ((now, e) ∷ es) = (start ≤ now) × Ascending now es

abbrev pub last_time : ℕ → List (ℕ × Event) → ℕ
last_time start [] = start
last_time start ((now, e) ∷ es) = last_time now es

abbrev Good : ℕ → RateLimiter → Log → Type 0
Good now rl log = (k : Text) → Tracks (in_window rl.window) rl.limit now (rl.requests k) (log k)

step-Good :
    (now : ℕ) (e : Event) (rl : RateLimiter) (log : Log)
    → Good now rl log
    → Good now (step now e (rl, log)).0 (step now e (rl, log)).1
unfolding step serve evict
step-Good now (request key) rl log g =
    let w = in_window-IsWindow rl.window in
    elim (Bool-cases (leb rl.limit (length (keep (in_window rl.window now) (rl.requests key))))) [
      | inl full ↦ rw full g
      | inr room ↦ rw room (λ j. Tracks-update-admit _ w _ rl.requests log key j room g)
    ]
step-Good now eviction rl log g =
    λ k. Tracks-keep (in_window rl.window) (in_window-IsWindow rl.window) rl.limit (g k)

run-Good :
    (start : ℕ) (es : List (ℕ × Event)) (rl : RateLimiter) (log : Log)
    → Ascending start es
    → Good start rl log
    → Good (last_time start es) (run es (rl, log)).0 (run es (rl, log)).1
unfolding run
run-Good start [] rl log h g = g
run-Good start ((now, e) ∷ es) rl log (le, h) g =
    let (rl', log') = step now e (rl, log) in
    run-Good now es rl' log' h
      (step-Good now e rl log (λ k. Tracks-later _ (in_window-IsWindow rl.window) _ now le (g k)))

-- the configuration of the limiter
abbrev settings : RateLimiter → ℕ × ℕ
settings rl = (rl.limit, rl.window)

step-settings :
    (now : ℕ) (e : Event) (rl : RateLimiter) (log : Log)
    → settings (step now e (rl, log)).0 ≡ settings rl
unfolding step serve evict
step-settings now (request key) rl log = ground arith
step-settings now eviction rl log = refl

run-settings :
    (es : List (ℕ × Event)) (rl : RateLimiter) (log : Log)
    → settings (run es (rl, log)).0 ≡ settings rl
unfolding run
run-settings [] rl log = refl
run-settings ((now, e) ∷ es) rl log =
    let (rl', log') = step now e (rl, log) in run-settings es rl' log' ∙ step-settings now e rl log

abbrev pub fresh_limiter : ℕ → ℕ → RateLimiter
fresh_limiter limit window = record { requests = λ k. []; limit = limit; window = window }

-- From an empty limiter, after any sequence of requests and evictions at times that do not
-- decrease, each client has had at most `limit` requests passed on within the window before the last event.
pub requests_bounded :
    (limit window : ℕ) (es : List (ℕ × Event)) (key : Text)
    → Ascending 0 es
    → length (
        keep
          (in_window window (last_time 0 es))
          ((run es (fresh_limiter limit window, λ k. [])).1 key))
      ≤ limit
requests_bounded limit window es key h =
    let g = run-Good 0 es (fresh_limiter limit window) (λ k. []) h (λ k. Tracks-start _ limit 0) in
    subst
      (λ (c : ℕ × ℕ).
        length (
          keep (in_window c.1 (last_time 0 es))
            ((run es (fresh_limiter limit window, λ k. [])).1 key))
        ≤ c.0)
      (run-settings es (fresh_limiter limit window) (λ k. [])) (g key).within

-- An eviction changes the outcome of no later request.
serve-evict :
    (now later : ℕ) (key : Text) (rl : RateLimiter)
    → now ≤ later
    → (serve later key (evict now rl)).1 ≡ (serve later key rl).1
unfolding serve evict
serve-evict now later key rl h =
    let w = in_window-IsWindow rl.window in
    rw (later-keep (in_window rl.window) w rl.limit now later (rl.requests key) h) (ground arith)
