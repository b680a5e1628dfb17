-- ===== src/Api/RateLimit.antt =====
-- internal/api/middleware/rate_limit.go. Each critical section is one step; `evict` is a round of the
-- background goroutine, which may run between any two requests.
pub mod Bound
use opemail.Prelude.{
  ℕ, ◌-◌, Bool, true, false, Option, none, some, List, [], ◌∷◌, ◌++◌, keep, length, leb,
  if◌then◌else◌,
}
use opemail.Text.{Text, codes, eqb, is_empty, trim_space, split, update}

pub record RateLimiter : Type 0 where
  pub requests : Text → List ℕ
  pub limit : ℕ
  pub window : ℕ

-- `now.Sub(t) <= window`
abbrev pub in_window : ℕ → ℕ → ℕ → Bool
in_window window now t = leb (now - t) window

-- one round of the eviction: a key that is left with no stamp is deleted
unfoldable pub evict : ℕ → RateLimiter → RateLimiter
evict now rl = record rl { requests = λ k. keep (in_window rl.window now) (rl.requests k) }

-- the handler: `true` if the request is passed on, and a refused request is not recorded
unfoldable pub serve : ℕ → Text → RateLimiter → RateLimiter × Bool
unfolding eqb
serve now key rl =
    let active = keep (in_window rl.window now) (rl.requests key) in
    if leb rl.limit (length active)
    then (rl, false)
    else (record rl { requests = update rl.requests key (active ++ now ∷ []) }, true)

abbrev pub first_part : List Text → Text
first_part [] = []
first_part (p ∷ ps) = p

-- the address: `host` is the result of `net.SplitHostPort` on the remote address
abbrev pub address : Option Text → Text → Text → Text
address host remote forwarded =
    if is_empty forwarded
    then elim host [ none ↦ remote | some h ↦ h ]
    else trim_space (first_part (split forwarded b','))

-- `extractClientKey`, for the e-mail of the claims, if there are any
unfoldable pub client_key : Option Text → Option Text → Text → Text → Text
unfolding is_empty trim_space split
client_key none host remote forwarded = codes "ip:" ++ address host remote forwarded
client_key (some email) host remote forwarded =
    if is_empty email then codes "ip:" ++ address host remote forwarded else codes "user:" ++ email
