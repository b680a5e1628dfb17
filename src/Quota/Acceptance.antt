-- ===== src/Quota/Acceptance.antt =====
-- When a message is accepted.
use opemail.Prelude.{
  ℕ, ◌+◌, ◌-◌, ◌%◌, ◌^◌, ◌≤◌, ◌<◌, ◌≡◌, refl, Bool, true, false, arith, if◌then◌else◌, ltb, ◌&&◌,
}
use opemail.Text.{Text, folded}
use opemail.Exec.{ok, err, when, pure, ◌>>=◌}
use opemail.Database.{Db}
use opemail.Directory.Tables.{pos, negsuc, Tables}
use opemail.Mailbox.Model.{Account}
use opemail.Mailbox.Repository.{get_by_email}
use opemail.Quota.{quota_exceeded, add, exceeds, is_over, get_quota, check_can_accept}

small : (n : ℕ) → n < 2 ^ 63 → n % 2 ^ 64 ≡ n
small n h = omega (arith, h)

-- within the range of an `int64` the sum is the sum
add-exact : (m n : ℕ) → m + n < 2 ^ 63 → add (pos m) (pos n) ≡ pos (m + n)
unfolding add
add-exact m n h =
    let sum : (m % 2 ^ 64 + n % 2 ^ 64) % 2 ^ 64 ≡ m + n = omega (arith, h) in
    let fits : ltb (m + n) (2 ^ 63) ≡ true = ground (arith, h) in rw (sum, fits) refl

-- beyond it the sum is negative
add-wraps :
    (m n : ℕ)
    → m < 2 ^ 63
    → n < 2 ^ 63
    → 2 ^ 63 ≤ m + n
    → add (pos m) (pos n) ≡ negsuc (2 ^ 64 - 1 - (m + n))
unfolding add
add-wraps m n hm hn h =
    let sum : (m % 2 ^ 64 + n % 2 ^ 64) % 2 ^ 64 ≡ m + n = omega (arith, hm, hn) in
    let past : ltb (m + n) (2 ^ 63) ≡ false = ground (arith, h) in rw (sum, past) refl

guarded :
    (b : Bool) (s : Db Tables)
    → ((when b quota_exceeded >>= λ _. pure true) s).0 ≡ (if b then err quota_exceeded else ok true)
unfolding ◌>>=◌
guarded true s = refl
guarded false s = refl

unguarded :
    (b : Bool) (s : Db Tables)
    → ((when (b && false) quota_exceeded >>= λ _. pure true) s).0 ≡ ok true
unfolding ◌>>=◌
unguarded true s = refl
unguarded false s = refl

module _ (email : Text) (s : Db Tables) (a : Account) (q u i : ℕ)
    (found : (get_by_email (folded email) s).0 ≡ ok a) (quota : a.mailbox.quota_bytes ≡ pos q)
    (used : a.mailbox.used_bytes ≡ pos u) where
  -- For a mailbox that is found, with a quota and a usage that are not negative: where usage and message together fit an
  -- `int64`, the message is refused exactly when there is a quota and the two together are more than it.
  pub accept_exact :
      u + i < 2 ^ 63
      → (check_can_accept email (pos i) s).0
        ≡ (if ltb 0 q && ltb q (u + i) then err quota_exceeded else ok true)
  unfolding check_can_accept get_quota is_over exceeds ◌>>=◌
  accept_exact h =
      rw found (rw (quota, used, add-exact u i h) (guarded (ltb 0 q && ltb q (u + i)) _))

  -- For a mailbox that is found, with a quota and a usage that are not negative: where usage and message each fit an
  -- `int64` and their sum does not, the message is accepted, whatever the quota.
  accept_wraps :
      u < 2 ^ 63 → i < 2 ^ 63 → 2 ^ 63 ≤ u + i → (check_can_accept email (pos i) s).0 ≡ ok true
  unfolding check_can_accept get_quota is_over exceeds ◌>>=◌
  accept_wraps hu hi h = rw found (rw (quota, used, add-wraps u i hu hi h) (unguarded (ltb 0 q) _))
