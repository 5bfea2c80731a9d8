-- ===== src/Broker/Backoff.antt =====
-- internal/broker/backoff.go: exponential backoff with a cap. A time.Duration is an int64 of
-- nanoseconds, here the number below 2 ^ 64 that has its bits: the doubling wraps, and a number from
-- 2 ^ 63 on is a negative duration.
use sofar_hyd_diag.Prelude.{
  ℕ, zero, suc, Bool, ◌+◌, ◌%◌, ◌<◌, ◌*◌, ◌^◌, ◌≤◌, ◌≡◌, ap, ltb, if◌then◌else◌, min, arith,
}
use native.Mathlib.Nat.{pow-suc}

pub record Backoff : Type 0 where
  pub base : ℕ
  pub max : ℕ
  pub current : ℕ

-- `a > b` of two int64.
abbrev above : ℕ → ℕ → Bool
above a b = ltb ((b + 9223372036854775808) % 2 ^ 64) ((a + 9223372036854775808) % 2 ^ 64)

unfoldable pub new_backoff : ℕ → ℕ → Backoff
new_backoff base max_delay = record { base = base; max = max_delay; current = base }

-- The delay to wait now, and the backoff after the call.
unfoldable pub next : Backoff → ℕ × Backoff
next b =
    let doubled = b.current * 2 % 2 ^ 64 in
    (b.current, record b { current = if above doubled b.max then b.max else doubled })

unfoldable pub reset : Backoff → Backoff
reset b = record b { current = b.base }

-- The backoff after n calls of `next`.
abbrev pub after_calls : ℕ → Backoff → Backoff
after_calls zero b = b
after_calls (suc n) b = (next (after_calls n b)).1

after_calls-fields :
    (n : ℕ) (b : Backoff) → ((after_calls n b).base ≡ b.base) × ((after_calls n b).max ≡ b.max)
unfolding next
after_calls-fields zero b = ground arith
after_calls-fields (suc n) b = after_calls-fields n b

after_calls-current :
    (n base max_delay : ℕ)
    → base ≤ max_delay
    → max_delay < 2 ^ 62
    → (after_calls n (new_backoff base max_delay)).current ≡ min (base * 2 ^ n) max_delay
unfolding next new_backoff
after_calls-current zero base m h below = omega arith
after_calls-current (suc n) base m h below = ground (
  arith,
  after_calls-current n base m h below,
  (after_calls-fields n (new_backoff base m)).1,
  ap (λ (t : ℕ). base * t) (pow-suc 2 n),
)

-- While the base is at most the cap, and the cap below 2 ^ 62 ns (some 146 years), the delay handed
-- out by the (n + 1)-th call after a reset is base * 2 ^ n, or the cap where that is less.
pub next-after_reset :
    (n : ℕ) (b : Backoff)
    → b.base ≤ b.max
    → b.max < 2 ^ 62
    → (next (after_calls n (reset b))).0 ≡ min (b.base * 2 ^ n) b.max
unfolding next reset new_backoff
next-after_reset n b h below = after_calls-current n b.base b.max h below
