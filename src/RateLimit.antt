-- ===== src/RateLimit.antt =====
-- api/src/ratelimit.ts: the fixed-window submission limiter. Times are milliseconds, as natural
-- numbers; `at - lastSweep < windowMs` stands as `at < lastSweep + windowMs`.
pub mod Boundary
pub mod Fleet
pub mod Exact
use battle_cloud.Common.{ℕ, ◌+◌, ◌-◌, ◌*◌, ◌/◌, Bool, List, Text, ltb, if◌then◌else◌}
use battle_cloud.Store.Windows.{Window, consume_rate_limit, sweep_rate_limits}

pub record RateLimiter : Type 0 where
  pub limit : ℕ
  pub window_ms : ℕ
  pub last_sweep : ℕ

unfoldable pub window_start : ℕ → ℕ → ℕ
window_start window_ms at = at / window_ms * window_ms

-- `sweep`: the limiter and the table after it
unfoldable pub sweep : RateLimiter → ℕ → List Window → RateLimiter × List Window
sweep limiter at windows =
    if ltb at (limiter.last_sweep + limiter.window_ms) then (limiter, windows) else (
      record limiter { last_sweep = at },
      sweep_rate_limits (window_start limiter.window_ms at) windows,
    )

-- `tryConsume`: the answer, the limiter and the table
unfoldable pub try_consume :
    RateLimiter → Text → ℕ → List Window → Bool × (RateLimiter × List Window)
unfolding sweep
try_consume limiter key at windows =
    let (allowed, windows') =
      consume_rate_limit key (window_start limiter.window_ms at) limiter.limit windows in
    (allowed, sweep limiter at windows')

-- `retryAfterSeconds`; the division is rounded up, and the difference stops at 0 by itself.
unfoldable pub retry_after_seconds : RateLimiter → ℕ → ℕ
retry_after_seconds limiter at =
    (window_start limiter.window_ms at + limiter.window_ms - at + 999) / 1000
