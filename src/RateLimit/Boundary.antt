-- ===== src/RateLimit/Boundary.antt =====
-- Where windows begin and end, and what `retryAfterSeconds` promises.
use native.Mathlib.Nat.{
  div-mul-le_self, lt-div-mul-add, le-div_iff_mul-le, le_trans, add-div_right, mul-div_left,
}
use battle_cloud.Common.{ℕ, ◌+◌, ◌-◌, ◌*◌, ◌/◌, ◌≤◌, ◌<◌, ◌≡◌, ap, ◌∙◌, arith}
use battle_cloud.RateLimit.{RateLimiter, window_start, retry_after_seconds}

-- A moment lies in its window.
pub window_start_bounds :
    (w at : ℕ) → 0 < w → (window_start w at ≤ at) × (at < window_start w at + w)
unfolding window_start
window_start_bounds w at h = (div-mul-le_self at w, lt-div-mul-add h)

-- Later moments lie in no earlier window.
pub window_start_mono : (w a b : ℕ) → 0 < w → a ≤ b → window_start w a ≤ window_start w b
unfolding window_start
window_start_mono w a b h k =
    let quotients : a / w ≤ b / w = (le-div_iff_mul-le h).1 (le_trans (div-mul-le_self a w) k) in
    grind arith

-- The end of a window is the start of the next.
window_start_next :
    (w at : ℕ) → 0 < w → window_start w (window_start w at + w) ≡ window_start w at + w
unfolding window_start
window_start_next w at h =
    let quotient : (at / w * w + w) / w ≡ at / w + 1 =
      add-div_right (at / w * w) h ∙ ap (λ q. q + 1) (mul-div_left (at / w) h) in
    rw quotient (grind arith)

abbrev round_up : ℕ → ℕ
round_up left = (left + 999) / 1000

module _ (l : RateLimiter) (at : ℕ) (h : 0 < l.window_ms) where
  -- For a positive window: after the advised number of seconds a later window is open, and one
  -- second earlier it is not;
  -- the advice is at least one second, and at most the length of a window rounded up to seconds.
  pub retry_after_seconds_exact :
      (window_start l.window_ms at
        < window_start l.window_ms (at + 1000 * retry_after_seconds l at))
      × (at + 1000 * (retry_after_seconds l at - 1) < window_start l.window_ms at + l.window_ms)
      × (1 ≤ retry_after_seconds l at)
      × (retry_after_seconds l at ≤ (l.window_ms + 999) / 1000)
  unfolding retry_after_seconds
  retry_after_seconds_exact =
      let (from, until) = window_start_bounds l.window_ms at h in
      let next = window_start_next l.window_ms at h in
      let reached : window_start l.window_ms at + l.window_ms
          ≤ at + 1000 * round_up (window_start l.window_ms at + l.window_ms - at) =
        omega arith in
      let mono = window_start_mono l.window_ms _ _ h reached in
      (omega arith, omega arith, omega arith, omega arith)
