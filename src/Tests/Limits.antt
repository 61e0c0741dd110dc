-- ===== src/Tests/Limits.antt =====
-- The limiter.
use battle_cloud.Common.{
  ℕ, ◌≡◌, ◌<◌, ◌≤◌, ◌+◌, ◌*◌, ◌-◌, ◌/◌, min, refl, true, false, List, [], ◌∷◌, text_eq, arith,
  count_if,
}
use battle_cloud.Store.Windows.{consume_rate_limit}
use battle_cloud.RateLimit.{RateLimiter, window_start, retry_after_seconds}
use battle_cloud.RateLimit.Boundary.{retry_after_seconds_exact}
use battle_cloud.RateLimit.Fleet.{
  Call, Fleet, serve_all, fixed_window, IsOrdered, passed, same_slot,
}
use battle_cloud.RateLimit.Exact.{serve_all_exact, serve_all-passed}

abbrev fleet : Fleet
fleet = record { limit = 1; window_ms = 1000; last_sweep = λ i. 0; windows = [] }

abbrev call : ℕ → ℕ → Call
call i at = record { instance_id = i; key = b'k' ∷ []; at = at }

-- Two submissions in one window, at two instances, and one in the next.
abbrev calls : List Call
calls = call 0 10 ∷ call 1 20 ∷ call 0 1500 ∷ []

calls-IsOrdered : IsOrdered 0 calls
calls-IsOrdered = (omega arith, (omega arith, (omega arith, tt)))

serve_all_exact_example : serve_all fleet calls ≡ fixed_window 1 1000 [] calls
serve_all_exact_example =
    serve_all_exact fleet 0 calls (omega arith) (omega arith) refl calls-IsOrdered

serve_all-passed_example :
    passed 1000 (b'k' ∷ []) 0 calls (serve_all fleet calls)
    ≡ min 1 (count_if (same_slot 1000 (b'k' ∷ []) 0) calls)
serve_all-passed_example =
    serve_all-passed fleet 0 calls (b'k' ∷ []) 0 (omega arith) (omega arith) refl calls-IsOrdered

second_refused : serve_all fleet calls ≡ true ∷ false ∷ true ∷ []
unfolding serve_all consume_rate_limit text_eq window_start
second_refused = refl

abbrev hourly : RateLimiter
hourly = record { limit = 20; window_ms = 3600000; last_sweep = 0 }

retry_after_seconds_exact_example :
    (window_start 3600000 7 < window_start 3600000 (7 + 1000 * retry_after_seconds hourly 7))
    × (7 + 1000 * (retry_after_seconds hourly 7 - 1) < window_start 3600000 7 + 3600000)
    × (1 ≤ retry_after_seconds hourly 7)
    × (retry_after_seconds hourly 7 ≤ (3600000 + 999) / 1000)
retry_after_seconds_exact_example = retry_after_seconds_exact hourly 7 (omega arith)
