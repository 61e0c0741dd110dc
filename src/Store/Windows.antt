-- ===== src/Store/Windows.antt =====
-- The statements of api/src/store.ts on the table `rate_limit_windows`.
use battle_cloud.Common.{
  ℕ, ◌+◌, ◌≡◌, refl, Bool, true, false, not, ◌&&◌, Option, none, some, List, [], ◌∷◌, arith, Text,
  text_eq, text_eq_iff, filter, ltb, ◌==◌, if◌then◌else◌,
}

pub record Window : Type 0 where
  pub client_key : Text
  pub window_start : ℕ
  pub count : ℕ

unfoldable pub is_at : Text → ℕ → Window → Bool
is_at key start w = text_eq w.client_key key && w.window_start == start

-- `consumeRateLimit`: the insert, its conflict clause, and whether a row came back.
unfoldable pub consume_rate_limit : Text → ℕ → ℕ → List Window → Bool × List Window
unfolding is_at
consume_rate_limit key start limit [] =
    (true, record { client_key = key; window_start = start; count = 1 } ∷ [])
consume_rate_limit key start limit (w ∷ windows) =
    let rest = consume_rate_limit key start limit windows in
    if is_at key start w
    then (if ltb w.count limit
        then (true, record w { count = w.count + 1 } ∷ windows)
        else (false, w ∷ windows))
    else (rest.0, w ∷ rest.1)

-- `sweepRateLimits`: the rows that stay.
unfoldable pub sweep_rate_limits : ℕ → List Window → List Window
sweep_rate_limits before windows = filter (λ w. not (ltb w.window_start before)) windows

-- The counter of a client in a window, if it has a row.
unfoldable pub counter : Text → ℕ → List Window → Option ℕ
unfolding is_at
counter key start [] = none
counter key start (w ∷ windows) =
    if is_at key start w then some w.count else counter key start windows

abbrev pub may_pass : ℕ → Option ℕ → Bool
may_pass limit none = true
may_pass limit (some count) = ltb count limit

abbrev pub counted : ℕ → Option ℕ → Option ℕ
counted limit none = some 1
counted limit (some count) = some (if ltb count limit then count + 1 else count)

pub consume_rate_limit-allowed :
    (key : Text) (start limit : ℕ) (windows : List Window)
    → (consume_rate_limit key start limit windows).0 ≡ may_pass limit (counter key start windows)
unfolding consume_rate_limit counter
consume_rate_limit-allowed key start limit [] = refl
consume_rate_limit-allowed key start limit (w ∷ windows) =
    ground (arith, consume_rate_limit-allowed key start limit windows)

pub counter-consume_rate_limit :
    (key : Text) (start limit : ℕ) (k : Text) (s : ℕ) (windows : List Window)
    → counter k s (consume_rate_limit key start limit windows).1 ≡ (
        if text_eq key k && start == s
        then counted limit (counter key start windows)
        else counter k s windows)
unfolding consume_rate_limit counter
counter-consume_rate_limit key start limit k s [] = ground arith
counter-consume_rate_limit key start limit k s (w ∷ windows) = ground (
  arith,
  counter-consume_rate_limit key start limit k s windows,
  text_eq_iff key k,
  text_eq_iff w.client_key key,
  text_eq_iff w.client_key k,
)

pub counter-sweep_rate_limits :
    (before : ℕ) (k : Text) (s : ℕ) (windows : List Window)
    → counter k s (sweep_rate_limits before windows)
      ≡ (if ltb s before then none else counter k s windows)
unfolding sweep_rate_limits counter
counter-sweep_rate_limits before k s [] = ground arith
counter-sweep_rate_limits before k s (w ∷ windows) =
    ground (arith, counter-sweep_rate_limits before k s windows)
