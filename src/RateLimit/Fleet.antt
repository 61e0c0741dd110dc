-- ===== src/RateLimit/Fleet.antt =====
-- Several API instances over one table: each has a limiter of its own, and they share the rows.
use battle_cloud.Common.{
  ℕ, ◌+◌, ◌≤◌, Bool, ◌&&◌, List, [], ◌∷◌, Text, text_eq, count_if, ltb, ◌==◌, if◌then◌else◌,
}
use battle_cloud.Store.Windows.{Window}
use battle_cloud.RateLimit.{RateLimiter, window_start, try_consume}

-- A submission: the instance that serves it, the client's address and that instance's clock.
pub record Call : Type 0 where
  pub instance_id : ℕ
  pub key : Text
  pub at : ℕ

-- Every instance has the same limit and window; each remembers its own last sweep.
pub record Fleet : Type 0 where
  pub limit : ℕ
  pub window_ms : ℕ
  pub last_sweep : ℕ → ℕ
  pub windows : List Window

abbrev pub limiter_of : Fleet → ℕ → RateLimiter
limiter_of fleet i = record {
  limit = fleet.limit;
  window_ms = fleet.window_ms;
  last_sweep = fleet.last_sweep i;
}

-- One submission, served by its instance.
unfoldable pub serve : Fleet → Call → Bool × Fleet
unfolding try_consume
serve fleet c =
    let (allowed, rest) = try_consume (limiter_of fleet c.instance_id) c.key c.at fleet.windows in
    (
      allowed,
      record fleet {
        last_sweep = λ i. if i == c.instance_id then rest.0.last_sweep else fleet.last_sweep i;
        windows = rest.1;
      },
    )

-- The answers to a sequence of submissions, in the order in which the table sees them.
unfoldable pub serve_all : Fleet → List Call → List Bool
unfolding serve
serve_all fleet [] = []
serve_all fleet (c ∷ calls) =
    let (allowed, fleet') = serve fleet c in allowed ∷ serve_all fleet' calls

-- The specification: a submission passes when fewer than `limit` submissions of its client came
-- before it in its window.
abbrev pub same_slot : ℕ → Text → ℕ → Call → Bool
same_slot window_ms key start c = text_eq c.key key && window_start window_ms c.at == start

unfoldable pub fixed_window : ℕ → ℕ → List Call → List Call → List Bool
fixed_window limit window_ms earlier [] = []
fixed_window limit window_ms earlier (c ∷ calls) =
    ltb (count_if (same_slot window_ms c.key (window_start window_ms c.at)) earlier) limit
    ∷ fixed_window limit window_ms (c ∷ earlier) calls

-- Clocks that never step back between one submission and the next.
abbrev pub IsOrdered : ℕ → List Call → Type 0
IsOrdered now [] = Unit
IsOrdered now (c ∷ calls) = (now ≤ c.at) × IsOrdered c.at calls

-- How many submissions of one client in one window were let through.
abbrev pub passed : ℕ → Text → ℕ → List Call → List Bool → ℕ
passed window_ms key start (c ∷ calls) (allowed ∷ answers) =
    (if same_slot window_ms key start c && allowed then 1 else 0)
    + passed window_ms key start calls answers
passed window_ms key start _ _ = 0
