-- ===== src/RateLimit/Exact.antt =====
-- The shared table gives the fixed-window policy exactly.
use Prim.Native.Nat.{min}
use battle_cloud.Common.{
  ℕ, ◌+◌, ◌≤◌, ◌<◌, ◌≡◌, refl, ap, ◌∙◌, true, Option, none, some, List, [], ◌∷◌, arith, Text,
  text_eq_iff, count_if, ltb, ◌==◌, if◌then◌else◌, Bool-cases, inl, inr,
}
use battle_cloud.Store.Windows.{
  Window, consume_rate_limit, counter, may_pass, counted, consume_rate_limit-allowed,
  counter-consume_rate_limit, counter-sweep_rate_limits,
}
use battle_cloud.RateLimit.{RateLimiter, window_start, sweep}
use battle_cloud.RateLimit.Boundary.{window_start_mono}
use battle_cloud.RateLimit.Fleet.{
  Call, Fleet, limiter_of, serve, serve_all, same_slot, fixed_window, IsOrdered, passed,
}

-- The counter that a number of submissions leaves.
abbrev expected : ℕ → ℕ → Option ℕ
expected limit n = if n == 0 then none else some (min n limit)

may_pass-expected : (limit n : ℕ) → 0 < limit → may_pass limit (expected limit n) ≡ ltb n limit
may_pass-expected limit n h = ground arith

counted-expected :
    (limit n : ℕ) → 0 < limit → counted limit (expected limit n) ≡ expected limit (n + 1)
counted-expected limit n h = ground arith

-- A sweep leaves the counters of the windows from the current one on.
counter-sweep :
    (l : RateLimiter) (at : ℕ) (k : Text) (s : ℕ) (windows : List Window)
    → window_start l.window_ms at ≤ s
    → counter k s (sweep l at windows).1 ≡ counter k s windows
unfolding sweep
counter-sweep l at k s windows h =
    ground (arith, counter-sweep_rate_limits (window_start l.window_ms at) k s windows)

-- The table holds what the earlier submissions leave, in every window that is not over at `now`.
pub record Agrees (f : Fleet) (now : ℕ) (earlier : List Call) : Type 0 where
  pub at_slot :
      (k : Text) (s : ℕ)
      → window_start f.window_ms now ≤ s
      → counter k s f.windows ≡ expected f.limit (count_if (same_slot f.window_ms k s) earlier)

serve_answer :
    (f : Fleet) (now : ℕ) (earlier : List Call) (c : Call)
    → 0 < f.limit
    → 0 < f.window_ms
    → now ≤ c.at
    → Agrees f now earlier
    → (serve f c).0
      ≡ ltb (count_if (same_slot f.window_ms c.key (window_start f.window_ms c.at)) earlier) f.limit
unfolding serve
serve_answer f now earlier c hl hw hn a =
    let start = window_start f.window_ms c.at in
    consume_rate_limit-allowed c.key start f.limit f.windows
    ∙ (ap (may_pass f.limit) (a.at_slot c.key start (window_start_mono f.window_ms now c.at hw hn))
        ∙ may_pass-expected f.limit _ hl)

slot_laws :
    (f : Fleet) (now : ℕ) (earlier : List Call) (c : Call) (k : Text) (s : ℕ)
    → 0 < f.limit
    → 0 < f.window_ms
    → now ≤ c.at
    → window_start f.window_ms c.at ≤ s
    → Agrees f now earlier
    → counter k s (consume_rate_limit c.key (window_start f.window_ms c.at) f.limit f.windows).1
      ≡ expected f.limit (count_if (same_slot f.window_ms k s) (c ∷ earlier))
slot_laws f now earlier c k s hl hw hn h a =
    let start = window_start f.window_ms c.at in
    let mono = window_start_mono f.window_ms now c.at hw hn in
    ground (
      arith,
      counter-consume_rate_limit c.key start f.limit k s f.windows,
      a.at_slot k s,
      a.at_slot c.key start,
      text_eq_iff c.key k,
      counted-expected f.limit (count_if (same_slot f.window_ms k s) earlier) hl,
    )

serve-Agrees :
    (f : Fleet) (now : ℕ) (earlier : List Call) (c : Call)
    → 0 < f.limit
    → 0 < f.window_ms
    → now ≤ c.at
    → Agrees f now earlier
    → Agrees (serve f c).1 c.at (c ∷ earlier)
unfolding serve
serve-Agrees f now earlier c hl hw hn a = record {
  at_slot = λ k s h.
      counter-sweep (limiter_of f c.instance_id) c.at k s _ h
      ∙ slot_laws f now earlier c k s hl hw hn h a;
}

serve_all_agree :
    (f : Fleet) (now : ℕ) (earlier calls : List Call)
    → 0 < f.limit
    → 0 < f.window_ms
    → IsOrdered now calls
    → Agrees f now earlier
    → serve_all f calls ≡ fixed_window f.limit f.window_ms earlier calls
unfolding serve_all fixed_window
serve_all_agree f now earlier [] hl hw o a = refl
serve_all_agree f now earlier (c ∷ calls) hl hw (hn, o) a = cc (
  serve_answer f now earlier c hl hw hn a,
  serve_all_agree (serve f c).1 c.at (c ∷ earlier) calls hl hw o
      (serve-Agrees f now earlier c hl hw hn a),
)

-- Over any sequence of submissions to any instances, from an empty table and with clocks that do
-- not step back, for a positive limit and window: a submission passes exactly when fewer than
-- `limit` submissions of its client came before it in its window, whatever was swept in between.
pub serve_all_exact :
    (f : Fleet) (now : ℕ) (calls : List Call)
    → 0 < f.limit
    → 0 < f.window_ms
    → f.windows ≡ []
    → IsOrdered now calls
    → serve_all f calls ≡ fixed_window f.limit f.window_ms [] calls
unfolding counter
serve_all_exact f now calls hl hw empty o =
    serve_all_agree f now [] calls hl hw o (record { at_slot = λ k s h. rw (empty, counter) })

slot_of_same :
    (window_ms : ℕ) (key : Text) (start : ℕ) (c : Call) (earlier : List Call)
    → same_slot window_ms key start c ≡ true
    → count_if (same_slot window_ms c.key (window_start window_ms c.at)) earlier
      ≡ count_if (same_slot window_ms key start) earlier
slot_of_same window_ms key start c earlier h =
    let keys : c.key ≡ key = (text_eq_iff c.key key).0 (ground arith) in
    let starts : window_start window_ms c.at ≡ start = ground arith in cc (keys, starts)

passed-fixed_window :
    (limit window_ms : ℕ) (key : Text) (start : ℕ) (earlier calls : List Call)
    → passed window_ms key start calls (fixed_window limit window_ms earlier calls)
        + min limit (count_if (same_slot window_ms key start) earlier)
      ≡ min limit (
          count_if (same_slot window_ms key start) earlier
          + count_if (same_slot window_ms key start) calls)
unfolding fixed_window
passed-fixed_window limit window_ms key start earlier [] = omega arith
passed-fixed_window limit window_ms key start earlier (c ∷ calls) =
    elim (Bool-cases (same_slot window_ms key start c)) [
      | inl e ↦ ground (
        arith,
        passed-fixed_window limit window_ms key start (c ∷ earlier) calls,
        slot_of_same window_ms key start c earlier e,
      )
      | inr e ↦ ground (arith, passed-fixed_window limit window_ms key start (c ∷ earlier) calls)
    ]

-- From an empty table, with clocks that do not step back and a positive limit and window: of any
-- sequence of submissions to any instances, those of one client that pass in one window are as
-- many as it made there, up to the limit.
pub serve_all-passed :
    (f : Fleet) (now : ℕ) (calls : List Call) (key : Text) (start : ℕ)
    → 0 < f.limit
    → 0 < f.window_ms
    → f.windows ≡ []
    → IsOrdered now calls
    → passed f.window_ms key start calls (serve_all f calls)
      ≡ min f.limit (count_if (same_slot f.window_ms key start) calls)
serve_all-passed f now calls key start hl hw empty o =
    rw (serve_all_exact f now calls hl hw empty o)
      (omega (arith, passed-fixed_window f.limit f.window_ms key start [] calls))
