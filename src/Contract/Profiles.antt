-- ===== src/Contract/Profiles.antt =====
-- api/src/contract/profiles.ts: the engine parameters that a profile name stands for.
use battle_cloud.Common.{ℕ, ◌*◌, Text, text}

pub data Profile : Type 0 where
  ladder_parity quick : Profile

-- The keys of `PROFILES`
abbrev pub profile_name : Profile → Text
profile_name ladder_parity = text "ladder-parity"
profile_name quick = text "quick"

pub record EngineParams : Type 0 where
  pub search_budget_ms_per_turn : ℕ
  pub opponent_samples : ℕ
  pub threads : ℕ
  pub usage_stats_cutoff : ℕ
  pub seed : ℕ

unfoldable pub profiles : Profile → EngineParams
profiles ladder_parity = record {
  search_budget_ms_per_turn = 1000;
  opponent_samples = 8;
  threads = 4;
  usage_stats_cutoff = 1500;
  seed = 0;
}
profiles quick = record {
  search_budget_ms_per_turn = 200;
  opponent_samples = 2;
  threads = 4;
  usage_stats_cutoff = 1500;
  seed = 0;
}

unfoldable pub search_time_ms : ℕ → Profile → ℕ
unfolding profiles
search_time_ms turns profile = turns * (profiles profile).search_budget_ms_per_turn
