-- ===== src/Contract/Identity.antt =====
-- api/src/contract/identity.ts: replay ids, and the nine fields that identify an analysis.
use battle_cloud.Common.{
  ℕ, ◌≡◌, Bool, true, false, not, ◌&&◌, ◌||◌, ◌↔◌, [], ◌∷◌, arith, Text, text, text_eq, text_eq_iff,
  includes, all, length, leb, ◌==◌,
}
use battle_cloud.Contract.Profiles.{Profile, profiles}

pub data Perspective : Type 0 where
  p1 p2 : Perspective

-- [A-Za-z0-9]
unfoldable pub is_alnum : ℕ → Bool
is_alnum c = (leb b'A' c && leb c b'Z') || (leb b'a' c && leb c b'z') || (leb b'0' c && leb c b'9')

-- [A-Za-z0-9._-]
unfoldable pub is_id_char : ℕ → Bool
unfolding is_alnum
is_id_char c = is_alnum c || c == b'.' || c == b'_' || c == b'-'

-- `SAFE_REPLAY_ID.test(value)`
unfoldable pub safe_replay_id : Text → Bool
unfolding is_alnum is_id_char
safe_replay_id [] = false
safe_replay_id (c ∷ rest) = is_alnum c && all is_id_char rest && leb (length rest) 127

-- `isSafeReplayId` at a string; any other value fails its first test.
unfoldable pub is_safe_replay_id : Text → Bool
unfolding safe_replay_id includes text
is_safe_replay_id value = safe_replay_id value && not (includes (text "..") value)

pub record AnalysisIdentity : Type 0 where
  pub replay_id : Text
  pub perspective : Perspective
  pub search_budget_ms_per_turn : ℕ
  pub opponent_samples : ℕ
  pub threads : ℕ
  pub usage_stats_cutoff : ℕ
  pub usage_stats_dataset : Text
  pub poke_engine_tag : Text
  pub seed : ℕ

pub record EngineBuild : Type 0 where
  pub poke_engine_tag : Text
  pub usage_stats_dataset : Text

pub record SubmitRequest : Type 0 where
  pub replay_id : Text
  pub perspective : Perspective
  pub profile : Profile

unfoldable pub derive_identity : SubmitRequest → EngineBuild → AnalysisIdentity
unfolding profiles
derive_identity request build =
    let params = profiles request.profile in
    record {
      replay_id = request.replay_id;
      perspective = request.perspective;
      search_budget_ms_per_turn = params.search_budget_ms_per_turn;
      opponent_samples = params.opponent_samples;
      threads = params.threads;
      usage_stats_cutoff = params.usage_stats_cutoff;
      usage_stats_dataset = build.usage_stats_dataset;
      poke_engine_tag = build.poke_engine_tag;
      seed = params.seed;
    }

unfoldable pub same_perspective : Perspective → Perspective → Bool
same_perspective p1 p1 = true
same_perspective p2 p2 = true
same_perspective _ _ = false

-- The condition on the nine identity columns, in the order of the statements of store.ts.
unfoldable pub same_identity : AnalysisIdentity → AnalysisIdentity → Bool
unfolding same_perspective
same_identity a b =
    text_eq a.replay_id b.replay_id
    && same_perspective a.perspective b.perspective
    && a.search_budget_ms_per_turn == b.search_budget_ms_per_turn
    && a.opponent_samples == b.opponent_samples
    && a.threads == b.threads
    && a.usage_stats_cutoff == b.usage_stats_cutoff
    && text_eq a.usage_stats_dataset b.usage_stats_dataset
    && text_eq a.poke_engine_tag b.poke_engine_tag
    && a.seed == b.seed

pub same_perspective_iff : (a b : Perspective) → (same_perspective a b ≡ true) ↔ (a ≡ b)
unfolding same_perspective
same_perspective_iff p1 b = ground arith
same_perspective_iff p2 b = ground arith

pub same_identity_iff : (a b : AnalysisIdentity) → (same_identity a b ≡ true) ↔ (a ≡ b)
unfolding same_identity
same_identity_iff a b = ground (
  arith,
  text_eq_iff a.replay_id b.replay_id,
  same_perspective_iff a.perspective b.perspective,
  text_eq_iff a.usage_stats_dataset b.usage_stats_dataset,
  text_eq_iff a.poke_engine_tag b.poke_engine_tag,
)

-- Two requests under one engine build have the same identity exactly when they are the same
-- request: no two profiles expand to the same parameters.
pub derive_identity_injective :
    (build : EngineBuild) (a b : SubmitRequest)
    → (derive_identity a build ≡ derive_identity b build) ↔ (a ≡ b)
unfolding derive_identity
derive_identity_injective build a b = ground arith
