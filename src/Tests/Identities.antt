-- ===== src/Tests/Identities.antt =====
-- Identities and their keys.
use battle_cloud.Common.{◌≡◌, refl, some, [], ◌∷◌, text, Text, arith}
use battle_cloud.Contract.Profiles.{ladder_parity, quick}
use battle_cloud.Contract.Identity.{p1, p2, AnalysisIdentity, SubmitRequest}
use battle_cloud.Contract.Uri.{encode_uri_component, decimal}
use battle_cloud.Contract.Key.{identity_key}
use battle_cloud.Contract.Key.Injective.{IsWellFormed, identity_key_injective}

abbrev first : SubmitRequest
first = record { replay_id = b'a' ∷ []; perspective = p1; profile = ladder_parity }

abbrev second : SubmitRequest
second = record { replay_id = b'a' ∷ []; perspective = p1; profile = quick }

abbrev identity : AnalysisIdentity
identity = record {
  replay_id = b'a' ∷ [];
  perspective = p2;
  search_budget_ms_per_turn = 200;
  opponent_samples = 2;
  threads = 4;
  usage_stats_cutoff = 1500;
  usage_stats_dataset = b'b' ∷ [];
  poke_engine_tag = b'&' ∷ [];
  seed = 0;
}

abbrev key : Text
key =
    text
      "replayId=a&perspective=p2&searchBudgetMsPerTurn=200&opponentSamples=2&threads=4&usageStatsCutoff=1500&usageStatsDataset=b&pokeEngineTag=%26&seed=0"

key_made : identity_key identity ≡ some key
unfolding text identity_key encode_uri_component decimal
key_made = refl

well_formed : IsWellFormed identity
well_formed = record {
  replay_id = (omega arith, tt);
  usage_stats_dataset = (omega arith, tt);
  poke_engine_tag = (omega arith, tt);
}

identity_key_injective_example : identity ≡ identity
identity_key_injective_example =
    identity_key_injective identity identity key well_formed well_formed key_made key_made

-- U+1F600, as its two halves.
abbrev smiley : Text
smiley = 0xD83D ∷ 0xDE00 ∷ []

abbrev escaped : Text
escaped = text "%F0%9F%98%80"

smiley_encoded : encode_uri_component smiley ≡ some escaped
unfolding text encode_uri_component
smiley_encoded = refl
