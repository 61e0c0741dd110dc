-- ===== src/Contract/Key.antt =====
-- api/src/contract/identity.ts: the stable string of an identity.
pub mod Injective
use mathlib.Core.Option
use battle_cloud.Common.{ℕ, Option, none, some, List, [], ◌∷◌, ◌++◌, Text, text}
use battle_cloud.Contract.Identity.{Perspective, p1, p2, AnalysisIdentity}
use battle_cloud.Contract.Uri.{encode_uri_component, decimal}

-- `keyof AnalysisIdentity`
pub data Field : Type 0 where
  replay_id perspective search_budget_ms_per_turn opponent_samples threads : Field
  usage_stats_cutoff usage_stats_dataset poke_engine_tag seed : Field

unfoldable pub identity_fields : List Field
identity_fields =
    replay_id ∷ perspective ∷ search_budget_ms_per_turn ∷ opponent_samples ∷ threads
    ∷ usage_stats_cutoff ∷ usage_stats_dataset ∷ poke_engine_tag ∷ seed ∷ []

field_name : Field → Text
unfolding text
field_name replay_id = text "replayId"
field_name perspective = text "perspective"
field_name search_budget_ms_per_turn = text "searchBudgetMsPerTurn"
field_name opponent_samples = text "opponentSamples"
field_name threads = text "threads"
field_name usage_stats_cutoff = text "usageStatsCutoff"
field_name usage_stats_dataset = text "usageStatsDataset"
field_name poke_engine_tag = text "pokeEngineTag"
field_name seed = text "seed"

unfoldable pub perspective_text : Perspective → Text
unfolding text
perspective_text p1 = text "p1"
perspective_text p2 = text "p2"

-- `String(identity[field])`
field_value : AnalysisIdentity → Field → Text
unfolding perspective_text
field_value i replay_id = i.replay_id
field_value i perspective = perspective_text i.perspective
field_value i search_budget_ms_per_turn = decimal i.search_budget_ms_per_turn
field_value i opponent_samples = decimal i.opponent_samples
field_value i threads = decimal i.threads
field_value i usage_stats_cutoff = decimal i.usage_stats_cutoff
field_value i usage_stats_dataset = i.usage_stats_dataset
field_value i poke_engine_tag = i.poke_engine_tag
field_value i seed = decimal i.seed

infixl 5 ◌>>=◌
abbrev ◌>>=◌ {ℓ κ} : {A : Type ℓ} {B : Type κ} → Option A → (A → Option B) → Option B
none >>= k = none
some a >>= k = k a

key_part : AnalysisIdentity → Field → Option Text
key_part i field = do
  value ← encode_uri_component (field_value i field)
  some (field_name field ++ b'=' ∷ value)

key_parts : AnalysisIdentity → List Field → Option (List Text)
key_parts i [] = some []
key_parts i (field ∷ fields) = do
  part ← key_part i field
  parts ← key_parts i fields
  some (part ∷ parts)

-- `parts.join('&')`
join_amp : List Text → Text
join_amp [] = []
join_amp (part ∷ []) = part
join_amp (part ∷ next ∷ parts) = part ++ b'&' ∷ join_amp (next ∷ parts)

-- `none` is the `URIError` of a value with a lone surrogate.
unfoldable pub identity_key : AnalysisIdentity → Option Text
unfolding key_parts key_part join_amp identity_fields field_name field_value
identity_key i = do parts ← key_parts i identity_fields; some (join_amp parts)
