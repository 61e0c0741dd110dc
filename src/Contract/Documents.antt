-- ===== src/Contract/Documents.antt =====
-- The schemas of api/src/contract/schemas.ts for what the API stores and sends.
use battle_cloud.Common.{ℕ, Bool, false, ◌&&◌, ◌==◌, List, [], ◌∷◌, Option, none, some, Text, text}
use battle_cloud.Json
use battle_cloud.Json.{Json}
use battle_cloud.Contract.Checks.{
  Check, int, finite, string, boolean, unknown, enum, nullable, optional, array, passthrough,
  strict,
}

-- `SUPPORTED_SCHEMA_VERSION`
abbrev pub supported_schema_version : ℕ
supported_schema_version = 1

abbrev pub perspectives : List Text
perspectives = text "p1" ∷ text "p2" ∷ []

abbrev pub profile_names : List Text
profile_names = text "ladder-parity" ∷ text "quick" ∷ []

-- `JOB_STATUSES`
abbrev pub job_statuses : List Text
job_statuses =
    text "queued" ∷ text "running" ∷ text "succeeded" ∷ text "failed" ∷ text "cancelled" ∷ []

unfoldable pub ranked_action_schema : Check
ranked_action_schema =
    passthrough
      ((text "action", string) ∷ (text "visitShare", finite) ∷ (text "value", finite) ∷ [])

unfoldable pub turn_evaluation_schema : Check
unfolding ranked_action_schema
turn_evaluation_schema = passthrough (
    (text "turn", int)
    ∷ (text "winProbability", optional (nullable finite))
    ∷ (text "gradable", boolean)
    ∷ (text "ungradableReason", optional (nullable string))
    ∷ (text "samplesUsed", int)
    ∷ (text "playedAction", optional (nullable string))
    ∷ (text "playedActionValue", optional (nullable finite))
    ∷ (text "costOfPlayed", optional (nullable finite))
    ∷ (text "topActions", array ranked_action_schema)
    ∷ [])

unfoldable pub engine_configuration_schema : Check
engine_configuration_schema = passthrough (
    (text "searchBudgetMsPerTurn", int)
    ∷ (text "opponentSamples", int)
    ∷ (text "threads", int)
    ∷ (text "usageStatsCutoff", int)
    ∷ (text "pokeEngineTag", string)
    ∷ [])

-- `doc.schemaVersion !== SUPPORTED_SCHEMA_VERSION` is an issue.
abbrev pub is_supported : Option Json → Bool
is_supported (some (Json.num version)) = version == supported_schema_version
is_supported _ = false

abbrev pub version_of : Option Json → Option Json
version_of (some (Json.obj fields)) = Json.get (text "schemaVersion") fields
version_of _ = none

-- `SchemaV1DocumentSchema`
unfoldable pub document_schema : Check
unfolding turn_evaluation_schema engine_configuration_schema
document_schema json =
    passthrough
      ((text "schemaVersion", unknown)
        ∷ (text "replayId", string)
        ∷ (text "format", string)
        ∷ (text "perspective", enum perspectives)
        ∷ (text "engine", engine_configuration_schema)
        ∷ (text "totalTurns", int)
        ∷ (text "gradableTurns", int)
        ∷ (text "turns", array turn_evaluation_schema)
        ∷ [])
      json
    && is_supported (version_of json)

unfoldable pub job_schema : Check
job_schema = strict (
    (text "jobId", string)
    ∷ (text "status", enum job_statuses)
    ∷ (text "replayId", string)
    ∷ (text "perspective", enum perspectives)
    ∷ (text "profile", enum profile_names)
    ∷ (text "estimatedTurns", nullable int)
    ∷ (text "estimatedSearchMs", nullable int)
    ∷ (text "elapsedMs", nullable int)
    ∷ (text "analysisId", nullable string)
    ∷ (text "errorKind", nullable string)
    ∷ (text "createdAt", string)
    ∷ [])

unfoldable pub analysis_envelope_schema : Check
unfolding document_schema
analysis_envelope_schema = strict (
    (text "analysisId", string)
    ∷ (text "seed", int)
    ∷ (text "createdAt", string)
    ∷ (text "document", document_schema)
    ∷ [])

unfoldable pub analysis_summary_schema : Check
analysis_summary_schema = strict (
    (text "analysisId", string)
    ∷ (text "replayId", string)
    ∷ (text "format", string)
    ∷ (text "rating", nullable int)
    ∷ (text "players", array string)
    ∷ (text "perspective", enum perspectives)
    ∷ (text "totalTurns", int)
    ∷ (text "gradableTurns", int)
    ∷ (text "searchBudgetMsPerTurn", int)
    ∷ (text "opponentSamples", int)
    ∷ (text "createdAt", string)
    ∷ [])

unfoldable pub analysis_page_schema : Check
unfolding analysis_summary_schema
analysis_page_schema =
    strict
      ((text "analyses", array analysis_summary_schema) ∷ (text "nextCursor", nullable string) ∷ [])
