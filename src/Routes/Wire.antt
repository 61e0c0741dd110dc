-- ===== src/Routes/Wire.antt =====
-- The replies of api/src/routes.ts as JSON.
pub mod Conforms
pub mod Finite
use battle_cloud.Common.{ℕ, Bool, true, false, List, [], ◌∷◌, map, Option, none, some, Text, text}
use battle_cloud.Json
use battle_cloud.Json.{Json, Items, Fields}
use battle_cloud.Platform.{Platform}
use battle_cloud.Contract.Profiles.{profile_name}
use battle_cloud.Contract.Errors.{
  ErrorKind, invalid_replay_id, replay_not_found, replay_empty_log, replay_too_large,
  replay_malformed, replay_transport_failure, replay_timeout, engine_unavailable,
  engine_data_missing, analysis_rejected, analysis_parse_failed, engine_crashed,
  engine_internal_error, unknown_profile, invalid_request, rate_limited, analysis_not_found,
}
use battle_cloud.Contract.Key.{perspective_text}
use battle_cloud.Store.Replays.{Rating, natural, negative}
use battle_cloud.Store.Jobs.{JobStatus, queued, running, succeeded, failed, cancelled}
use battle_cloud.Store.Analyses.{AnalysisSummary}
use battle_cloud.Routes.{Envelope, JobView, Body, error, analysis, job, submitted, page}

-- The strings of `ERROR_KINDS`
unfoldable pub kind_text : ErrorKind → Text
kind_text invalid_replay_id = text "invalid_replay_id"
kind_text replay_not_found = text "replay_not_found"
kind_text replay_empty_log = text "replay_empty_log"
kind_text replay_too_large = text "replay_too_large"
kind_text replay_malformed = text "replay_malformed"
kind_text replay_transport_failure = text "replay_transport_failure"
kind_text replay_timeout = text "replay_timeout"
kind_text engine_unavailable = text "engine_unavailable"
kind_text engine_data_missing = text "engine_data_missing"
kind_text analysis_rejected = text "analysis_rejected"
kind_text analysis_parse_failed = text "analysis_parse_failed"
kind_text engine_crashed = text "engine_crashed"
kind_text engine_internal_error = text "engine_internal_error"
kind_text unknown_profile = text "unknown_profile"
kind_text invalid_request = text "invalid_request"
kind_text rate_limited = text "rate_limited"
kind_text analysis_not_found = text "analysis_not_found"

-- The strings of `JOB_STATUSES`
unfoldable pub status_text : JobStatus → Text
status_text queued = text "queued"
status_text running = text "running"
status_text succeeded = text "succeeded"
status_text failed = text "failed"
status_text cancelled = text "cancelled"

abbrev pub or_null {ℓ} : {A : Type ℓ} → (A → Json) → Option A → Json
or_null f none = Json.null
or_null f (some a) = f a

abbrev pub rating_json : Rating → Json
rating_json (natural n) = Json.num n
rating_json (negative t) = Json.other_num Json.negative t

module _ (p : Platform) where
  unfoldable pub envelope_json : Envelope → Json
  envelope_json e = Json.obj (
      Json.object (
        (text "analysisId", Json.str e.analysis_id)
        ∷ (text "seed", Json.num e.seed)
        ∷ (text "createdAt", Json.str (p.to_iso_string e.created_at))
        ∷ (text "document", e.document)
        ∷ []))

  abbrev pub job_entries : JobView → List (Text × Json) → List (Text × Json)
  job_entries view more =
      (text "jobId", Json.str view.job_id)
      ∷ (text "status", Json.str (status_text view.status))
      ∷ (text "replayId", Json.str view.replay_id)
      ∷ (text "perspective", Json.str (perspective_text view.perspective))
      ∷ (text "profile", Json.str (profile_name view.profile))
      ∷ (text "estimatedTurns", or_null Json.num view.estimated_turns)
      ∷ (text "estimatedSearchMs", or_null Json.num view.estimated_search_ms)
      ∷ (text "analysisId", or_null Json.str view.analysis_id)
      ∷ (text "errorKind", or_null Json.str view.error_kind)
      ∷ (text "createdAt", Json.str (p.to_iso_string view.created_at))
      ∷ (text "updatedAt", Json.str (p.to_iso_string view.updated_at))
      ∷ more

  unfoldable pub summary_json : AnalysisSummary → Json
  summary_json s = Json.obj (
      Json.object (
        (text "analysisId", Json.str s.analysis_id)
        ∷ (text "replayId", Json.str s.replay_id)
        ∷ (text "format", Json.str s.format)
        ∷ (text "rating", or_null rating_json s.rating)
        ∷ (text "players", Json.arr (Json.array (map Json.str s.players)))
        ∷ (text "perspective", Json.str (perspective_text s.perspective))
        ∷ (text "totalTurns", Json.num s.total_turns)
        ∷ (text "gradableTurns", Json.num s.gradable_turns)
        ∷ (text "searchBudgetMsPerTurn", Json.num s.search_budget_ms_per_turn)
        ∷ (text "opponentSamples", Json.num s.opponent_samples)
        ∷ (text "createdAt", Json.str (p.to_iso_string s.created_at))
        ∷ []))

  -- What `send` serializes.
  unfoldable pub body_json : Body → Json
  unfolding kind_text status_text perspective_text envelope_json summary_json
  body_json (error kind message) = Json.obj (
      Json.object (
        (
          text "error",
          Json.obj (
              Json.object (
                (text "kind", Json.str (kind_text kind))
                ∷ (text "message", Json.str message)
                ∷ [])),
        )
        ∷ []))
  body_json (analysis e) = envelope_json e
  body_json (job v) = Json.obj (Json.object (job_entries v []))
  body_json (submitted v created) =
      Json.obj (Json.object (job_entries v ((text "created", Json.bool created) ∷ [])))
  body_json (page analyses next_cursor) = Json.obj (
      Json.object (
        (text "analyses", Json.arr (Json.array (map summary_json analyses)))
        ∷ (text "nextCursor", or_null Json.str next_cursor)
        ∷ []))
