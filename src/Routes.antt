-- ===== src/Routes.antt =====
-- api/src/routes.ts: the handlers. The store's statements are taken to succeed, but for the
-- one that stores a replay, which a column may refuse; a handler that throws is answered by the
-- framework.
pub mod Submit
pub mod Listing
pub mod Lookups
pub mod Wire
pub mod Probes
pub mod Failing
use battle_cloud.Common.{ℕ, ◌≢◌, arith, Bool, List, [], ◌∷◌, ◌++◌, Option, none, some, Text, text}
use battle_cloud.Json.{Json}
use battle_cloud.Contract.Profiles.{Profile}
use battle_cloud.Contract.Errors.{
  ErrorKind, invalid_replay_id, replay_not_found, replay_empty_log, replay_too_large,
  replay_malformed, replay_transport_failure, replay_timeout, unknown_profile, invalid_request,
  rate_limited, analysis_not_found,
}
use battle_cloud.Contract.Identity.{EngineBuild, SubmitRequest, Perspective}
use battle_cloud.Replay.Read.{Effect}
use battle_cloud.Replay.Fetch.{ReplayDeps}
use battle_cloud.Store.Windows.{Window}
use battle_cloud.Store.Replays.{ReplayRow}
use battle_cloud.Store.Jobs.{JobStatus, JobRow, StoredJob}
use battle_cloud.Store.Analyses.{AnalysisRow, StoredAnalysis, AnalysisSummary}
use battle_cloud.RateLimit.{RateLimiter}

-- `STATUS[kind] ?? 500`
unfoldable pub status_of : ErrorKind → ℕ
status_of invalid_request = 400
status_of invalid_replay_id = 400
status_of unknown_profile = 400
status_of replay_not_found = 404
status_of analysis_not_found = 404
status_of replay_empty_log = 422
status_of replay_malformed = 422
status_of replay_too_large = 413
status_of rate_limited = 429
status_of replay_transport_failure = 502
status_of replay_timeout = 504
status_of _ = 500

pub status_of-not_202 : (kind : ErrorKind) → status_of kind ≢ 202
unfolding status_of
status_of-not_202 kind h = ground arith

pub record Envelope : Type 0 where
  pub analysis_id : Text
  pub seed : ℕ
  pub created_at : ℕ
  pub document : Json

unfoldable pub envelope : StoredAnalysis → Envelope
envelope analysis = record {
  analysis_id = analysis.id;
  seed = analysis.seed;
  created_at = analysis.created_at;
  document = analysis.document;
}

pub record JobView : Type 0 where
  pub job_id : Text
  pub status : JobStatus
  pub replay_id : Text
  pub perspective : Perspective
  pub profile : Profile
  pub estimated_turns : Option ℕ
  pub estimated_search_ms : Option ℕ
  pub analysis_id : Option Text
  pub error_kind : Option Text
  pub created_at : ℕ
  pub updated_at : ℕ

unfoldable pub job_view : StoredJob → JobView
job_view job = record {
  job_id = job.id;
  status = job.status;
  replay_id = job.replay_id;
  perspective = job.perspective;
  profile = job.profile;
  estimated_turns = job.estimated_turns;
  estimated_search_ms = job.estimated_search_ms;
  analysis_id = job.analysis_id;
  error_kind = job.error_kind;
  created_at = job.created_at;
  updated_at = job.updated_at;
}

pub data Body : Type 0 where
  error : ErrorKind → Text → Body
  analysis : Envelope → Body
  job : JobView → Body
  -- with `created`
  submitted : JobView → Bool → Body
  page : List AnalysisSummary → Option Text → Body

pub data Header : Type 0 where
  retry_after : ℕ → Header
  location : Text → Header

-- What the client gets: a reply of the handler, or the framework's for an exception.
pub data Answer : Type 0 where
  sent : ℕ → List Header → Body → Answer
  crashed : Text → Answer

-- The status that the client sees; the framework answers an exception with 500.
abbrev pub status : Answer → ℕ
status (sent code headers body) = code
status (crashed message) = 500

unfoldable pub fail : ErrorKind → Text → Answer
unfolding status_of
fail kind message = sent (status_of kind) [] (error kind message)

-- `parsed.error.issues.map((i) => i.message).join('; ')`
unfoldable pub join_issues : List Text → Text
join_issues [] = []
join_issues (m ∷ []) = m
join_issues (m ∷ n ∷ issues) = m ++ (text "; " ++ join_issues (n ∷ issues))

-- `Deps` as far as the handlers read it, with the messages that Zod has for a body it refuses, and the
-- error with which Postgres refuses a replay of which a column does not take its value, as an integer out
-- of range or a text with a NUL.
pub record Deps : Type 0 where
  pub build : EngineBuild
  pub replay : ReplayDeps
  pub issues : Json → List Text
  pub refusal : ReplayRow → Option Text

-- The tables, and the limiter of this instance.
pub record Api : Type 0 where
  pub analyses : List AnalysisRow
  pub replays : List ReplayRow
  pub jobs : List JobRow
  pub windows : List Window
  pub limiter : RateLimiter

-- What a handler does to the outside.
pub data Action : Type 0 where
  network : Effect → Action
  launch : Action

pub record Outcome : Type 0 where
  pub answer : Answer
  pub api : Api
  pub actions : List Action
