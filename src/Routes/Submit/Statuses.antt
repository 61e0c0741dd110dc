-- ===== src/Routes/Submit/Statuses.antt =====
-- The statuses that a submission is answered with.
use battle_cloud.Common.{
  ℕ, ◌≡◌, ◌⊎◌, inl, inr, refl, Bool, true, false, List, Option, none, some, Text,
}
use battle_cloud.Contract.Errors.{
  ErrorKind, invalid_replay_id, replay_not_found, replay_empty_log, replay_too_large,
  replay_malformed, replay_transport_failure, replay_timeout, engine_unavailable,
  engine_data_missing, analysis_rejected, analysis_parse_failed, engine_crashed,
  engine_internal_error, unknown_profile, invalid_request, rate_limited, analysis_not_found,
}
use battle_cloud.Contract.Identity.{AnalysisIdentity, SubmitRequest, derive_identity}
use battle_cloud.Contract.Schemas.{Parsed, parse_submit, success, failure}
use battle_cloud.Replay.Read.{replay_fetch_error, other_error, Result, ok, throw}
use battle_cloud.Replay.Fetch.{ReplayPayload, fetch_replay}
use battle_cloud.Replay.Fetch.Failures.{IsClassified, IsAcquisition, fetch_replay-IsClassified}
use battle_cloud.Store.Replays.{ReplayRow, replay_log}
use battle_cloud.Store.Analyses.{StoredAnalysis, analysis_by_identity}
use battle_cloud.RateLimit.{try_consume}
use battle_cloud.Routes.{Answer, sent, crashed, status_of, fail, Deps, Api, Action}
use battle_cloud.Routes.Submit.{
  Column, takes, refuses, row_of, stored, turns_of, Request, kept, log_or_fetch, obtain, accept,
  settle, admit, charge, respond, handle, submit_analysis,
}

-- The statuses of the documented contract.
pub data IsDocumented : ℕ → Type 0 where
  cached : IsDocumented 200
  queued : IsDocumented 202
  bad_request : IsDocumented 400
  not_found : IsDocumented 404
  too_large : IsDocumented 413
  unusable : IsDocumented 422
  limited : IsDocumented 429
  upstream : IsDocumented 502
  upstream_timeout : IsDocumented 504

-- The fetch of a replay throws, or Postgres refuses to store what it returned.
abbrev pub IsRaised : Deps → Text → Text → Type 0
IsRaised deps id message =
    ((fetch_replay deps.replay id).0 ≡ throw (other_error message))
    ⊎ ((payload : ReplayPayload) × ((fetch_replay deps.replay id).0 ≡ ok payload)
        × (row_of deps id payload ≡ refuses message))

-- A reply has a documented status; an exception is one of the submitted replay.
abbrev pub IsAnswered : Deps → Request → Answer → Type 0
IsAnswered deps request (sent status headers body) = IsDocumented status
IsAnswered deps request (crashed message) =
    (submit : SubmitRequest) × (parse_submit deps.issues request.body ≡ success submit)
    × IsRaised deps submit.replay_id message

acquisition_status : (kind : ErrorKind) → IsAcquisition kind → IsDocumented (status_of kind)
unfolding status_of
acquisition_status invalid_replay_id h = bad_request
acquisition_status replay_not_found h = not_found
acquisition_status replay_empty_log h = unusable
acquisition_status replay_too_large h = too_large
acquisition_status replay_malformed h = unusable
acquisition_status replay_transport_failure h = upstream
acquisition_status replay_timeout h = upstream_timeout
acquisition_status engine_unavailable h = absurd h
acquisition_status engine_data_missing h = absurd h
acquisition_status analysis_rejected h = absurd h
acquisition_status analysis_parse_failed h = absurd h
acquisition_status engine_crashed h = absurd h
acquisition_status engine_internal_error h = absurd h
acquisition_status unknown_profile h = absurd h
acquisition_status invalid_request h = absurd h
acquisition_status rate_limited h = absurd h
acquisition_status analysis_not_found h = absurd h

module _ (deps : Deps) where
  -- What is thrown while a log is obtained was thrown by the fetch.
  abbrev IsThrown : Text → Result ℕ → Type 0
  IsThrown id (ok turns) = Unit
  IsThrown id (throw (replay_fetch_error kind message)) = IsAcquisition kind
  IsThrown id (throw (other_error message)) = IsRaised deps id message

  kept-IsThrown :
      (id : Text) (replays : List ReplayRow) (result : Result ReplayPayload)
      → (fetch_replay deps.replay id).0 ≡ result
      → IsClassified result
      → IsThrown id (kept deps id replays result).0
  kept-IsThrown id replays (ok payload) e h = stored-IsThrown (row_of deps id payload) refl
    where
      stored-IsThrown :
          (row : Column ReplayRow)
          → row_of deps id payload ≡ row
          → IsThrown id (turns_of payload.log (stored row replays)).0
      stored-IsThrown (takes row) r = tt
      stored-IsThrown (refuses message) r = inr (payload, e, r)
  kept-IsThrown id replays (throw (replay_fetch_error kind message)) e h = h
  kept-IsThrown id replays (throw (other_error message)) e h = inl e

  log_or_fetch-IsThrown :
      (id : Text) (replays : List ReplayRow) (log : Option Text)
      → IsThrown id (log_or_fetch deps id replays log).turns
  unfolding log_or_fetch
  log_or_fetch-IsThrown id replays (some log) = tt
  log_or_fetch-IsThrown id replays none =
      kept-IsThrown id replays (fetch_replay deps.replay id).0 refl
        (fetch_replay-IsClassified deps.replay id)

  obtain-IsThrown :
      (id : Text) (replays : List ReplayRow) → IsThrown id (obtain deps id replays).turns
  unfolding obtain
  obtain-IsThrown id replays = log_or_fetch-IsThrown id replays (replay_log id replays)

  module _ (request : Request) (submit : SubmitRequest) (identity : AnalysisIdentity)
      (parses : parse_submit deps.issues request.body ≡ success submit) where
    settle-IsAnswered :
        (api : Api) (actions : List Action) (turns : Result ℕ)
        → IsThrown submit.replay_id turns
        → IsAnswered deps request (settle deps request submit identity api actions turns).answer
    unfolding settle accept fail
    settle-IsAnswered api actions (ok turns) h = queued
    settle-IsAnswered api actions (throw (replay_fetch_error kind message)) h =
        acquisition_status kind h
    settle-IsAnswered api actions (throw (other_error message)) h = (submit, parses, h)

    admit-IsAnswered :
        (api : Api) (allowed : Bool)
        → IsAnswered deps request (admit deps request submit identity api allowed).answer
    unfolding admit
    admit-IsAnswered api false = limited
    admit-IsAnswered api true =
        let obtained = obtain deps submit.replay_id api.replays in
        settle-IsAnswered (record api { replays = obtained.replays }) obtained.actions
          obtained.turns (obtain-IsThrown submit.replay_id api.replays)

    respond-IsAnswered :
        (api : Api) (found : Option StoredAnalysis)
        → IsAnswered deps request (respond deps request submit identity api found).answer
    unfolding respond charge
    respond-IsAnswered api (some found) = cached
    respond-IsAnswered api none =
        let (allowed, (limiter, windows)) =
          try_consume api.limiter request.ip request.at api.windows in
        admit-IsAnswered (record api { limiter = limiter; windows = windows }) allowed

  handle-IsAnswered :
      (request : Request) (api : Api) (parsed : Parsed SubmitRequest)
      → parse_submit deps.issues request.body ≡ parsed
      → IsAnswered deps request (handle deps request api parsed).answer
  unfolding handle fail status_of
  handle-IsAnswered request api (failure issues) p = bad_request
  handle-IsAnswered request api (success submit) p =
      let identity = derive_identity submit deps.build in
      respond-IsAnswered request submit identity p api (analysis_by_identity identity api.analyses)

  -- Over a database that fails no statement but the one that stores a replay of which it refuses a value:
  -- every reply to a submission has one of the documented statuses, and none of them is 500; the
  -- handler throws only what the fetch of the submitted replay has thrown and does not classify, or
  -- the refusal to store the replay that was fetched.
  pub submit_analysis-IsAnswered :
      (request : Request) (api : Api)
      → IsAnswered deps request (submit_analysis deps request api).answer
  unfolding submit_analysis
  submit_analysis-IsAnswered request api =
      handle-IsAnswered request api (parse_submit deps.issues request.body) refl
