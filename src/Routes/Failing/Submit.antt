-- ===== src/Routes/Failing/Submit.antt =====
-- `POST /v1/analyses` of api/src/routes.ts over a database that may fail, with `tryConsume` of
-- api/src/ratelimit.ts.
use battle_cloud.Common.{
  ℕ, ◌+◌, Bool, true, false, ◌++◌, List, [], ◌∷◌, map, Option, none, some, Text, text, ltb,
  if◌then◌else◌,
}
use battle_cloud.Contract.Errors.{invalid_request, rate_limited}
use battle_cloud.Contract.Schemas.{Parsed, success, failure, parse_submit}
use battle_cloud.Contract.Identity.{AnalysisIdentity, SubmitRequest, derive_identity}
use battle_cloud.Replay.Estimate.{estimate_turns, estimate_duration}
use battle_cloud.Replay.Read.{replay_fetch_error, other_error, Result, ok, throw, Effect}
use battle_cloud.Replay.Fetch.{ReplayPayload, fetch_replay}
use battle_cloud.Store.Windows.{consume_rate_limit, sweep_rate_limits}
use battle_cloud.Store.Replays.{replay_log}
use battle_cloud.Store.Jobs.{enqueue}
use battle_cloud.Store.Analyses.{StoredAnalysis, analysis_by_identity}
use battle_cloud.RateLimit.{window_start, retry_after_seconds}
use battle_cloud.Routes.{
  envelope, job_view, Answer, sent, error, analysis, submitted, retry_after, location, fail,
  join_issues, Deps, network,
}
use battle_cloud.Routes.Submit.{Request, row_of, stored, launches}
use battle_cloud.Routes.Failing.{Call, pure, raise, attempt, act, statement, ◌>>=◌, ◌>>◌}

-- The statement of `sweep`; the instance notes the time before it.
unfoldable pub swept : ℕ → Call (Unit {0})
swept at s =
    statement
      (λ api. (
        tt,
        record api {
          windows = sweep_rate_limits (window_start api.limiter.window_ms at) api.windows;
        },
      ))
      (record s { api = record s.api { limiter = record s.api.limiter { last_sweep = at } } })

-- `sweep`
unfoldable pub sweep : ℕ → Call (Unit {0})
unfolding swept
sweep at s =
    if ltb at (s.api.limiter.last_sweep + s.api.limiter.window_ms) then pure tt s else swept at s

-- `tryConsume`
unfoldable pub try_consume : Text → ℕ → Call Bool
unfolding sweep
try_consume key at = do
  allowed ← statement (λ api.
      let (allowed, windows) =
        consume_rate_limit key (window_start api.limiter.window_ms at) api.limiter.limit
          api.windows in
      (allowed, record api { windows = windows }))
  sweep at
  pure allowed

-- `fetchReplay`, which asks no database, with its reply and what it did.
fetched : Result ReplayPayload × List Effect → Call ReplayPayload
fetched (payload, effects) s = (payload, record s { actions = s.actions ++ map network effects })

-- What a statement comes to by itself.
abbrev pub returned : Result (Unit {0}) → Call (Unit {0})
returned (ok done) = pure done
returned (throw thrown) = raise thrown

-- A replay that comes is counted and stored.
unfoldable pub kept : Deps → Text → Result ReplayPayload × List Effect → Call ℕ
unfolding fetched
kept deps replay_id reply = do
  payload ← fetched reply
  result ← statement (λ api.
      let (result, replays) = stored (row_of deps replay_id payload) api.replays in
      (result, record api { replays = replays }))
  returned result
  pure (estimate_turns payload.log)

module _ (deps : Deps) where
  -- Fetched only when no log is stored.
  unfoldable pub log_or_fetch : Text → Option Text → Call ℕ
  unfolding kept
  log_or_fetch replay_id (some log) = pure (estimate_turns log)
  log_or_fetch replay_id none = kept deps replay_id (fetch_replay deps.replay replay_id)

  -- The body of the `try`.
  unfoldable pub obtain : Text → Call ℕ
  unfolding log_or_fetch
  obtain replay_id = do
    stored ← statement (λ api. (replay_log replay_id api.replays, api))
    log_or_fetch replay_id stored

  -- From `enqueue` on.
  unfoldable pub accept : Request → SubmitRequest → AnalysisIdentity → ℕ → Call Answer
  accept request submit identity turns = do
    enqueued ← statement (λ api.
        let (enqueued, jobs) =
          enqueue request.stamp identity submit.profile turns
            (estimate_duration turns submit.profile) api.jobs in
        (enqueued, record api { jobs = jobs }))
    act (launches enqueued.job.status)
    pure (
        sent 202 (location (text "/v1/jobs/" ++ enqueued.job.id) ∷ [])
          (submitted (job_view enqueued.job) enqueued.created))

  -- The `catch`, which knows the errors of a fetch, or on to the queue.
  unfoldable pub settle : Request → SubmitRequest → AnalysisIdentity → Result ℕ → Call Answer
  unfolding accept
  settle request submit identity (ok turns) = accept request submit identity turns
  settle request submit identity (throw (replay_fetch_error kind message)) =
      pure (fail kind message)
  settle request submit identity (throw (other_error message)) = raise (other_error message)

  -- `reply.header('retry-after', ...)`: the limiter computes it without the database.
  refused_answer : Request → Call Answer
  refused_answer request s =
      pure
        (sent 429 (retry_after (retry_after_seconds s.api.limiter request.refused_at) ∷ [])
          (error rate_limited (text "submission rate exceeded")))
        s

  unfoldable pub admit : Request → SubmitRequest → AnalysisIdentity → Bool → Call Answer
  unfolding obtain settle refused_answer
  admit request submit identity false = refused_answer request
  admit request submit identity true = do
    turns ← attempt (obtain submit.replay_id)
    settle request submit identity turns

  unfoldable pub respond :
      Request → SubmitRequest → AnalysisIdentity → Option StoredAnalysis → Call Answer
  unfolding admit try_consume
  respond request submit identity (some found) = pure (sent 200 [] (analysis (envelope found)))
  respond request submit identity none = do
    allowed ← try_consume request.ip request.at
    admit request submit identity allowed

  unfoldable pub handle : Request → Parsed SubmitRequest → Call Answer
  unfolding respond
  handle request (failure issues) = pure (fail invalid_request (join_issues issues))
  handle request (success submit) =
      let identity = derive_identity submit deps.build in
      do
        cached ← statement (λ api. (analysis_by_identity identity api.analyses, api))
        respond request submit identity cached

  unfoldable pub submit_analysis : Request → Call Answer
  unfolding handle
  submit_analysis request = handle request (parse_submit deps.issues request.body)
