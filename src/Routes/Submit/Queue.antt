-- ===== src/Routes/Submit/Queue.antt =====
-- What a submission does to the queue.
use battle_cloud.Common.{
  ℕ, ◌≡◌, ◌≢◌, refl, Bool, true, false, inl, inr, ◌⊎◌, List, [], ◌∷◌, ◌++◌, Option, none, some,
  arith, text,
}
use battle_cloud.Contract.Identity.{AnalysisIdentity, SubmitRequest, derive_identity}
use battle_cloud.Contract.Schemas.{Parsed, parse_submit, success, failure}
use battle_cloud.Replay.Estimate.{estimate_duration}
use battle_cloud.Replay.Read.{replay_fetch_error, other_error, Result, ok, throw}
use battle_cloud.Store.Jobs.{JobRow, StoredJob, is_live, enqueue, job_by_id}
use battle_cloud.Store.Jobs.Enqueue.{IsUnique, IsFresh, enqueue-IsUnique, enqueue-IsServed}
use battle_cloud.Store.Analyses.{StoredAnalysis, analysis_by_identity}
use battle_cloud.RateLimit.{try_consume}
use battle_cloud.Routes.{
  status, status_of, status_of-not_202, fail, job_view, sent, submitted, location, Deps, Api,
  Action, Outcome,
}
use battle_cloud.Routes.Submit.{
  Request, obtain, accept, settle, admit, charge, respond, handle, submit_analysis,
}

-- A reply that hands out a job: the job is live, its location names it, and its id finds it.
abbrev pub IsAccepted : Outcome → Type 0
IsAccepted outcome =
    (job : StoredJob) × (created : Bool) × (outcome.answer
      ≡ sent 202 (location (text "/v1/jobs/" ++ job.id) ∷ []) (submitted (job_view job) created))
    × (job_by_id job.id outcome.api.jobs ≡ some job)
    × (is_live job.status ≡ true)

-- No job is handed out, and the queue is as it was.
abbrev pub IsRefused : List JobRow → Outcome → Type 0
IsRefused jobs outcome = (status outcome.answer ≢ 202) × (outcome.api.jobs ≡ jobs)

-- A submission hands out a job or leaves the queue alone, and keeps its keys unique.
abbrev pub IsQueued : List JobRow → Outcome → Type 0
IsQueued jobs outcome = (IsRefused jobs outcome ⊎ IsAccepted outcome) × IsUnique outcome.api.jobs

module _ (deps : Deps) (request : Request) where
  accept-IsQueued :
      (submit : SubmitRequest) (identity : AnalysisIdentity) (turns : ℕ) (api : Api)
      (actions : List Action)
      → IsFresh request.stamp.id api.jobs
      → IsUnique api.jobs
      → IsQueued api.jobs (accept deps request submit identity turns api actions)
  unfolding accept
  accept-IsQueued submit identity turns api actions fresh u =
      let ms = estimate_duration turns submit.profile in
      let result = enqueue request.stamp identity submit.profile turns ms api.jobs in
      let served =
        enqueue-IsServed request.stamp identity submit.profile turns ms api.jobs fresh u in
      (
        inr (result.0.job, result.0.created, refl, served.polled, served.live),
        enqueue-IsUnique request.stamp identity submit.profile turns ms api.jobs fresh u,
      )

  settle-IsQueued :
      (submit : SubmitRequest) (identity : AnalysisIdentity) (api : Api) (actions : List Action)
      (turns : Result ℕ)
      → IsFresh request.stamp.id api.jobs
      → IsUnique api.jobs
      → IsQueued api.jobs (settle deps request submit identity api actions turns)
  unfolding settle fail
  settle-IsQueued submit identity api actions (ok turns) fresh u =
      accept-IsQueued submit identity turns api actions fresh u
  settle-IsQueued submit identity api actions (throw (replay_fetch_error kind message)) fresh u =
      (inl (status_of-not_202 kind, refl), u)
  settle-IsQueued submit identity api actions (throw (other_error message)) fresh u =
      (inl ((λ h. ground arith), refl), u)

  admit-IsQueued :
      (submit : SubmitRequest) (identity : AnalysisIdentity) (api : Api) (allowed : Bool)
      → IsFresh request.stamp.id api.jobs
      → IsUnique api.jobs
      → IsQueued api.jobs (admit deps request submit identity api allowed)
  unfolding admit
  admit-IsQueued submit identity api false fresh u = (inl ((λ h. ground arith), refl), u)
  admit-IsQueued submit identity api true fresh u =
      let obtained = obtain deps submit.replay_id api.replays in
      settle-IsQueued submit identity (record api { replays = obtained.replays }) obtained.actions
        obtained.turns fresh u

  respond-IsQueued :
      (submit : SubmitRequest) (identity : AnalysisIdentity) (api : Api)
      (found : Option StoredAnalysis)
      → IsFresh request.stamp.id api.jobs
      → IsUnique api.jobs
      → IsQueued api.jobs (respond deps request submit identity api found)
  unfolding respond charge
  respond-IsQueued submit identity api (some found) fresh u = (inl ((λ h. ground arith), refl), u)
  respond-IsQueued submit identity api none fresh u =
      let (allowed, (limiter, windows)) =
        try_consume api.limiter request.ip request.at api.windows in
      admit-IsQueued submit identity (record api { limiter = limiter; windows = windows }) allowed
        fresh u

  handle-IsQueued :
      (api : Api) (parsed : Parsed SubmitRequest)
      → IsFresh request.stamp.id api.jobs
      → IsUnique api.jobs
      → IsQueued api.jobs (handle deps request api parsed)
  unfolding handle fail status_of
  handle-IsQueued api (failure issues) fresh u = (inl ((λ h. ground arith), refl), u)
  handle-IsQueued api (success submit) fresh u =
      let identity = derive_identity submit deps.build in
      respond-IsQueued submit identity api (analysis_by_identity identity api.analyses) fresh u

  -- Under unique keys and with a fresh id for a new row, every submission either leaves the queue
  -- as it was and is not answered 202, or is answered 202 with a live job that its location and its id find in the queue;
  -- and the keys stay unique.
  pub submit_analysis-IsQueued :
      (api : Api)
      → IsFresh request.stamp.id api.jobs
      → IsUnique api.jobs
      → IsQueued api.jobs (submit_analysis deps request api)
  unfolding submit_analysis
  submit_analysis-IsQueued api fresh u =
      handle-IsQueued api (parse_submit deps.issues request.body) fresh u
