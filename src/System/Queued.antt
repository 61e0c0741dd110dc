-- ===== src/System/Queued.antt =====
-- A submission sends the table of jobs one statement at most.
use battle_cloud.Common.{
  ℕ, ◌≡◌, refl, sym, subst, Bool, true, false, inl, inr, ◌⊎◌, List, Option, none, some,
}
use battle_cloud.Contract.Profiles.{Profile}
use battle_cloud.Contract.Identity.{AnalysisIdentity, SubmitRequest, derive_identity}
use battle_cloud.Contract.Schemas.{Parsed, success, failure, parse_submit}
use battle_cloud.Replay.Estimate.{estimate_duration}
use battle_cloud.Replay.Read.{Result, ok, throw, replay_fetch_error, other_error}
use battle_cloud.Store.Jobs.{Stamp, JobRow, enqueue}
use battle_cloud.Store.Analyses.{StoredAnalysis, analysis_by_identity}
use battle_cloud.RateLimit.{try_consume}
use battle_cloud.Routes.{Deps, Api, Action, Outcome}
use battle_cloud.Routes.Submit.{
  Request, obtain, accept, settle, admit, charge, respond, handle, submit_analysis,
}
use battle_cloud.Routes.Failing
use battle_cloud.Routes.Failing.{Fate}
use battle_cloud.Routes.Failing.Submit
use battle_cloud.Routes.Failing.Cut.Submitted.{submit_analysis-IsCut}

-- The jobs are as they were, or as one `enqueue` leaves them.
abbrev pub IsEnqueue : Stamp → List JobRow → List JobRow → Type 0
IsEnqueue stamp before after =
    (after ≡ before)
    ⊎ ((identity : AnalysisIdentity) × (profile : Profile) × (turns : ℕ) × (ms : ℕ) × (after
          ≡ (enqueue stamp identity profile turns ms before).1))

module _ (deps : Deps) (request : Request) where
  abbrev Leaves : Api → Outcome → Type 0
  Leaves api o = IsEnqueue request.stamp api.jobs o.api.jobs

  settle-IsEnqueue :
      (submit : SubmitRequest) (identity : AnalysisIdentity) (api : Api) (actions : List Action)
      (turns : Result ℕ)
      → Leaves api (settle deps request submit identity api actions turns)
  unfolding settle accept
  settle-IsEnqueue submit identity api actions (ok turns) =
      inr (identity, submit.profile, turns, estimate_duration turns submit.profile, refl)
  settle-IsEnqueue submit identity api actions (throw (replay_fetch_error kind message)) = inl refl
  settle-IsEnqueue submit identity api actions (throw (other_error message)) = inl refl

  admit-IsEnqueue :
      (submit : SubmitRequest) (identity : AnalysisIdentity) (api : Api) (allowed : Bool)
      → Leaves api (admit deps request submit identity api allowed)
  unfolding admit
  admit-IsEnqueue submit identity api false = inl refl
  admit-IsEnqueue submit identity api true =
      let obtained = obtain deps submit.replay_id api.replays in
      settle-IsEnqueue submit identity (record api { replays = obtained.replays }) obtained.actions
        obtained.turns

  respond-IsEnqueue :
      (submit : SubmitRequest) (identity : AnalysisIdentity) (api : Api)
      (found : Option StoredAnalysis)
      → Leaves api (respond deps request submit identity api found)
  unfolding respond charge
  respond-IsEnqueue submit identity api (some found) = inl refl
  respond-IsEnqueue submit identity api none =
      let (allowed, (limiter, windows)) =
        try_consume api.limiter request.ip request.at api.windows in
      admit-IsEnqueue submit identity (record api { limiter = limiter; windows = windows }) allowed

  handle-IsEnqueue :
      (api : Api) (parsed : Parsed SubmitRequest) → Leaves api (handle deps request api parsed)
  unfolding handle
  handle-IsEnqueue api (failure issues) = inl refl
  handle-IsEnqueue api (success submit) =
      let identity = derive_identity submit deps.build in
      respond-IsEnqueue submit identity api (analysis_by_identity identity api.analyses)

  submit_analysis-IsEnqueue : (api : Api) → Leaves api (submit_analysis deps request api)
  unfolding submit_analysis
  submit_analysis-IsEnqueue api = handle-IsEnqueue api (parse_submit deps.issues request.body)

  -- Whatever statements fail.
  pub failing-IsEnqueue :
      (fates : List Fate) (api : Api)
      → Leaves api (Failing.outcome (Failing.Submit.submit_analysis deps request) fates api)
  failing-IsEnqueue fates api =
      let o = Failing.outcome (Failing.Submit.submit_analysis deps request) fates api in
      let by_whole = λ (e : o.api ≡ (submit_analysis deps request api).api).
        subst (λ (now : Api). IsEnqueue request.stamp api.jobs now.jobs) (sym e)
          (submit_analysis-IsEnqueue api) in
      elim (submit_analysis-IsCut deps request api fates) [
        | inl (answer, after, actions) ↦ by_whole after
        | inr (m, answer, failing, between, quiet) ↦ elim between.jobs [
          | inl same ↦ inl same
          | inr after ↦ by_whole after
        ]
      ]
