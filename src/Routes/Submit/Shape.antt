-- ===== src/Routes/Submit/Shape.antt =====
-- Which body goes with which status in the answer to a submission.
use battle_cloud.Common.{ℕ, ◌<◌, ◌≡◌, refl, Bool, true, false, List, Option, none, some, arith}
use battle_cloud.Contract.Errors.{ErrorKind}
use battle_cloud.Contract.Identity.{AnalysisIdentity, SubmitRequest, derive_identity}
use battle_cloud.Contract.Schemas.{Parsed, parse_submit, success, failure}
use battle_cloud.Replay.Read.{replay_fetch_error, other_error, Result, ok, throw}
use battle_cloud.Store.Analyses.{StoredAnalysis, analysis_by_identity}
use battle_cloud.RateLimit.{try_consume}
use battle_cloud.Routes.{
  Answer, sent, crashed, Body, error, analysis, submitted, status_of, fail, Deps, Api, Action,
}
use battle_cloud.Routes.Submit.{
  Request, obtain, accept, settle, admit, charge, respond, handle, submit_analysis,
}

abbrev pub HasShape : ℕ → Body → Type 0
HasShape code (analysis e) = code ≡ 200
HasShape code (submitted view created) = code ≡ 202
HasShape code (error kind message) = 299 < code
HasShape code _ = ⊥

-- An analysis has 200, a job 202, and an error a status above 299; nothing else is sent.
abbrev pub IsShaped : Answer → Type 0
IsShaped (sent code headers body) = HasShape code body
IsShaped (crashed message) = Unit

status_of_above : (kind : ErrorKind) → 299 < status_of kind
unfolding status_of
status_of_above kind = ground arith

module _ (deps : Deps) (request : Request) where
  settle-IsShaped :
      (submit : SubmitRequest) (identity : AnalysisIdentity) (api : Api) (actions : List Action)
      (turns : Result ℕ)
      → IsShaped (settle deps request submit identity api actions turns).answer
  unfolding settle accept fail
  settle-IsShaped submit identity api actions (ok turns) = refl
  settle-IsShaped submit identity api actions (throw (replay_fetch_error kind message)) =
      status_of_above kind
  settle-IsShaped submit identity api actions (throw (other_error message)) = tt

  admit-IsShaped :
      (submit : SubmitRequest) (identity : AnalysisIdentity) (api : Api) (allowed : Bool)
      → IsShaped (admit deps request submit identity api allowed).answer
  unfolding admit
  admit-IsShaped submit identity api false = omega arith
  admit-IsShaped submit identity api true =
      let obtained = obtain deps submit.replay_id api.replays in
      settle-IsShaped submit identity (record api { replays = obtained.replays }) obtained.actions
        obtained.turns

  respond-IsShaped :
      (submit : SubmitRequest) (identity : AnalysisIdentity) (api : Api)
      (found : Option StoredAnalysis)
      → IsShaped (respond deps request submit identity api found).answer
  unfolding respond charge
  respond-IsShaped submit identity api (some found) = refl
  respond-IsShaped submit identity api none =
      let (allowed, (limiter, windows)) =
        try_consume api.limiter request.ip request.at api.windows in
      admit-IsShaped submit identity (record api { limiter = limiter; windows = windows }) allowed

  handle-IsShaped :
      (api : Api) (parsed : Parsed SubmitRequest) → IsShaped (handle deps request api parsed).answer
  unfolding handle fail status_of
  handle-IsShaped api (failure issues) = omega arith
  handle-IsShaped api (success submit) =
      let identity = derive_identity submit deps.build in
      respond-IsShaped submit identity api (analysis_by_identity identity api.analyses)

  pub submit_analysis-IsShaped : (api : Api) → IsShaped (submit_analysis deps request api).answer
  unfolding submit_analysis
  submit_analysis-IsShaped api = handle-IsShaped api (parse_submit deps.issues request.body)
