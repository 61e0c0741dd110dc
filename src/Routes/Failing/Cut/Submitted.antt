-- ===== src/Routes/Failing/Cut/Submitted.antt =====
-- A whole submission over a database that may fail.
use battle_cloud.Common.{
  ℕ, ◌+◌, ◌≡◌, refl, ap, Bool, true, false, inl, inr, ◌⊎◌, List, [], ◌∷◌, Option, none, some, Text,
  ltb, if◌then◌else◌,
}
use battle_cloud.Contract.Identity.{AnalysisIdentity, SubmitRequest, derive_identity}
use battle_cloud.Contract.Schemas.{Parsed, parse_submit, success, failure}
use battle_cloud.Store.Windows.{Window, consume_rate_limit, sweep_rate_limits}
use battle_cloud.Store.Analyses.{StoredAnalysis, analysis_by_identity}
use battle_cloud.RateLimit
use battle_cloud.RateLimit.{RateLimiter, window_start}
use battle_cloud.Routes.{crashed, Deps, Api, Outcome}
use battle_cloud.Routes.Submit
use battle_cloud.Routes.Submit.{Request, replay_row}
use battle_cloud.Routes.Failing.{Fate, done, refused, lost, pure, ◌>>◌, ◌>>=◌, answered, outcome}
use battle_cloud.Routes.Failing.Submit.{
  swept, sweep, try_consume, admit, respond, handle, submit_analysis,
}
use battle_cloud.Routes.Failing.Cut.{fails, is_launched, IsBetween, IsCut, admit-IsCut}

abbrev swept_at : ℕ → Api → Api
swept_at at api = record api {
  limiter = record api.limiter { last_sweep = at };
  windows = sweep_rate_limits (window_start api.limiter.window_ms at) api.windows;
}

abbrev swept_or : Bool → ℕ → Api → RateLimiter × List Window
swept_or early at api = if early then (api.limiter, api.windows) else (
  record api.limiter { last_sweep = at },
  sweep_rate_limits (window_start api.limiter.window_ms at) api.windows,
)

abbrev pub counted_for : Request → Api → List Window
counted_for request api =
    (consume_rate_limit request.ip (window_start api.limiter.window_ms request.at) api.limiter.limit
      api.windows).1

abbrev pub swept_for : Request → Api → List Window
swept_for request api = (RateLimit.try_consume api.limiter request.ip request.at api.windows).1.1

module _ (deps : Deps) (request : Request) (submit : SubmitRequest)
    (identity : AnalysisIdentity) where
  -- From `sweep` on, with whether it is too early for one.
  swept-IsCut :
      (early allowed : Bool) (before api : Api) (fates : List Fate)
      → api.analyses ≡ before.analyses
      → api.jobs ≡ before.jobs
      → api.replays ≡ before.replays
      → let (limiter, windows) = swept_or early request.at api in
        IsCut before api.windows windows fates
          (Submit.admit deps request submit identity
            (record api { limiter = limiter; windows = windows })
            allowed)
          ((((λ s. if early then pure tt s else swept request.at s) >> pure allowed)
              >>= admit deps request submit identity)
            (record { api = api; fates = fates; actions = [] }))
  unfolding swept
  swept-IsCut true allowed before api fates a j r =
      admit-IsCut deps request submit identity before api.windows api.windows allowed api fates a j
        refl r
  swept-IsCut false allowed before api [] a j r =
      admit-IsCut deps request submit identity before api.windows
        (sweep_rate_limits (window_start api.limiter.window_ms request.at) api.windows) allowed
        (swept_at request.at api) [] a j refl r
  swept-IsCut false allowed before api (done ∷ fates) a j r =
      admit-IsCut deps request submit identity before api.windows
        (sweep_rate_limits (window_start api.limiter.window_ms request.at) api.windows) allowed
        (swept_at request.at api) fates a j refl r
  swept-IsCut false allowed before api (refused m ∷ fates) a j r = inr (
    m,
    refl,
    refl,
    record { analyses = a; replays = inl r; windows = inr (inl refl); jobs = inl j },
    refl,
  )
  swept-IsCut false allowed before api (lost m ∷ fates) a j r = inr (
    m,
    refl,
    refl,
    record { analyses = a; replays = inl r; windows = inr (inr refl); jobs = inl j },
    refl,
  )

  charge-IsCut :
      (api : Api) (fates : List Fate)
      → IsCut api
          (counted_for request api)
          (swept_for request api)
          fates
          (Submit.charge deps request submit identity api)
          (respond deps request submit identity none
            (record { api = api; fates = fates; actions = [] }))
  unfolding respond Submit.charge try_consume RateLimit.try_consume sweep RateLimit.sweep
  charge-IsCut api [] =
      let start = window_start api.limiter.window_ms request.at in
      let (allowed, windows) = consume_rate_limit request.ip start api.limiter.limit api.windows in
      let early = ltb request.at (api.limiter.last_sweep + api.limiter.window_ms) in
      swept-IsCut early allowed api (record api { windows = windows }) [] refl refl refl
  charge-IsCut api (done ∷ fates) =
      let start = window_start api.limiter.window_ms request.at in
      let (allowed, windows) = consume_rate_limit request.ip start api.limiter.limit api.windows in
      let early = ltb request.at (api.limiter.last_sweep + api.limiter.window_ms) in
      swept-IsCut early allowed api (record api { windows = windows }) fates refl refl refl
  charge-IsCut api (refused m ∷ fates) = inr (
    m,
    refl,
    refl,
    record { analyses = refl; replays = inl refl; windows = inl refl; jobs = inl refl },
    refl,
  )
  charge-IsCut api (lost m ∷ fates) = inr (
    m,
    refl,
    refl,
    record { analyses = refl; replays = inl refl; windows = inr (inl refl); jobs = inl refl },
    refl,
  )

  respond-IsCut :
      (found : Option StoredAnalysis) (api : Api) (fates : List Fate)
      → IsCut api
          (counted_for request api)
          (swept_for request api)
          fates
          (Submit.respond deps request submit identity api found)
          (respond deps request submit identity found
            (record { api = api; fates = fates; actions = [] }))
  unfolding respond Submit.respond
  respond-IsCut (some found) api fates = inl (refl, refl, refl)
  respond-IsCut none api fates = charge-IsCut api fates

module _ (deps : Deps) (request : Request) where
  handle-IsCut :
      (parsed : Parsed SubmitRequest) (api : Api) (fates : List Fate)
      → IsCut api
          (counted_for request api)
          (swept_for request api)
          fates
          (Submit.handle deps request api parsed)
          (handle deps request parsed (record { api = api; fates = fates; actions = [] }))
  unfolding handle Submit.handle
  handle-IsCut (failure issues) api fates = inl (refl, refl, refl)
  handle-IsCut (success submit) api [] =
      let identity = derive_identity submit deps.build in
      respond-IsCut deps request submit identity (analysis_by_identity identity api.analyses) api []
  handle-IsCut (success submit) api (done ∷ fates) =
      let identity = derive_identity submit deps.build in
      respond-IsCut deps request submit identity (analysis_by_identity identity api.analyses) api
        fates
  handle-IsCut (success submit) api (refused m ∷ fates) = inr (
    m,
    refl,
    refl,
    record { analyses = refl; replays = inl refl; windows = inl refl; jobs = inl refl },
    refl,
  )
  handle-IsCut (success submit) api (lost m ∷ fates) = inr (
    m,
    refl,
    refl,
    record { analyses = refl; replays = inl refl; windows = inl refl; jobs = inl refl },
    refl,
  )

  -- A submission over a database of which statements may fail: answer, tables and actions are those
  -- of the submission over one that does not fail.
  abbrev pub IsUndisturbed : Api → Outcome → Type 0
  IsUndisturbed api o =
      let whole = Submit.submit_analysis deps request api in
      (o.answer ≡ whole.answer) × (o.api ≡ whole.api) × (o.actions ≡ whole.actions)

  -- A statement fails, and the framework answers 500.
  abbrev pub IsInterrupted : Api → List Fate → Outcome → Type 0
  IsInterrupted api fates o =
      (m : Text) × (o.answer ≡ crashed m)
      × (fails fates ≡ true)
      × IsBetween api (counted_for request api) (swept_for request api)
          (Submit.submit_analysis deps request api).api o.api
      × (is_launched o.actions ≡ false)

  -- Whatever statements fail during a submission, before or after they take effect: it does and
  -- answers what it would over a database that does not fail, or the client gets a 500 because a
  -- statement failed, and then no worker is launched, the analyses are as they were, the replays are
  -- those before or after, the client is charged once at most, and the queue is as it was unless
  -- everything else is done too.
  pub submit_analysis-IsCut :
      (api : Api) (fates : List Fate)
      → let o = outcome (submit_analysis deps request) fates api in
        IsUndisturbed api o ⊎ IsInterrupted api fates o
  unfolding submit_analysis Submit.submit_analysis
  submit_analysis-IsCut api fates =
      elim (handle-IsCut (parse_submit deps.issues request.body) api fates) [
        | inl whole ↦ inl whole
        | inr (m, thrown, failing, between, quiet) ↦
            inr (m, ap answered thrown, failing, between, quiet)
      ]
