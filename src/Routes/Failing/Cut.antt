-- ===== src/Routes/Failing/Cut.antt =====
-- What a submission leaves when a statement fails.
pub mod Submitted
use battle_cloud.Common.{
  ℕ, ◌+◌, ◌≡◌, refl, Bool, true, false, ◌||◌, inl, inr, ◌⊎◌, List, [], ◌∷◌, ◌++◌, map, Option, none,
  some, Text, arith, Bool-cases, Option-cases, ltb, if◌then◌else◌,
}
use battle_cloud.Contract.Identity.{AnalysisIdentity, SubmitRequest, derive_identity}
use battle_cloud.Contract.Schemas.{Parsed, parse_submit, success, failure}
use battle_cloud.Replay.Estimate.{estimate_turns}
use battle_cloud.Replay.Read.{replay_fetch_error, other_error, Result, ok, throw, Effect}
use battle_cloud.Replay.Fetch.{ReplayPayload, fetch_replay}
use battle_cloud.Store.Windows.{Window, consume_rate_limit, sweep_rate_limits}
use battle_cloud.Store.Replays.{ReplayRow, replay_log, upsert_replay}
use battle_cloud.Store.Analyses.{StoredAnalysis, analysis_by_identity}
use battle_cloud.RateLimit
use battle_cloud.RateLimit.{RateLimiter, window_start}
use battle_cloud.Routes.{Answer, crashed, Deps, Api, Action, network, launch, Outcome}
use battle_cloud.Routes.Submit
use battle_cloud.Routes.Submit.{Request, Column, takes, refuses, row_of, stored}
use battle_cloud.Routes.Failing.{
  statement, Fate, done, refused, lost, Session, Call, pure, attempt, ◌>>◌, ◌>>=◌, next_fate,
  later_fates, answered, outcome,
}
use battle_cloud.Routes.Failing.Submit.{
  returned, swept, sweep, try_consume, kept, log_or_fetch, obtain, accept, settle, admit, respond,
  handle, submit_analysis,
}

abbrev pub is_launched : List Action → Bool
is_launched [] = false
is_launched (launch ∷ actions) = true
is_launched (network e ∷ actions) = is_launched actions

is_launched-network : (effects : List Effect) → is_launched (map network effects) ≡ false
is_launched-network [] = refl
is_launched-network (e ∷ effects) = is_launched-network effects

-- Some statement fails.
abbrev pub fails : List Fate → Bool
fails [] = false
fails (done ∷ fates) = fails fates
fails (refused m ∷ fates) = true
fails (lost m ∷ fates) = true

-- Tables between those before a submission and those behind it, with the windows in which it is
-- counted and nothing is swept yet: a job is there only when everything else is done.
pub record IsBetween (before : Api) (counted swept : List Window) (after now : Api) : Type 0 where
  pub analyses : now.analyses ≡ before.analyses
  pub replays : (now.replays ≡ before.replays) ⊎ (now.replays ≡ after.replays)
  pub windows : (now.windows ≡ before.windows) ⊎ ((now.windows ≡ counted) ⊎ (now.windows ≡ swept))
  pub jobs : (now.jobs ≡ before.jobs) ⊎ (now ≡ after)

-- What the undisturbed submission does, or a throw.
abbrev pub IsWhole : Outcome → Result Answer × Session → Type 0
IsWhole whole (result, s) =
    (answered result ≡ whole.answer) × (s.api ≡ whole.api) × (s.actions ≡ whole.actions)

abbrev pub IsBroken :
    Api → List Window → List Window → List Fate → Api → Result Answer × Session → Type 0
IsBroken before counted swept fates after (result, s) =
    (m : Text) × (result ≡ throw (other_error m))
    × (fails fates ≡ true)
    × IsBetween before counted swept after s.api
    × (is_launched s.actions ≡ false)

abbrev pub IsCut :
    Api → List Window → List Window → List Fate → Outcome → Result Answer × Session → Type 0
IsCut before counted swept fates whole r =
    IsWhole whole r ⊎ IsBroken before counted swept fates whole.api r

module _ (deps : Deps) (request : Request) (submit : SubmitRequest)
    (identity : AnalysisIdentity) where
  module _ (before : Api) (counted swept : List Window) where
    accept-IsCut :
        (turns : ℕ) (api : Api) (fates : List Fate) (actions : List Action)
        → api.analyses ≡ before.analyses
        → api.jobs ≡ before.jobs
        → api.windows ≡ swept
        → is_launched actions ≡ false
        → IsCut before counted swept fates
            (Submit.accept deps request submit identity turns api actions)
            (accept deps request submit identity turns
              (record { api = api; fates = fates; actions = actions }))
    unfolding accept Submit.accept
    accept-IsCut turns api [] actions a j w quiet = inl (refl, refl, refl)
    accept-IsCut turns api (done ∷ fates) actions a j w quiet = inl (refl, refl, refl)
    accept-IsCut turns api (refused m ∷ fates) actions a j w quiet = inr (
      m,
      refl,
      refl,
      record { analyses = a; replays = inr refl; windows = inr (inr w); jobs = inl j },
      quiet,
    )
    accept-IsCut turns api (lost m ∷ fates) actions a j w quiet = inr (
      m,
      refl,
      refl,
      record { analyses = a; replays = inr refl; windows = inr (inr w); jobs = inr refl },
      quiet,
    )

    settle-IsCut :
        (turns : Result ℕ) (api : Api) (fates : List Fate) (actions : List Action)
        → api.analyses ≡ before.analyses
        → api.jobs ≡ before.jobs
        → api.windows ≡ swept
        → is_launched actions ≡ false
        → IsCut before counted swept fates
            (Submit.settle deps request submit identity api actions turns)
            (settle deps request submit identity turns
              (record { api = api; fates = fates; actions = actions }))
    unfolding settle Submit.settle
    settle-IsCut (ok turns) api fates actions a j w quiet =
        accept-IsCut turns api fates actions a j w quiet
    settle-IsCut (throw (replay_fetch_error kind message)) api fates actions a j w quiet =
        inl (refl, refl, refl)
    settle-IsCut (throw (other_error message)) api fates actions a j w quiet =
        inl (refl, refl, refl)

    -- From the statement that stores a replay on.
    stored-IsCut :
        (log : Text) (row : Column ReplayRow) (actions : List Action) (api : Api)
        (fates : List Fate)
        → api.analyses ≡ before.analyses
        → api.jobs ≡ before.jobs
        → api.windows ≡ swept
        → api.replays ≡ before.replays
        → is_launched actions ≡ false
        → let o = Submit.turns_of log (stored row api.replays) in
          IsCut before counted swept fates
            (Submit.settle deps request submit identity (record api { replays = o.1 }) actions o.0)
            ((attempt (
                  statement (λ api.
                    let (result, replays) = stored row api.replays in
                    (result, record api { replays = replays }))
                  >>= λ result. returned result >> pure (estimate_turns log))
                >>= settle deps request submit identity)
              (record { api = api; fates = fates; actions = actions }))
    unfolding settle Submit.settle Submit.accept
    stored-IsCut log (takes row) actions api [] a j w r quiet =
        settle-IsCut (ok (estimate_turns log))
          (record api { replays = upsert_replay row api.replays }) [] actions a j w quiet
    stored-IsCut log (refuses e) actions api [] a j w r quiet =
        settle-IsCut (throw (other_error e)) api [] actions a j w quiet
    stored-IsCut log (takes row) actions api (done ∷ fates) a j w r quiet =
        settle-IsCut (ok (estimate_turns log))
          (record api { replays = upsert_replay row api.replays }) fates actions a j w quiet
    stored-IsCut log (refuses e) actions api (done ∷ fates) a j w r quiet =
        settle-IsCut (throw (other_error e)) api fates actions a j w quiet
    stored-IsCut log row actions api (refused m ∷ fates) a j w r quiet = inr (
      m,
      refl,
      refl,
      record { analyses = a; replays = inl r; windows = inr (inr w); jobs = inl j },
      quiet,
    )
    stored-IsCut log (takes row) actions api (lost m ∷ fates) a j w r quiet = inr (
      m,
      refl,
      refl,
      record { analyses = a; replays = inr refl; windows = inr (inr w); jobs = inl j },
      quiet,
    )
    stored-IsCut log (refuses e) actions api (lost m ∷ fates) a j w r quiet = inr (
      m,
      refl,
      refl,
      record { analyses = a; replays = inl r; windows = inr (inr w); jobs = inl j },
      quiet,
    )

    -- The `try` over a replay that is not stored.
    kept-IsCut :
        (payload : Result ReplayPayload) (effects : List Effect) (api : Api) (fates : List Fate)
        → api.analyses ≡ before.analyses
        → api.jobs ≡ before.jobs
        → api.windows ≡ swept
        → api.replays ≡ before.replays
        → let o = Submit.kept deps submit.replay_id api.replays payload in
          IsCut before counted swept fates
            (Submit.settle deps request submit identity
              (record api { replays = o.1 })
              (map network effects)
              o.0)
            ((attempt (kept deps submit.replay_id (payload, effects))
                >>= settle deps request submit identity)
              (record { api = api; fates = fates; actions = [] }))
    unfolding kept settle Submit.settle Submit.accept
    kept-IsCut (throw thrown) effects api fates a j w r =
        settle-IsCut (throw thrown) api fates (map network effects) a j w
          (is_launched-network effects)
    kept-IsCut (ok payload) effects api fates a j w r =
        stored-IsCut payload.log (row_of deps submit.replay_id payload) (map network effects) api
          fates a j w r (is_launched-network effects)

    log_or_fetch-IsCut :
        (found : Option Text) (api : Api) (fates : List Fate)
        → api.analyses ≡ before.analyses
        → api.jobs ≡ before.jobs
        → api.windows ≡ swept
        → api.replays ≡ before.replays
        → let o = Submit.log_or_fetch deps submit.replay_id api.replays found in
          IsCut before counted swept fates
            (Submit.settle deps request submit identity
              (record api { replays = o.replays })
              o.actions
              o.turns)
            ((attempt (log_or_fetch deps submit.replay_id found)
                >>= settle deps request submit identity)
              (record { api = api; fates = fates; actions = [] }))
    unfolding log_or_fetch Submit.log_or_fetch
    log_or_fetch-IsCut none api fates a j w r =
        let (payload, effects) = fetch_replay deps.replay submit.replay_id in
        kept-IsCut payload effects api fates a j w r
    log_or_fetch-IsCut (some log) api fates a j w r =
        settle-IsCut (ok (estimate_turns log)) api fates [] a j w refl

    admit-IsCut :
        (allowed : Bool) (api : Api) (fates : List Fate)
        → api.analyses ≡ before.analyses
        → api.jobs ≡ before.jobs
        → api.windows ≡ swept
        → api.replays ≡ before.replays
        → IsCut before counted swept fates (Submit.admit deps request submit identity api allowed) (
            admit deps request submit identity allowed
              (record { api = api; fates = fates; actions = [] }))
    unfolding admit Submit.admit obtain Submit.obtain
    admit-IsCut false api fates a j w r = inl (refl, refl, refl)
    admit-IsCut true api [] a j w r =
        log_or_fetch-IsCut (replay_log submit.replay_id api.replays) api [] a j w r
    admit-IsCut true api (done ∷ fates) a j w r =
        log_or_fetch-IsCut (replay_log submit.replay_id api.replays) api fates a j w r
    admit-IsCut true api (refused m ∷ fates) a j w r = inr (
      m,
      refl,
      refl,
      record { analyses = a; replays = inl r; windows = inr (inr w); jobs = inl j },
      refl,
    )
    admit-IsCut true api (lost m ∷ fates) a j w r = inr (
      m,
      refl,
      refl,
      record { analyses = a; replays = inl r; windows = inr (inr w); jobs = inl j },
      refl,
    )
