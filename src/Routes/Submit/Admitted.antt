-- ===== src/Routes/Submit/Admitted.antt =====
-- The state in which a submission that was answered 202 was enqueued.
use battle_cloud.Common.{
  ℕ, ◌≡◌, refl, sym, ap, text, Bool, true, false, List, Option, none, some, arith, Text,
  text_eq_refl,
}
use battle_cloud.Json.{get}
use battle_cloud.Contract.Identity.{AnalysisIdentity, SubmitRequest, derive_identity}
use battle_cloud.Contract.Schemas.{Parsed, parse_submit, success, failure}
use battle_cloud.Replay.Read.{replay_fetch_error, other_error, Result, ok, throw}
use battle_cloud.Replay.Fetch.{ReplayPayload, fetch_replay}
use battle_cloud.Store.Replays.{Rating, ReplayRow, replay_log, replay_log-upsert_replay}
use battle_cloud.Store.Analyses.{StoredAnalysis, analysis_by_identity}
use battle_cloud.RateLimit.{try_consume}
use battle_cloud.Routes.{status_of, status, status_of-not_202, fail, Deps, Api, Action, Outcome}
use battle_cloud.Routes.Submit.{
  Column, takes, refuses, checked_row, row_with, row_of, stored, turns_of, number_or_null, Request,
  kept, replay_row, log_or_fetch, obtain, accept, settle, admit, charge, respond, handle,
}

module _ (deps : Deps) where
  row_of-takes :
      (id : Text) (payload : ReplayPayload) (row : ReplayRow)
      → row_of deps id payload ≡ takes row
      → (row.id ≡ id) × (row.log ≡ payload.log)
  unfolding replay_row
  row_of-takes id payload row e =
      row_with-takes (number_or_null (get (text "rating") payload.raw)) e
    where
      checked_row-takes :
          (made : ReplayRow) (refusal : Option Text)
          → checked_row made refusal ≡ takes row
          → made ≡ row
      checked_row-takes made none e = cc
      checked_row-takes made (some m) e = cc

      row_with-takes :
          (rating : Column (Option Rating))
          → row_with deps id payload rating ≡ takes row
          → (row.id ≡ id) × (row.log ≡ payload.log)
      row_with-takes (refuses m) e = cc
      row_with-takes (takes rating) e =
          let made = replay_row id payload rating in
          let same = checked_row-takes made (deps.refusal made) e in
          (sym (ap (λ (r : ReplayRow). r.id) same), sym (ap (λ (r : ReplayRow). r.log) same))

  kept_log :
      (id : Text) (replays : List ReplayRow) (result : Result ReplayPayload) (turns : ℕ)
      → replay_log id replays ≡ none
      → (kept deps id replays result).0 ≡ ok turns
      → (log : Text) × (replay_log id (kept deps id replays result).1 ≡ some log)
  kept_log id replays (throw thrown) turns h e = cc
  kept_log id replays (ok payload) turns h e = kept_row (row_of deps id payload) refl e
    where
      kept_row :
          (row : Column ReplayRow)
          → row_of deps id payload ≡ row
          → (turns_of payload.log (stored row replays)).0 ≡ ok turns
          → (log : Text) × (replay_log id (turns_of payload.log (stored row replays)).1 ≡ some log)
      kept_row (refuses m) r e = cc
      kept_row (takes row) r e =
          let (same, log) = row_of-takes id payload row r in
          (row.log, rw (replay_log-upsert_replay id row replays, h, same, text_eq_refl id))

  -- Once a log was obtained, it is stored.
  log_or_fetch-stored :
      (id : Text) (replays : List ReplayRow) (found : Option Text) (turns : ℕ)
      → replay_log id replays ≡ found
      → (log_or_fetch deps id replays found).turns ≡ ok turns
      → (log : Text) × (replay_log id (log_or_fetch deps id replays found).replays ≡ some log)
  unfolding log_or_fetch
  log_or_fetch-stored id replays (some log) turns e h = (log, e)
  log_or_fetch-stored id replays none turns e h =
      kept_log id replays (fetch_replay deps.replay id).0 turns e h

  obtain-stored :
      (id : Text) (replays : List ReplayRow) (turns : ℕ)
      → (obtain deps id replays).turns ≡ ok turns
      → (log : Text) × (replay_log id (obtain deps id replays).replays ≡ some log)
  unfolding obtain
  obtain-stored id replays turns h =
      log_or_fetch-stored id replays (replay_log id replays) turns refl h

  -- An outcome that handed out a job, by the state in which the job was enqueued.
  pub record IsEnqueued (request : Request) (api : Api) (outcome : Outcome) : Type 0 where
    pub submit : SubmitRequest
    pub turns : ℕ
    pub before : Api
    pub actions : List Action
    pub log : Text
    pub parses : parse_submit deps.issues request.body ≡ success submit
    pub absent : analysis_by_identity (derive_identity submit deps.build) before.analyses ≡ none
    pub stored : replay_log submit.replay_id before.replays ≡ some log
    pub accepted :
        outcome
        ≡ accept deps request submit (derive_identity submit deps.build) turns before actions

  settle-enqueued :
      (request : Request) (submit : SubmitRequest) (identity : AnalysisIdentity) (api : Api)
      (actions : List Action) (turns : Result ℕ)
      → status (settle deps request submit identity api actions turns).answer ≡ 202
      → (n : ℕ) × (turns ≡ ok n)
        × (settle deps request submit identity api actions turns
            ≡ accept deps request submit identity n api actions)
  unfolding settle fail
  settle-enqueued request submit identity api actions (ok turns) h = (turns, refl, refl)
  settle-enqueued request submit identity api actions (throw (replay_fetch_error kind message)) h =
      absurd (status_of-not_202 kind h)
  settle-enqueued request submit identity api actions (throw (other_error message)) h =
      absurd (ground arith)

  admit-IsEnqueued :
      (request : Request) (submit : SubmitRequest) (api : Api) (allowed : Bool)
      → parse_submit deps.issues request.body ≡ success submit
      → analysis_by_identity (derive_identity submit deps.build) api.analyses ≡ none
      → let outcome = admit deps request submit (derive_identity submit deps.build) api allowed in
        status outcome.answer ≡ 202 → IsEnqueued request api outcome
  unfolding admit
  admit-IsEnqueued request submit api false p a h = absurd (ground arith)
  admit-IsEnqueued request submit api true p a h =
      let obtained = obtain deps submit.replay_id api.replays in
      let before : Api = record api { replays = obtained.replays } in
      let (n, got, same) =
        settle-enqueued request submit (derive_identity submit deps.build) before obtained.actions
          obtained.turns h in
      let (log, stored) = obtain-stored submit.replay_id api.replays n got in
      record {
        submit = submit;
        turns = n;
        before = before;
        actions = obtained.actions;
        log = log;
        parses = p;
        absent = a;
        stored = stored;
        accepted = same;
      }

  respond-IsEnqueued :
      (request : Request) (submit : SubmitRequest) (api : Api) (found : Option StoredAnalysis)
      → parse_submit deps.issues request.body ≡ success submit
      → analysis_by_identity (derive_identity submit deps.build) api.analyses ≡ found
      → let outcome = respond deps request submit (derive_identity submit deps.build) api found in
        status outcome.answer ≡ 202 → IsEnqueued request api outcome
  unfolding respond charge
  respond-IsEnqueued request submit api (some found) p a h = absurd (ground arith)
  respond-IsEnqueued request submit api none p a h =
      let (allowed, (limiter, windows)) =
        try_consume api.limiter request.ip request.at api.windows in
      let e =
        admit-IsEnqueued request submit (record api { limiter = limiter; windows = windows })
          allowed p a h in
      record {
        submit = e.submit;
        turns = e.turns;
        before = e.before;
        actions = e.actions;
        log = e.log;
        parses = e.parses;
        absent = e.absent;
        stored = e.stored;
        accepted = e.accepted;
      }

  pub handle-IsEnqueued :
      (request : Request) (api : Api) (parsed : Parsed SubmitRequest)
      → parse_submit deps.issues request.body ≡ parsed
      → status (handle deps request api parsed).answer ≡ 202
      → IsEnqueued request api (handle deps request api parsed)
  unfolding handle fail status_of
  handle-IsEnqueued request api (failure issues) p h = absurd (ground arith)
  handle-IsEnqueued request api (success submit) p h =
      respond-IsEnqueued request submit api
        (analysis_by_identity (derive_identity submit deps.build) api.analyses) p refl h
