-- ===== src/Web/Polling/Followed.antt =====
-- The polling of a job against the API that serves it.
use battle_cloud.Common.{
  ℕ, suc, ◌+◌, ◌≡◌, ◌⊎◌, inl, inr, refl, ap, ◌∙◌, arith, true, List, [], ◌∷◌, ◌++◌, Option, none,
  some, Text, text, text_eq, length, All,
}
use battle_cloud.Json
use battle_cloud.Json.{Json}
use battle_cloud.Contract.Uri.{encode_uri_component}
use battle_cloud.Store.Jobs.{StoredJob, queued, running, succeeded, job_by_id}
use battle_cloud.Routes
use battle_cloud.Routes.{Api, JobView, Body, job_view, sent}
use battle_cloud.Routes.Lookups
use battle_cloud.Routes.Lookups.{job_answer}
use battle_cloud.Routes.Wire.{body_json, status_text}
use battle_cloud.Routes.Wire.Finite.{job-IsFinite}
use battle_cloud.Web.Client
use battle_cloud.Web.Client.{HttpRequest, Fetched, Browser, Got, got, request}
use battle_cloud.Web.Client.Served.{Wire, carried, IsLawful, request-sent}
use battle_cloud.Web.Polling.{Poller, Event, replied, timer, mounted, asking, stopped, step, run}

module _ (wire : Wire) (browser : Browser) (network : Api → HttpRequest → Fetched)
    (id path : Text) where
  -- The request for the job reaches the handler with its id.
  pub record IsServing : Type 0 where
    pub lawful : IsLawful browser
    pub encoded : encode_uri_component id ≡ some path
    pub reached :
        (api : Api)
        → network api (record { method = text "GET"; path = text "/v1/jobs/" ++ path; body = none })
          ≡ carried wire browser (Lookups.get_job wire.platform id api)
    pub canonical : wire.platform.uuid id ≡ some id

  -- What a poll gets from the API in a state.
  abbrev pub polled : Api → Got Json
  polled api = Client.get_job browser (network api) id

  -- A poll in each state, with the timer after each.
  abbrev pub polls : List Api → List Event
  polls [] = []
  polls (api ∷ apis) = replied (polled api) ∷ timer ∷ polls apis

  -- The job is queued or running.
  pub record IsWaiting (api : Api) : Type 0 where
    pub row : StoredJob
    pub there : job_by_id id api.jobs ≡ some row
    pub active : (row.status ≡ queued) ⊎ (row.status ≡ running)

  -- The job has succeeded, with that analysis.
  pub record IsDone (analysis : Text) (api : Api) : Type 0 where
    pub row : StoredJob
    pub there : job_by_id id api.jobs ≡ some row
    pub done : row.status ≡ succeeded
    pub linked : row.analysis_id ≡ some analysis

  abbrev shown_json : StoredJob → Json
  shown_json row = body_json wire.platform (Routes.job (job_view row))

  polled_found :
      (api : Api) (row : StoredJob)
      → IsServing
      → job_by_id id api.jobs ≡ some row
      → polled api ≡ got (shown_json row)
  unfolding Client.get_job
  polled_found api row serving there =
      let answer : Lookups.get_job wire.platform id api ≡ sent 200 [] (Routes.job (job_view row)) =
        unfold Lookups.get_job job_answer in rw (serving.canonical, there) refl in
      rw serving.encoded (
        request-sent wire browser (network api) (text "/v1/jobs/" ++ path) []
          (Routes.job (job_view row)) serving.lawful
          (serving.reached api ∙ ap (carried wire browser) answer)
          (job-IsFinite wire.platform (job_view row)))

  -- A view that waits for its `n`th reply.
  abbrev asking_at : Json → ℕ → Poller
  asking_at json n = record {
    shown = record { job = json; error = none; visited = [] };
    live = true;
    phase = asking;
    requests = n;
  }

  -- A view that has gone to an analysis after so many requests, and asks no more.
  abbrev pub gone_to : Text → Json → ℕ → Poller
  gone_to analysis json n = record {
    shown = record { job = json; error = none; visited = (text "/a/" ++ analysis) ∷ [] };
    live = true;
    phase = stopped;
    requests = n;
  }

  module _ (display : Option Json → Text) where
    step_waiting :
        (json : Json) (n : ℕ) (view : JobView)
        → (view.status ≡ queued) ⊎ (view.status ≡ running)
        → run display
            (asking_at json n)
            (replied (got (body_json wire.platform (Routes.job view))) ∷ timer ∷ [])
          ≡ asking_at (body_json wire.platform (Routes.job view)) (suc n)
    unfolding run step body_json Json.get text text_eq status_text
    step_waiting json n view (inl h) = rw h refl
    step_waiting json n view (inr h) = rw h refl

    step_done :
        (json : Json) (n : ℕ) (view : JobView) (analysis : Text)
        → view.status ≡ succeeded
        → view.analysis_id ≡ some analysis
        → run display
            (asking_at json n)
            (replied (got (body_json wire.platform (Routes.job view))) ∷ [])
          ≡ gone_to analysis (body_json wire.platform (Routes.job view)) n
    unfolding run step body_json Json.get text text_eq status_text
    step_done json n view analysis h k = rw (h, k) refl

    run_waiting :
        (json : Json) (n : ℕ) (apis : List Api) (analysis : Text) (final : Api)
        (done : IsDone analysis final)
        → IsServing
        → All IsWaiting apis
        → run display (asking_at json n) (polls apis ++ replied (polled final) ∷ [])
          ≡ gone_to analysis (shown_json done.row) (n + length apis)
    unfolding job_view run
    run_waiting json n [] analysis final done serving h =
        rw (polled_found final done.row serving done.there) (
          step_done json n (job_view done.row) analysis done.done done.linked
          ∙ ap (gone_to analysis (shown_json done.row)) (omega arith))
    run_waiting json n (api ∷ apis) analysis final done serving h =
        let row : StoredJob = h.0.row in
        let rest = replied (polled final) ∷ [] in
        let next = step_waiting json n (job_view row) h.0.active in
        rw (polled_found api row serving h.0.there) (
          ap (λ poller. run display poller (polls apis ++ rest)) next
          ∙ (run_waiting (shown_json row) (suc n) apis analysis final done serving h.1
              ∙ ap (gone_to analysis (shown_json done.row)) (omega arith)))

    -- Where the API serves the job: the view asks again through every state in which the job is
    -- queued or running, and at the first in which it has succeeded with an analysis it goes to that
    -- analysis, shows no error, and asks no more. It has made one request for each state.
    pub run-polls :
        (apis : List Api) (analysis : Text) (final : Api) (done : IsDone analysis final)
        → IsServing
        → All IsWaiting apis
        → run display mounted (polls apis ++ replied (polled final) ∷ [])
          ≡ gone_to analysis (shown_json done.row) (suc (length apis))
    run-polls apis analysis final done serving h =
        run_waiting Json.null 1 apis analysis final done serving h
        ∙ ap (gone_to analysis (shown_json done.row)) (omega arith)
