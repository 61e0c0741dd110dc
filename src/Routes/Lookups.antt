-- ===== src/Routes/Lookups.antt =====
-- The handlers of api/src/routes.ts that look one thing up, and the probes.
use battle_cloud.Common.{
  ◌≡◌, sym, ap, ◌∙◌, subst, Bool, List, [], ◌++◌, Option, none, some, Text, text, inl, inr,
}
use battle_cloud.Platform.{Platform}
use battle_cloud.Contract.Errors.{analysis_not_found}
use battle_cloud.Store.Jobs.{StoredJob, job_by_id}
use battle_cloud.Store.Jobs.Enqueue.{IsUnique, IsFresh}
use battle_cloud.Store.Analyses.{StoredAnalysis, analysis_by_id}
use battle_cloud.Routes.{
  JobView, envelope, job_view, Answer, Body, sent, analysis, job, submitted, status, fail, Deps,
  Api, Header,
}
use battle_cloud.Routes.Submit.{Request, submit_analysis}
use battle_cloud.Routes.Submit.Queue.{submit_analysis-IsQueued}

-- An id that the cast to `uuid` refuses fails the statement, which the handlers catch.
abbrev pub by_uuid {ℓ} : {A : Type ℓ} → (Text → Option A) → Option Text → Option A
by_uuid look none = none
by_uuid look (some id) = look id

unfoldable pub analysis_answer : Text → Option StoredAnalysis → Answer
unfolding envelope fail
analysis_answer id none = fail analysis_not_found (text "no analysis " ++ id)
analysis_answer id (some found) = sent 200 [] (analysis (envelope found))

unfoldable pub job_answer : Text → Option StoredJob → Answer
unfolding job_view fail
job_answer id none = fail analysis_not_found (text "no job " ++ id)
job_answer id (some found) = sent 200 [] (job (job_view found))

module _ (p : Platform) where
  -- `GET /v1/analyses/:analysisId`
  unfoldable pub get_analysis : Text → Api → Answer
  unfolding analysis_answer
  get_analysis id api =
      analysis_answer id (by_uuid (λ u. analysis_by_id u api.analyses) (p.uuid id))

  -- `GET /v1/jobs/:jobId`
  unfoldable pub get_job : Text → Api → Answer
  unfolding job_answer
  get_job id api = job_answer id (by_uuid (λ u. job_by_id u api.jobs) (p.uuid id))

get_job_found :
    (p : Platform) (found : StoredJob) (api : Api)
    → p.uuid found.id ≡ some found.id
    → job_by_id found.id api.jobs ≡ some found
    → get_job p found.id api ≡ sent 200 [] (job (job_view found))
unfolding get_job job_answer
get_job_found p found api canonical there = rw (canonical, there)

body_of : Answer → Option Body
body_of (sent code headers body) = some body
body_of _ = none

view_of : Option Body → Option JobView
view_of (some (submitted view created)) = some view
view_of _ = none

module _ (p : Platform) (deps : Deps) (request : Request) (api : Api) where
  -- Under unique keys and with a fresh id, a job that a submission hands out can be polled at once under the id in the reply, in the
  -- form that the database prints it in: the poll is answered 200 with the same view of the job.
  pub get_job-submit_analysis :
      (headers : List Header) (view : JobView) (created : Bool)
      → IsFresh request.stamp.id api.jobs
      → IsUnique api.jobs
      → (submit_analysis deps request api).answer ≡ sent 202 headers (submitted view created)
      → p.uuid view.job_id ≡ some view.job_id
      → get_job p view.job_id (submit_analysis deps request api).api ≡ sent 200 [] (job view)
  unfolding view_of body_of job_view
  get_job-submit_analysis headers view created fresh unique h canonical =
      elim ((submit_analysis-IsQueued deps request api fresh unique).0) [
        | inl (refused, same) ↦ absurd (refused (ap status h))
        | inr (found, c, answer, polled, live) ↦
            let same : some view ≡ some (job_view found) =
              ap (λ a. view_of (body_of a)) (sym h ∙ answer) in
            let view_eq : view ≡ job_view found = cc same in
            subst
              (λ v.
                p.uuid v.job_id ≡ some v.job_id
                → get_job p v.job_id (submit_analysis deps request api).api ≡ sent 200 [] (job v))
              (sym view_eq)
              (λ k.
                get_job_found p found (submit_analysis deps request api).api (unfold job_view in k)
                  polled)
              canonical
      ]
