-- ===== src/Tests/Failures.antt =====
-- Submissions and lookups over a database that fails.
use battle_cloud.Common.{◌≡◌, refl, ◌⊎◌, List, [], ◌∷◌, none, some, text, text_eq}
use battle_cloud.Store.Jobs.Enqueue.{IsUnique}
use battle_cloud.Store.Jobs.{job_by_id}
use battle_cloud.Routes.{Outcome, Api, status}
use battle_cloud.Contract.Schemas.{Parsed, success}
use battle_cloud.Routes.Listing
use battle_cloud.Routes.Listing.{ListQuery}
use battle_cloud.Routes.Failing.Listing.{
  list_analyses, IsAsked, IsReadOrFails, list_analyses-IsReadOrFails,
}
use battle_cloud.Routes.Lookups
use battle_cloud.Routes.Lookups.{job_answer, analysis_answer}
use battle_cloud.Routes.Failing.{Fate, done, refused, lost, outcome, next_fate}
use battle_cloud.Routes.Failing.Submit.{submit_analysis}
use battle_cloud.Routes.Failing.Cut.Submitted.{IsUndisturbed, IsInterrupted, submit_analysis-IsCut}
use battle_cloud.Routes.Failing.Retry.{IsJoinable, submit_analysis-IsJoinable}
use battle_cloud.Routes.Failing.Lookups.{get_job, get_analysis, answer_by, IsRead, lookups-IsRead}
use battle_cloud.Tests.Inputs.{plain, deps, empty_api, request_at}
use battle_cloud.Tests.Submissions.{empty-IsUnique, jobs}

-- The connection breaks behind the statement that enqueues.
abbrev fates : List Fate
fates = done ∷ done ∷ done ∷ done ∷ lost (text "gone") ∷ []

abbrev broken : Outcome
broken = outcome (submit_analysis deps (request_at 5 (text "a"))) fates empty_api

submit_analysis-IsCut_example :
    IsUndisturbed deps (request_at 5 (text "a")) empty_api broken
    ⊎ IsInterrupted deps (request_at 5 (text "a")) empty_api fates broken
submit_analysis-IsCut_example = submit_analysis-IsCut deps (request_at 5 (text "a")) empty_api fates

submit_analysis-IsJoinable_example :
    IsUnique broken.api.jobs
    × IsJoinable deps (request_at 5 (text "a")) empty_api (request_at 9 (text "c")) broken.api
submit_analysis-IsJoinable_example =
    submit_analysis-IsJoinable deps (request_at 5 (text "a")) empty_api fates
      (request_at 9 (text "c")) refl refl empty-IsUnique

abbrev failing : List Fate
failing = refused (text "down") ∷ []

abbrev filled : Api
filled = record empty_api { jobs = jobs }

lookups-IsRead_example :
    IsRead filled
      (answer_by
        (next_fate failing)
        (some (text "a"))
        (Lookups.get_job plain (text "a") filled)
        (job_answer (text "a") none))
      (outcome (get_job plain (text "a")) failing filled)
    × IsRead filled
        (answer_by
          (next_fate failing)
          (some (text "a"))
          (Lookups.get_analysis plain (text "a") filled)
          (analysis_answer (text "a") none))
        (outcome (get_analysis plain (text "a")) failing filled)
lookups-IsRead_example = lookups-IsRead plain (text "a") failing filled

abbrev first_page : Parsed ListQuery
first_page = success (record { limit = 1; cursor = none })

list_analyses-IsReadOrFails_example :
    IsReadOrFails plain
      (IsAsked plain first_page)
      filled
      failing
      (Listing.list_analyses plain first_page filled)
      (outcome (list_analyses plain first_page) failing filled)
list_analyses-IsReadOrFails_example = list_analyses-IsReadOrFails plain first_page failing filled

-- The job is there, and the client is told that it is not.
down : status (outcome (get_job plain (text "a")) failing filled).answer ≡ 404
unfolding get_job text job_answer
down = refl

up : status (outcome (get_job plain (text "a")) [] filled).answer ≡ 200
unfolding get_job text text_eq job_answer job_by_id
up = refl
