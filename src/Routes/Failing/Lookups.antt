-- ===== src/Routes/Failing/Lookups.antt =====
-- The reading handlers of api/src/routes.ts over a database that may fail.
use battle_cloud.Common.{◌≡◌, refl, List, [], ◌∷◌, Option, none, some, Text, text}
use battle_cloud.Platform.{Platform}
use battle_cloud.Replay.Read.{Result, ok, throw, other_error}
use battle_cloud.Store.Jobs.{job_by_id}
use battle_cloud.Store.Analyses.{analysis_by_id}
use battle_cloud.Routes.{Answer, Api, Outcome}
use battle_cloud.Routes.Lookups
use battle_cloud.Routes.Lookups.{by_uuid, analysis_answer, job_answer}
use battle_cloud.Routes.Failing.{
  Fate, done, refused, lost, Call, ◌>>=◌, pure, raise, attempt, statement, outcome, next_fate,
}

-- `.catch(() => null)`
abbrev or_null {ℓ} : {A : Type ℓ} → Result (Option A) → Option A
or_null (ok found) = found
or_null (throw thrown) = none

-- A statement with a parameter that is cast to `uuid`; a text that is refused fails it.
cast_to_uuid : {A : Type 0} → Option Text → (Text → Api → A) → Call A
cast_to_uuid none look = raise (other_error (text "invalid input syntax for type uuid"))
cast_to_uuid (some id) look = statement (λ api. (look id api, api))

module _ (p : Platform) where
  -- `GET /v1/analyses/:analysisId`
  unfoldable pub get_analysis : Text → Call Answer
  unfolding cast_to_uuid
  get_analysis id = do
    found ← attempt (cast_to_uuid (p.uuid id) (λ u api. analysis_by_id u api.analyses))
    pure (analysis_answer id (or_null found))

  -- `GET /v1/jobs/:jobId`
  unfoldable pub get_job : Text → Call Answer
  unfolding cast_to_uuid
  get_job id = do
    found ← attempt (cast_to_uuid (p.uuid id) (λ u api. job_by_id u api.jobs))
    pure (job_answer id (or_null found))

-- The answer of a lookup by how its statement fares; for an id that is no uuid there is none.
abbrev pub answer_by : Fate → Option Text → Answer → Answer → Answer
answer_by fate none found absent = found
answer_by done (some u) found absent = found
answer_by _ (some u) found absent = absent

-- The answer, with tables and outside as they were.
abbrev pub IsRead : Api → Answer → Outcome → Type 0
IsRead api answer o = (o.answer ≡ answer) × (o.api ≡ api) × (o.actions ≡ [])

cast_to_uuid-IsRead :
    {A : Type 0} (look : Text → Api → Option A) (answer : Option A → Answer) (u : Option Text)
    (fates : List Fate) (api : Api)
    → IsRead api
        (answer_by (next_fate fates) u (answer (by_uuid (λ v. look v api) u)) (answer none))
        (outcome
          (attempt (cast_to_uuid u look) >>= λ found. pure (answer (or_null found)))
          fates
          api)
unfolding cast_to_uuid
cast_to_uuid-IsRead look answer none fates api = (refl, refl, refl)
cast_to_uuid-IsRead look answer (some u) [] api = (refl, refl, refl)
cast_to_uuid-IsRead look answer (some u) (done ∷ fates) api = (refl, refl, refl)
cast_to_uuid-IsRead look answer (some u) (refused m ∷ fates) api = (refl, refl, refl)
cast_to_uuid-IsRead look answer (some u) (lost m ∷ fates) api = (refl, refl, refl)

module _ (p : Platform) (id : Text) (fates : List Fate) (api : Api) where
  -- Whatever becomes of the statement, both lookups leave the tables as they are and do nothing
  -- outside. The answer is the one over a database that does not fail, unless the id is a uuid and
  -- the statement fails: then it is the 404 of a job or an analysis that is not there.
  pub lookups-IsRead :
      IsRead api
        (answer_by (next_fate fates) (p.uuid id) (Lookups.get_job p id api) (job_answer id none))
        (outcome (get_job p id) fates api)
      × IsRead api
          (answer_by
            (next_fate fates)
            (p.uuid id)
            (Lookups.get_analysis p id api)
            (analysis_answer id none))
          (outcome (get_analysis p id) fates api)
  unfolding get_job Lookups.get_job get_analysis Lookups.get_analysis
  lookups-IsRead = (
    cast_to_uuid-IsRead (λ u api. job_by_id u api.jobs) (job_answer id) (p.uuid id) fates api,
    cast_to_uuid-IsRead (λ u api. analysis_by_id u api.analyses) (analysis_answer id) (p.uuid id)
        fates api,
  )
