-- ===== src/Routes/Submit/Again.antt =====
-- A submission that is made again.
use battle_cloud.Common.{
  ℕ, ◌≡◌, refl, ◌∙◌, ap, Bool, true, false, inl, inr, ◌⊎◌, List, [], ◌∷◌, ◌++◌, none, some, Text,
  text, find?, find?-append, Option-cases,
}
use battle_cloud.Contract.Profiles.{Profile}
use battle_cloud.Contract.Identity.{
  AnalysisIdentity, SubmitRequest, derive_identity, same_identity_iff,
}
use battle_cloud.Contract.Schemas.{parse_submit, success}
use battle_cloud.Replay.Estimate.{estimate_turns, estimate_duration}
use battle_cloud.Replay.Read.{ok, Effect}
use battle_cloud.Store.Replays.{ReplayRow, replay_log}
use battle_cloud.Store.Jobs.{
  JobStatus, queued, running, succeeded, failed, cancelled, JobRow, StoredJob, to_job, is_active,
  Stamp, new_job, enqueue,
}
use battle_cloud.Store.Analyses.{analysis_by_identity}
use battle_cloud.RateLimit.{try_consume}
use battle_cloud.Routes.Submit.Admitted.{IsEnqueued, handle-IsEnqueued}
use battle_cloud.Routes.{
  job_view, sent, submitted, location, status, Deps, Api, Action, network, launch, Outcome,
}
use battle_cloud.Routes.Submit.{
  Request, launches, log_or_fetch, obtain, accept, settle, admit, charge, respond, handle,
  submit_analysis,
}

-- What is asked of the network.
abbrev pub network_effects : List Action → List Effect
network_effects [] = []
network_effects (network e ∷ actions) = e ∷ network_effects actions
network_effects (launch ∷ actions) = network_effects actions

-- The answer is the limiter's, or the job again, as joined; queue and replays are as they were, and
-- the network is not asked.
abbrev pub IsJoined : StoredJob → Api → Outcome → Type 0
IsJoined job api outcome =
    ((status outcome.answer ≡ 429)
      ⊎ (outcome.answer
          ≡ sent 202 (location (text "/v1/jobs/" ++ job.id) ∷ []) (submitted (job_view job) false)))
    × (outcome.api.jobs ≡ api.jobs)
    × (outcome.api.replays ≡ api.replays)
    × (network_effects outcome.actions ≡ [])

-- The live row that a submission found or made is there for the next one.
enqueue_found :
    (stamp : Stamp) (identity : AnalysisIdentity) (profile : Profile) (turns ms : ℕ)
    (jobs : List JobRow) (row : JobRow)
    → find? (is_active identity) jobs ≡ some row
    → enqueue stamp identity profile turns ms jobs
      ≡ (record { job = to_job row; created = false }, jobs)
unfolding enqueue
enqueue_found stamp identity profile turns ms jobs row e = rw (e, enqueue)

enqueue_absent :
    (stamp : Stamp) (identity : AnalysisIdentity) (profile : Profile) (turns ms : ℕ)
    (jobs : List JobRow)
    → find? (is_active identity) jobs ≡ none
    → let row = new_job stamp identity profile turns ms in
      enqueue stamp identity profile turns ms jobs
      ≡ (record { job = to_job row; created = true }, jobs ++ row ∷ [])
unfolding enqueue
enqueue_absent stamp identity profile turns ms jobs e = rw (e, enqueue)

enqueue_again :
    (first : Stamp) (identity : AnalysisIdentity) (profile : Profile) (turns ms : ℕ)
    (jobs : List JobRow)
    → let result = enqueue first identity profile turns ms jobs in
      (second : Stamp) (turns' ms' : ℕ)
      → enqueue second identity profile turns' ms' result.1
        ≡ (record { job = result.0.job; created = false }, result.1)
enqueue_again first identity profile turns ms jobs second turns' ms' =
    elim (Option-cases (find? (is_active identity) jobs)) [
      | inr (row, e) ↦ rw (
        enqueue_found first identity profile turns ms jobs row e,
        enqueue_found second identity profile turns' ms' jobs row e,
      )
      | inl e ↦
          let row = new_job first identity profile turns ms in
          let active : is_active identity row ≡ true =
            unfold is_active new_job in (same_identity_iff identity identity).1 refl in
          let there : find? (is_active identity) (jobs ++ row ∷ []) ≡ some row =
            rw (find?-append (is_active identity) jobs (row ∷ []), e, active) in
          rw (
            enqueue_absent first identity profile turns ms jobs e,
            enqueue_found second identity profile turns' ms' (jobs ++ row ∷ []) row there,
          )
    ]

network_launches : (status : JobStatus) → network_effects (launches status) ≡ []
network_launches queued = refl
network_launches running = refl
network_launches succeeded = refl
network_launches failed = refl
network_launches cancelled = refl

module _ (deps : Deps) where
  obtain_again :
      (id log : Text) (replays : List ReplayRow)
      → replay_log id replays ≡ some log
      → obtain deps id replays
        ≡ record { turns = ok (estimate_turns log); replays = replays; actions = [] }
  unfolding obtain log_or_fetch
  obtain_again id log replays h = rw h

  accept_again :
      (second : Request) (submit : SubmitRequest) (identity : AnalysisIdentity) (turns : ℕ)
      (job : StoredJob) (api : Api)
      → ((stamp : Stamp) (n ms : ℕ)
          → enqueue stamp identity submit.profile n ms api.jobs
            ≡ (record { job = job; created = false }, api.jobs))
      → IsJoined job api (accept deps second submit identity turns api [])
  unfolding accept
  accept_again second submit identity turns job api again =
      rw (again second.stamp turns (estimate_duration turns submit.profile))
        (inr refl, refl, refl, network_launches job.status)

  admit_again :
      (second : Request) (submit : SubmitRequest) (identity : AnalysisIdentity) (job : StoredJob)
      (log : Text) (api : Api) (allowed : Bool)
      → ((stamp : Stamp) (n ms : ℕ)
          → enqueue stamp identity submit.profile n ms api.jobs
            ≡ (record { job = job; created = false }, api.jobs))
      → replay_log submit.replay_id api.replays ≡ some log
      → IsJoined job api (admit deps second submit identity api allowed)
  unfolding admit settle
  admit_again second submit identity job log api false again stored = (inl refl, refl, refl, refl)
  admit_again second submit identity job log api true again stored =
      rw (obtain_again submit.replay_id log api.replays stored)
        (accept_again second submit identity (estimate_turns log) job api again)

  handle_again :
      (second : Request) (api : Api) (submit : SubmitRequest) (job : StoredJob) (log : Text)
      → let identity = derive_identity submit deps.build in
        analysis_by_identity identity api.analyses ≡ none
        → ((stamp : Stamp) (n ms : ℕ)
            → enqueue stamp identity submit.profile n ms api.jobs
              ≡ (record { job = job; created = false }, api.jobs))
        → replay_log submit.replay_id api.replays ≡ some log
        → IsJoined job api (handle deps second api (success submit))
  unfolding handle respond charge
  handle_again second api submit job log absent again stored =
      let (allowed, (limiter, windows)) = try_consume api.limiter second.ip second.at api.windows in
      rw absent (
        admit_again second submit (derive_identity submit deps.build) job log
          (record api { limiter = limiter; windows = windows }) allowed again stored)

  -- What a second submission with the same body finds.
  abbrev pub IsRepeated : Request → Outcome → Type 0
  IsRepeated second outcome =
      (job : StoredJob) × (created : Bool) × (outcome.answer
        ≡ sent 202 (location (text "/v1/jobs/" ++ job.id) ∷ []) (submitted (job_view job) created))
      × IsJoined job outcome.api (submit_analysis deps second outcome.api)

  enqueued_again :
      (first second : Request) (api : Api) (outcome : Outcome)
      → second.body ≡ first.body
      → IsEnqueued deps first api outcome
      → IsRepeated second outcome
  unfolding submit_analysis accept
  enqueued_again first second api outcome same e =
      let identity = derive_identity e.submit deps.build in
      let ms = estimate_duration e.turns e.submit.profile in
      let result = enqueue first.stamp identity e.submit.profile e.turns ms e.before.jobs in
      let parses : parse_submit deps.issues second.body ≡ success e.submit =
        ap (parse_submit deps.issues) same ∙ e.parses in
      let again = enqueue_again first.stamp identity e.submit.profile e.turns ms e.before.jobs in
      rw e.accepted (
        result.0.job,
        result.0.created,
        refl,
        rw parses (
            handle_again second (record e.before { jobs = result.1 }) e.submit result.0.job e.log
              e.absent again e.stored),
      )

  -- A submission that was answered 202, made again with the same body, whatever the address, the
  -- time and the fresh id: it is refused by the limiter, or answered 202 with the same job as not
  -- created. Either way the queue and the replays stay as they were, and no replay is fetched.
  pub submit_analysis_again :
      (first second : Request) (api : Api)
      → second.body ≡ first.body
      → status (submit_analysis deps first api).answer ≡ 202
      → IsRepeated second (submit_analysis deps first api)
  submit_analysis_again first second api same h =
      enqueued_again first second api (submit_analysis deps first api) same (
        unfold submit_analysis in
        handle-IsEnqueued deps first api (parse_submit deps.issues first.body) refl h)
