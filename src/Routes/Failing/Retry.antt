-- ===== src/Routes/Failing/Retry.antt =====
-- A submission over a database that may fail, and the same submission made again.
use battle_cloud.Common.{◌≡◌, sym, subst, ap, inl, inr, ◌⊎◌, List}
use battle_cloud.Store.Jobs.{StoredJob}
use battle_cloud.Store.Jobs.Enqueue.{IsUnique, IsFresh}
use battle_cloud.Routes.{Deps, Api, status}
use battle_cloud.Routes.Submit
use battle_cloud.Routes.Submit.{Request}
use battle_cloud.Routes.Submit.Queue.{submit_analysis-IsQueued}
use battle_cloud.Routes.Submit.Again.{IsJoined, submit_analysis_again}
use battle_cloud.Routes.Failing.{Fate, outcome}
use battle_cloud.Routes.Failing.Submit.{submit_analysis}
use battle_cloud.Routes.Failing.Cut.Submitted.{submit_analysis-IsCut}

module _ (deps : Deps) (first : Request) (api : Api) where
  -- The queue is as it was, or everything is as the submission means it to be.
  kept_or_whole :
      (fates : List Fate)
      → let o = outcome (submit_analysis deps first) fates api in
        (o.api.jobs ≡ api.jobs) ⊎ (o.api ≡ (Submit.submit_analysis deps first api).api)
  kept_or_whole fates = elim (submit_analysis-IsCut deps first api fates) [
    | inl (answer, after, actions) ↦ inr after
    | inr (m, answer, failing, between, quiet) ↦ between.jobs
  ]

  -- What is found after a submission: nothing queued, or a job that the same submission joins.
  abbrev pub IsJoinable : Request → Api → Type 0
  IsJoinable second now =
      (now.jobs ≡ api.jobs)
      ⊎ ((job : StoredJob) × IsJoined job now (Submit.submit_analysis deps second now))

  submit_analysis-IsJoinable_whole :
      (second : Request)
      → second.body ≡ first.body
      → IsFresh first.stamp.id api.jobs
      → IsUnique api.jobs
      → IsJoinable second (Submit.submit_analysis deps first api).api
  submit_analysis-IsJoinable_whole second same fresh unique =
      elim ((submit_analysis-IsQueued deps first api fresh unique).0) [
        | inl (refused, kept) ↦ inl kept
        | inr (job, created, answer, polled, live) ↦
            let (found, joined, answer', again) =
              submit_analysis_again deps first second api same (ap status answer) in
            inr (found, again)
      ]

  -- Whatever statements fail during a submission with a fresh id, over a table whose keys are
  -- unique: the keys stay unique, and either nothing was queued, or the same submission made again
  -- over a database that does not fail is refused by the limiter or handed the job that was queued,
  -- as not created, with queue and replays as they are and no replay fetched.
  pub submit_analysis-IsJoinable :
      (fates : List Fate) (second : Request)
      → second.body ≡ first.body
      → IsFresh first.stamp.id api.jobs
      → IsUnique api.jobs
      → let o = outcome (submit_analysis deps first) fates api in
        IsUnique o.api.jobs × IsJoinable second o.api
  submit_analysis-IsJoinable fates second same fresh unique = elim (kept_or_whole fates) [
    | inl kept ↦ (subst IsUnique (sym kept) unique, inl kept)
    | inr whole ↦ (
      subst (λ (now : Api). IsUnique now.jobs) (sym whole)
          (submit_analysis-IsQueued deps first api fresh unique).1,
      subst (IsJoinable second) (sym whole)
          (submit_analysis-IsJoinable_whole second same fresh unique),
    )
  ]
