-- ===== src/Tests/Lifecycles.antt =====
-- The life of a job.
use battle_cloud.Common.{◌≡◌, refl, Bool, true, false, List, [], ◌∷◌, some, Text, text, text_eq}
use battle_cloud.Contract.Profiles.{quick}
use battle_cloud.Contract.Identity.{derive_identity}
use battle_cloud.Store.Jobs.{succeeded, is_active, new_job}
use battle_cloud.Store.Jobs.Lifecycle.{
  Ticket, Claimant, enqueue_job, claim_job, complete_job, fail_job, apply, next_job, rows,
}
use battle_cloud.Store.Jobs.Lifecycle.Reached.{Reached, empty_table, after}
use battle_cloud.Tests.Inputs.{plain, build}
use battle_cloud.Tests.Submissions.{identity, stamp}

abbrev pub worker : Claimant
worker = record {
  worker_id = text "w";
  poke_engine_tag = build.poke_engine_tag;
  usage_stats_dataset = build.usage_stats_dataset;
}

abbrev pub nothing : Text → Bool
nothing id = false

abbrev pub enqueued : List Ticket
enqueued = apply plain 3 (enqueue_job stamp identity quick 9 1800) []

abbrev pub taken : List Ticket
taken = apply plain 3 (claim_job worker 60 nothing 8000) enqueued

abbrev pub finished : List Ticket
finished = apply plain 3 (complete_job (text "w") (text "b") (text "d") 9000) taken

pub taken-Reached : Reached plain 3 taken
taken-Reached =
    after (claim_job worker 60 nothing 8000) enqueued tt
      (after (enqueue_job stamp identity quick 9 1800) [] refl empty_table)

finished-Reached : Reached plain 3 finished
finished-Reached = after (complete_job (text "w") (text "b") (text "d") 9000) taken tt taken-Reached

-- The lease ran out, another worker has the job, and the first comes back too late.
abbrev late : List Ticket
late = apply plain 3 (fail_job (text "v") (text "b") true (text "engine_crashed") [] 9500) finished

finished_statuses :
    rows finished
    ≡ record (new_job stamp identity quick 9 1800) {
      status = succeeded;
      attempts = 1;
      analysis_id = some (text "d");
      updated_at = 9000;
    }
      ∷ []
unfolding apply next_job is_active new_job text text_eq derive_identity
finished_statuses = refl
