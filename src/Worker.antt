-- ===== src/Worker.antt =====
-- api/src/worker.ts: the launcher that starts a worker task after a submission.
pub mod Bounded
use battle_cloud.Common.{
  ℕ, ◌+◌, Bool, true, false, List, [], ◌∷◌, ◌++◌, Option, none, some, Text, text, ltb, leb,
  if◌then◌else◌,
}
use battle_cloud.Contract.Uri.{decimal}
use battle_cloud.Config.{WorkerLaunchConfig}

-- What a `send` to ECS comes to: a value or a rejection after some milliseconds, or nothing.
pub data Reply {ℓ} (A : Type ℓ) : Type ℓ where
  resolved : ℕ → A → Reply A
  rejected : ℕ → Text → Reply A
  silent : Reply A

-- The two sends: the number of task ARNs in the answer to the one, `none` where it has no list, and
-- that the other was answered.
pub record Ecs : Type 0 where
  pub list_tasks : Text → Text → Reply (Option ℕ)
  pub run_task : WorkerLaunchConfig → Reply {0} Unit

-- What is done, in order.
pub data Step : Type 0 where
  listed : Text → Text → Step
  ran : WorkerLaunchConfig → Step
  skipped_at_cap : ℕ → Step
  task_started : ℕ → Step

-- `result.taskArns?.length ?? 0`
abbrev pub in_flight : Option ℕ → ℕ
in_flight none = 0
in_flight (some n) = n

-- An attempt: what it comes to, the steps up to its last `send`, and the step at its end.
pub record Attempt : Type 0 where
  pub settles : Reply {0} Unit
  pub steps : List Step
  pub last : List Step

-- `#run`, at some time, and the line that is logged behind it.
abbrev run_at : ℕ → ℕ → List Step → WorkerLaunchConfig → Reply {0} Unit → Attempt
run_at at n steps config (resolved after u) = record {
  settles = resolved (at + after) u;
  steps = steps ++ ran config ∷ [];
  last = task_started n ∷ [];
}
run_at at n steps config (rejected after cause) = record {
  settles = rejected (at + after) cause;
  steps = steps ++ ran config ∷ [];
  last = [];
}
run_at at n steps config silent = record {
  settles = silent;
  steps = steps ++ ran config ∷ [];
  last = [];
}

-- `#attempt` from the answer of `#countInFlight` on
abbrev counted : Ecs → WorkerLaunchConfig → Reply (Option ℕ) → Attempt
counted ecs config (rejected after cause) = record {
  settles = rejected after cause;
  steps = listed config.cluster config.task_definition ∷ [];
  last = [];
}
counted ecs config silent = record {
  settles = silent;
  steps = listed config.cluster config.task_definition ∷ [];
  last = [];
}
counted ecs config (resolved after arns) =
    let n = in_flight arns in
    let steps : List Step = listed config.cluster config.task_definition ∷ [] in
    if leb config.max_tasks n
    then record { settles = resolved after tt; steps = steps; last = skipped_at_cap n ∷ [] }
    else run_at after n steps config (ecs.run_task config)

-- `#attempt`
unfoldable pub attempt : Ecs → WorkerLaunchConfig → Attempt
attempt ecs config = counted ecs config (ecs.list_tasks config.cluster config.task_definition)

-- What a caller of `ensureRunning` sees: when it goes on, and what was logged as a warning.
pub record Race : Type 0 where
  pub at : ℕ
  pub warned : Option Text

abbrev expired : ℕ → Race
expired timeout = record {
  at = timeout;
  warned = some (text "ECS did not answer within " ++ (decimal timeout ++ text "ms"));
}

-- `Promise.race` with the timer, and the `catch`: it stands when nothing is there before it.
abbrev pub race : ℕ → Reply {0} Unit → Race
race timeout (resolved at u) =
    if ltb at timeout then record { at = at; warned = none } else expired timeout
race timeout (rejected at cause) =
    if ltb at timeout then record { at = at; warned = some cause } else expired timeout
race timeout silent = expired timeout

pub record Ended : Type 0 where
  pub caller : Race
  pub steps : List Step

-- `ensureRunning`, with the steps of the attempt, which goes on when the timer wins.
unfoldable pub ensure_running : Ecs → WorkerLaunchConfig → ℕ → Ended
unfolding attempt
ensure_running ecs config timeout =
    let a = attempt ecs config in
    record { caller = race timeout a.settles; steps = a.steps ++ a.last }

-- `createWorkerLauncher`: without a configuration `NO_LAUNCHER`, which does nothing, at once; the
-- timeout is the default one.
unfoldable pub launcher : Ecs → Option WorkerLaunchConfig → Ended
unfolding ensure_running
launcher ecs none = record { caller = record { at = 0; warned = none }; steps = [] }
launcher ecs (some config) = ensure_running ecs config 2000
