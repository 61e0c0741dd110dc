-- ===== src/Worker/Bounded.antt =====
-- What a launch costs the caller, and what it starts.
use battle_cloud.Common.{
  ℕ, ◌+◌, ◌≤◌, ◌≡◌, refl, Bool, true, false, inl, inr, List, [], ◌∷◌, ◌++◌, Option, none, some,
  arith, Text, ltb, leb, Bool-cases, if◌then◌else◌,
}
use battle_cloud.Config.{WorkerLaunchConfig}
use battle_cloud.Worker.{
  Reply, resolved, rejected, silent, Ecs, Step, listed, ran, skipped_at_cap, task_started,
  in_flight, attempt, counted, run_at, race, ensure_running,
}

-- How many tasks are asked for.
abbrev pub runs : List Step → ℕ
runs [] = 0
runs (ran config ∷ steps) = 1 + runs steps
runs (listed cluster family ∷ steps) = runs steps
runs (skipped_at_cap n ∷ steps) = runs steps
runs (task_started n ∷ steps) = runs steps

-- One task is wanted when the count is known and below the cap.
abbrev pub wanted : ℕ → Reply (Option ℕ) → ℕ
wanted max (resolved at arns) = if leb max (in_flight arns) then 0 else 1
wanted max (rejected at cause) = 0
wanted max silent = 0

-- When the attempt has come to its good end.
abbrev pub succeeds_in : ℕ → Reply {0} Unit → Bool
succeeds_in timeout (resolved at u) = ltb at timeout
succeeds_in timeout (rejected at cause) = false
succeeds_in timeout silent = false

race-at : (timeout : ℕ) (r : Reply {0} Unit) → (race timeout r).at ≤ timeout
race-at timeout (resolved at u) = ground arith
race-at timeout (rejected at cause) = ground arith
race-at timeout silent = omega arith

abbrev pub is_none : Option Text → Bool
is_none none = true
is_none (some s) = false

race-warned :
    (timeout : ℕ) (r : Reply {0} Unit) → is_none (race timeout r).warned ≡ succeeds_in timeout r
race-warned timeout (resolved at u) = ground arith
race-warned timeout (rejected at cause) = ground arith
race-warned timeout silent = refl

module _ (ecs : Ecs) (config : WorkerLaunchConfig) where
  run_at-runs :
      (at n : ℕ) (reply : Reply {0} Unit)
      → let a = run_at at n (listed config.cluster config.task_definition ∷ []) config reply in
        runs (a.steps ++ a.last) ≡ 1
  run_at-runs at n (resolved after u) = refl
  run_at-runs at n (rejected after cause) = refl
  run_at-runs at n silent = refl

  counted-runs :
      (reply : Reply (Option ℕ))
      → let a = counted ecs config reply in runs (a.steps ++ a.last) ≡ wanted config.max_tasks reply
  counted-runs (rejected at cause) = refl
  counted-runs silent = refl
  counted-runs (resolved at arns) = elim (Bool-cases (leb config.max_tasks (in_flight arns))) [
    | inl e ↦ rw e refl
    | inr e ↦ rw e (run_at-runs at (in_flight arns) (ecs.run_task config))
  ]

  -- Whatever ECS does, the caller goes on within the timeout, and sees no warning exactly when the
  -- attempt came to a good end before it. One task is asked for when the tasks in flight are known
  -- and fewer than the cap, and none otherwise.
  pub ensure_running-bounded :
      (timeout : ℕ)
      → let ended = ensure_running ecs config timeout in
        (ended.caller.at ≤ timeout)
        × (is_none ended.caller.warned ≡ succeeds_in timeout (attempt ecs config).settles)
        × (runs ended.steps
            ≡ wanted config.max_tasks (ecs.list_tasks config.cluster config.task_definition))
  unfolding ensure_running
  ensure_running-bounded timeout = (
    race-at timeout (attempt ecs config).settles,
    race-warned timeout (attempt ecs config).settles,
    unfold attempt in counted-runs (ecs.list_tasks config.cluster config.task_definition),
  )
