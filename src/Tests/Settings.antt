-- ===== src/Tests/Settings.antt =====
-- A configuration and a launch.
use battle_cloud.Common.{◌≤◌, ◌≡◌, refl, none, some, [], ◌∷◌, text, text_eq, if◌then◌else◌}
use battle_cloud.Worker.{Ecs, resolved, silent, attempt, ensure_running}
use battle_cloud.Worker.Bounded.{runs, succeeds_in, is_none, ensure_running-bounded}
use battle_cloud.Config.{ok, WorkerLaunchConfig, Environment, load_config, load_worker_launch}
use battle_cloud.Config.Valid.{IfLoaded, IsValid, load_config-IsValid}

-- Only the database is set.
abbrev env : Environment
env = record {
  lookup = λ key. if text_eq key (text "DATABASE_URL") then some (text "postgres:") else none;
  number = λ raw. none;
  stringify = λ raw. raw;
}

load_config-IsValid_example : IfLoaded IsValid (load_config env)
load_config-IsValid_example = load_config-IsValid env

no_launch : load_worker_launch env ≡ ok none
unfolding text text_eq load_worker_launch
no_launch = refl

-- One task in flight, a cap of two, and a host that is slow to start tasks.
abbrev ecs : Ecs
ecs = record { list_tasks = λ cluster family. resolved 40 (some 1); run_task = λ config. silent }

abbrev launch : WorkerLaunchConfig
launch = record {
  cluster = text "c";
  task_definition = text "t";
  subnet_ids = text "s" ∷ [];
  security_group = text "g";
  max_tasks = 2;
}

ensure_running-bounded_example :
    ((ensure_running ecs launch 2000).caller.at ≤ 2000)
    × (is_none (ensure_running ecs launch 2000).caller.warned
        ≡ succeeds_in 2000 (attempt ecs launch).settles)
    × (runs (ensure_running ecs launch 2000).steps ≡ 1)
ensure_running-bounded_example = ensure_running-bounded ecs launch 2000
