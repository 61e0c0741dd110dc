-- ===== src/Config.antt =====
-- api/src/config.ts: the configuration from the environment.
pub mod Valid
pub mod Groups
pub mod Start
pub mod Main
use battle_cloud.Common.{
  ℕ, zero, suc, ◌*◌, Bool, true, false, not, List, [], ◌∷◌, ◌++◌, map, Option, none, some, Text,
  text, filter, length, ◌==◌, if◌then◌else◌,
}
use battle_cloud.Strings.{split}
use battle_cloud.Strings.{trim}

-- `WorkerLaunchConfig`
pub record WorkerLaunchConfig : Type 0 where
  pub cluster : Text
  pub task_definition : Text
  pub subnet_ids : List Text
  pub security_group : Text
  pub max_tasks : ℕ

pub record ApiConfig : Type 0 where
  pub port : ℕ
  pub database_url : Text
  pub showdown_base_url : Text
  pub replay_max_bytes : ℕ
  pub replay_timeout_ms : ℕ
  pub submit_rate_limit_per_hour : ℕ
  pub poke_engine_tag : Text
  pub usage_stats_dataset : Text
  pub db_pool_max : ℕ
  pub worker_launch : Option WorkerLaunchConfig

-- A value, or a `ConfigError` with its message.
pub data Loaded {ℓ} (A : Type ℓ) : Type ℓ where
  ok : A → Loaded A
  config_error : Text → Loaded A

infixl 5 ◌>>=◌
abbrev pub ◌>>=◌ {ℓ κ} : {A : Type ℓ} {B : Type κ} → Loaded A → (A → Loaded B) → Loaded B
ok a >>= k = k a
config_error message >>= k = config_error message

-- `process.env`, and what the code takes from JavaScript: `Number(raw)` where it is a natural
-- number, and `JSON.stringify` of a string.
pub record Environment : Type 0 where
  pub lookup : Text → Option Text
  pub number : Text → Option ℕ
  pub stringify : Text → Text

abbrev pub is_empty : Text → Bool
is_empty [] = true
is_empty (c ∷ s) = false

abbrev pub or_else : Text → Option Text → Text
or_else fallback none = fallback
or_else fallback (some s) = s

-- `ids.join(', ')`
join_comma : List Text → Text
join_comma [] = []
join_comma (key ∷ []) = key
join_comma (key ∷ next ∷ keys) = key ++ (text ", " ++ join_comma (next ∷ keys))

-- `WORKER_LAUNCH_KEYS`
unfoldable pub worker_launch_keys : List Text
worker_launch_keys =
    text "WORKER_CLUSTER"
    ∷ text "WORKER_TASK_DEFINITION"
    ∷ text "WORKER_SUBNET_IDS"
    ∷ text "WORKER_SECURITY_GROUP"
    ∷ []

module _ (env : Environment) where
  -- `env[key] ?? ''`
  abbrev pub value : Text → Text
  value key = or_else [] (env.lookup key)

  abbrev not_positive : Text → Text → Loaded ℕ
  not_positive key raw =
      config_error (key ++ (text " must be a positive integer, got " ++ env.stringify raw))

  abbrev checked : Text → Text → Option ℕ → Loaded ℕ
  checked key raw none = not_positive key raw
  checked key raw (some zero) = not_positive key raw
  checked key raw (some (suc n)) = ok (suc n)

  abbrev int_of : Text → ℕ → Option Text → Loaded ℕ
  int_of key fallback none = ok fallback
  int_of key fallback (some []) = ok fallback
  int_of key fallback (some (c ∷ raw)) = checked key (c ∷ raw) (env.number (c ∷ raw))

  -- `int`
  unfoldable pub int : Text → ℕ → Loaded ℕ
  int key fallback = int_of key fallback (env.lookup key)

  unfoldable pub present_keys : List Text
  unfolding worker_launch_keys
  present_keys = filter (λ key. not (is_empty (value key))) worker_launch_keys

  unfoldable pub subnet_ids : List Text
  unfolding split trim
  subnet_ids =
      filter (λ id. not (is_empty id)) (map trim (split b',' (value (text "WORKER_SUBNET_IDS"))))

  abbrev with_subnets : List Text → Loaded (Option WorkerLaunchConfig)
  with_subnets [] = config_error (text "WORKER_SUBNET_IDS must list at least one subnet")
  with_subnets (id ∷ ids) = do
    max_tasks ← int (text "WORKER_MAX_TASKS") 2
    ok (
        some (record {
          cluster = value (text "WORKER_CLUSTER");
          task_definition = value (text "WORKER_TASK_DEFINITION");
          subnet_ids = id ∷ ids;
          security_group = value (text "WORKER_SECURITY_GROUP");
          max_tasks = max_tasks;
        }))

  -- `loadWorkerLaunch`: all of the keys, or none of them.
  unfoldable pub load_worker_launch : Loaded (Option WorkerLaunchConfig)
  unfolding present_keys subnet_ids int worker_launch_keys join_comma
  load_worker_launch =
      if length present_keys == 0
      then ok none
      else if not (length present_keys == length worker_launch_keys)
      then config_error (
          text "worker launch is partially configured: "
          ++ (join_comma present_keys
              ++ (text " set, "
                  ++ (join_comma (filter (λ key. is_empty (value key)) worker_launch_keys)
                      ++ text
                          " missing. Set all of them to start workers on submission, or none to leave it to the scheduled sweep."))))
      else with_subnets subnet_ids

  -- `loadConfig`
  unfoldable pub load_config : Loaded ApiConfig
  unfolding int load_worker_launch
  load_config =
      if is_empty (value (text "DATABASE_URL"))
      then config_error (text "DATABASE_URL is required")
      else do
        port ← int (text "PORT") 8080
        max_bytes ← int (text "REPLAY_MAX_BYTES") (5 * 1024 * 1024)
        timeout_ms ← int (text "REPLAY_TIMEOUT_MS") 20000
        rate_limit ← int (text "SUBMIT_RATE_LIMIT_PER_HOUR") 20
        pool_max ← int (text "DB_POOL_MAX") 10
        worker_launch ← load_worker_launch
        ok (record {
          port = port;
          database_url = value (text "DATABASE_URL");
          showdown_base_url =
              or_else (text "https://replay.pokemonshowdown.com/")
                (env.lookup (text "SHOWDOWN_BASE_URL"));
          replay_max_bytes = max_bytes;
          replay_timeout_ms = timeout_ms;
          submit_rate_limit_per_hour = rate_limit;
          poke_engine_tag = or_else (text "v0.0.48") (env.lookup (text "POKE_ENGINE_TAG"));
          usage_stats_dataset = or_else (text "2026-07") (env.lookup (text "USAGE_STATS_DATASET"));
          db_pool_max = pool_max;
          worker_launch = worker_launch;
        })
