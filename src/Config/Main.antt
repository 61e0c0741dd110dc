-- ===== src/Config/Main.antt =====
-- `main` of api/src/server.ts.
use battle_cloud.Common.{ℕ, Bool, if◌then◌else◌}
use battle_cloud.Config.{ApiConfig, ok, config_error, Environment, load_config}

-- How the process of api/src/server.ts ends up.
pub data Served : Type 0 where
  listening : ApiConfig → Served
  exited : ℕ → Served

-- `main`, where `listen` tells whether the port can be bound.
unfoldable pub main : Environment → (ℕ → Bool) → Served
unfolding load_config
main env listen = elim (load_config env) [
  | config_error message ↦ exited 2
  | ok config ↦ if listen config.port then listening config else exited 1
]
