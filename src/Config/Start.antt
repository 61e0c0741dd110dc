-- ===== src/Config/Start.antt =====
-- The start of an instance: `resolveDatabaseUrl` of api/src/lambda.ts in front of the `loadConfig` that
-- `buildServer` of api/src/server.ts calls.
use battle_cloud.Common.{
  ◌*◌, ◌≡◌, ◌≢◌, sym, ap, ◌⊎◌, inl, inr, refl, subst, true, false, not, List, [], ◌∷◌, ◌++◌, Option,
  none, some, Text, text, text_eq, Bool-cases, if◌then◌else◌,
}
use battle_cloud.Config.{
  ApiConfig, Loaded, ok, config_error, ◌>>=◌, Environment, is_empty, or_else, value, int,
  load_worker_launch, load_config,
}
use battle_cloud.Config.Valid.{IfLoaded}

-- What `ssm.send` gives: `result.Parameter?.Value`, or an exception.
pub data Reading : Type 0 where
  parameter : Option Text → Reading
  read_error : Text → Reading

pub data Outcome {ℓ} (A : Type ℓ) : Type ℓ where
  done : A → Outcome A
  thrown : Text → Outcome A

-- The outcome, and the names that were read from the store of parameters.
pub record Resolved {ℓ} (A : Type ℓ) : Type ℓ where
  pub outcome : Outcome A
  pub reads : List Text

-- `env['DATABASE_URL'] = value`
abbrev pub with_database_url : Text → Environment → Environment
with_database_url url env = record env {
  lookup = λ key. if text_eq key (text "DATABASE_URL") then some url else env.lookup key;
}

abbrev pub put_value : Environment → Text → Text → Outcome Environment
put_value env name [] = thrown (
    text "SSM parameter "
    ++ (name ++ text " is empty; the connection string was never written to it"))
put_value env name (c ∷ url) = done (with_database_url (c ∷ url) env)

abbrev pub put : Environment → Text → Reading → Outcome Environment
put env name (parameter found) = put_value env name (or_else [] found)
put env name (read_error message) = thrown message

abbrev pub read_name : Environment → (Text → Reading) → Text → Resolved Environment
read_name env ssm [] = record { outcome = done env; reads = [] }
read_name env ssm (c ∷ name) = record {
  outcome = put env (c ∷ name) (ssm (c ∷ name));
  reads = (c ∷ name) ∷ [];
}

-- `resolveDatabaseUrl`
unfoldable pub resolve_database_url : Environment → (Text → Reading) → Resolved Environment
resolve_database_url env ssm =
    if not (is_empty (value env (text "DATABASE_URL")))
    then record { outcome = done env; reads = [] }
    else read_name env ssm (value env (text "DATABASE_URL_PARAMETER"))

abbrev pub loaded_config : Loaded ApiConfig → Outcome ApiConfig
loaded_config (ok config) = done config
loaded_config (config_error message) = thrown message

abbrev pub loaded : Outcome Environment → Outcome ApiConfig
loaded (done env) = loaded_config (load_config env)
loaded (thrown message) = thrown message

-- `ready`, as far as the configuration.
unfoldable pub start : Environment → (Text → Reading) → Resolved ApiConfig
unfolding resolve_database_url load_config
start env ssm =
    let resolved = resolve_database_url env ssm in
    record { outcome = loaded resolved.outcome; reads = resolved.reads }

after_any {ℓ κ} :
    {A : Type ℓ} {B : Type κ} (Q : B → Type 0) (m : Loaded A) (k : A → Loaded B)
    → ((a : A) → IfLoaded Q (k a))
    → IfLoaded Q (m >>= k)
after_any Q (ok a) k f = f a
after_any Q (config_error message) k f = tt

-- A configuration has the connection string of its environment.
abbrev HasUrl : Environment → ApiConfig → Type 0
HasUrl env config = config.database_url ≡ value env (text "DATABASE_URL")

load_config-HasUrl : (env : Environment) → IfLoaded (HasUrl env) (load_config env)
unfolding load_config
load_config-HasUrl env = elim (Bool-cases (is_empty (value env (text "DATABASE_URL")))) [
  | inl e ↦ rw e tt
  | inr e ↦ rw e (
      after_any (HasUrl env) (int env (text "PORT") 8080) _ (λ port.
        after_any (HasUrl env) (int env (text "REPLAY_MAX_BYTES") (5 * 1024 * 1024)) _ (λ max_bytes.
          after_any (HasUrl env) (int env (text "REPLAY_TIMEOUT_MS") 20000) _ (λ timeout_ms.
            after_any (HasUrl env) (int env (text "SUBMIT_RATE_LIMIT_PER_HOUR") 20) _ (λ rate_limit.
              after_any (HasUrl env) (int env (text "DB_POOL_MAX") 10) _ (λ pool_max.
                after_any (HasUrl env) (load_worker_launch env) _ (λ launch. refl)))))))
]

loaded_config-sound :
    (Q : ApiConfig → Type 0) (m : Loaded ApiConfig) (config : ApiConfig)
    → IfLoaded Q m
    → loaded_config m ≡ done config
    → Q config
loaded_config-sound Q (ok a) config h k = let same : a ≡ config = cc k in subst Q same h
loaded_config-sound Q (config_error message) config h k = cc k

loaded-url :
    (env : Environment) (config : ApiConfig)
    → loaded (done env) ≡ done config
    → config.database_url ≡ value env (text "DATABASE_URL")
loaded-url env config h =
    loaded_config-sound (HasUrl env) (load_config env) config (load_config-HasUrl env) h

load_config-missing :
    (env : Environment)
    → is_empty (value env (text "DATABASE_URL")) ≡ true
    → load_config env ≡ config_error (text "DATABASE_URL is required")
unfolding load_config
load_config-missing env h = rw h refl

loaded-missing :
    (env : Environment) (config : ApiConfig)
    → is_empty (value env (text "DATABASE_URL")) ≡ true
    → loaded (done env) ≢ done config
loaded-missing env config h k =
    let refused = ap loaded_config (load_config-missing env h) in cc (refused, k)

put-url :
    (env : Environment) (name : Text) (reading : Reading) (config : ApiConfig)
    → loaded (put env name reading) ≡ done config
    → reading ≡ parameter (some config.database_url)
unfolding text text_eq
put-url env name (parameter none) config h = cc h
put-url env name (parameter (some [])) config h = cc h
put-url env name (parameter (some (c ∷ url))) config h =
    ap (λ s. parameter (some s)) (sym (loaded-url (with_database_url (c ∷ url) env) config h))
put-url env name (read_error message) config h = cc h

-- Where the connection string of a configuration is from.
abbrev pub FromEnvironment : Environment → List Text → ApiConfig → Type 0
FromEnvironment env reads config =
    (config.database_url ≡ value env (text "DATABASE_URL"))
    × (value env (text "DATABASE_URL") ≢ [])
    × (reads ≡ [])

abbrev pub FromStore : Environment → (Text → Reading) → Text → List Text → ApiConfig → Type 0
FromStore env ssm name reads config =
    (ssm name ≡ parameter (some config.database_url))
    × (value env (text "DATABASE_URL") ≡ [])
    × (reads ≡ name ∷ [])

empty_text : (s : Text) → is_empty s ≡ true → s ≡ []
empty_text [] h = refl
empty_text (c ∷ s) h = cc h

filled_text : (s : Text) → is_empty s ≡ false → s ≢ []
filled_text s h k = cc (h, ap is_empty k)

read_name-FromStore :
    (env : Environment) (ssm : Text → Reading) (name : Text) (config : ApiConfig)
    → is_empty (value env (text "DATABASE_URL")) ≡ true
    → loaded ((read_name env ssm name).outcome) ≡ done config
    → FromStore env ssm name ((read_name env ssm name).reads) config
read_name-FromStore env ssm [] config h k = absurd (loaded-missing env config h k)
read_name-FromStore env ssm (c ∷ name) config h k = (
  put-url env (c ∷ name) (ssm (c ∷ name)) config k,
  empty_text (value env (text "DATABASE_URL")) h,
  refl,
)

resolve_empty :
    (env : Environment) (ssm : Text → Reading)
    → is_empty (value env (text "DATABASE_URL")) ≡ true
    → resolve_database_url env ssm ≡ read_name env ssm (value env (text "DATABASE_URL_PARAMETER"))
unfolding resolve_database_url
resolve_empty env ssm h = rw h refl

resolve_filled :
    (env : Environment) (ssm : Text → Reading)
    → is_empty (value env (text "DATABASE_URL")) ≡ false
    → resolve_database_url env ssm ≡ record { outcome = done env; reads = [] }
unfolding resolve_database_url
resolve_filled env ssm h = rw h refl

abbrev HasSource : Environment → (Text → Reading) → ApiConfig → Resolved Environment → Type 0
HasSource env ssm config resolved =
    loaded resolved.outcome ≡ done config
    → FromEnvironment env resolved.reads config
      ⊎ FromStore env ssm (value env (text "DATABASE_URL_PARAMETER")) resolved.reads config

-- An instance that starts has its connection string from the environment, which wins and for which
-- nothing is read, or else from the one parameter that the environment names, which is read once.
pub start-source :
    (env : Environment) (ssm : Text → Reading) (config : ApiConfig)
    → (start env ssm).outcome ≡ done config
    → FromEnvironment env ((start env ssm).reads) config
      ⊎ FromStore env ssm (value env (text "DATABASE_URL_PARAMETER")) ((start env ssm).reads) config
unfolding start
start-source env ssm config h = elim (Bool-cases (is_empty (value env (text "DATABASE_URL")))) [
  | inl e ↦
      subst (HasSource env ssm config) (sym (resolve_empty env ssm e))
        (λ k.
          inr (read_name-FromStore env ssm (value env (text "DATABASE_URL_PARAMETER")) config e k))
        h
  | inr e ↦
      subst (HasSource env ssm config) (sym (resolve_filled env ssm e))
        (λ k. inl (loaded-url env config k, filled_text (value env (text "DATABASE_URL")) e, refl))
        h
]
