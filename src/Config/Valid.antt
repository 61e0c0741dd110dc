-- ===== src/Config/Valid.antt =====
-- What a configuration that loads is like.
use battle_cloud.Common.{
  ℕ, zero, suc, ◌≡◌, ◌≢◌, ◌<◌, ◌*◌, false, not, inl, inr, List, [], ◌∷◌, Option, none, some, arith,
  Text, text, length, ◌==◌, Bool-cases,
}
use battle_cloud.Config.{
  WorkerLaunchConfig, ApiConfig, Loaded, ok, config_error, ◌>>=◌, Environment, is_empty, value, int,
  present_keys, subnet_ids, worker_launch_keys, load_worker_launch, load_config, with_subnets,
  int_of, checked,
}

pub record IsLaunchable (c : WorkerLaunchConfig) : Type 0 where
  pub subnets : c.subnet_ids ≢ []
  pub tasks : 0 < c.max_tasks

abbrev pub IsLaunch : Option WorkerLaunchConfig → Type 0
IsLaunch none = Unit
IsLaunch (some c) = IsLaunchable c

pub record IsValid (c : ApiConfig) : Type 0 where
  pub database : c.database_url ≢ []
  pub port : 0 < c.port
  pub max_bytes : 0 < c.replay_max_bytes
  pub timeout : 0 < c.replay_timeout_ms
  pub rate_limit : 0 < c.submit_rate_limit_per_hour
  pub pool : 0 < c.db_pool_max
  pub launch : IsLaunch c.worker_launch

-- What is left of a loaded value.
abbrev pub IfLoaded {ℓ} : {A : Type ℓ} → (A → Type 0) → Loaded A → Type 0
IfLoaded P (ok a) = P a
IfLoaded P (config_error message) = Unit

pub bind-loaded {ℓ κ} :
    {A : Type ℓ} {B : Type κ} (P : A → Type 0) (Q : B → Type 0) (m : Loaded A) (k : A → Loaded B)
    → IfLoaded P m
    → ((a : A) → P a → IfLoaded Q (k a))
    → IfLoaded Q (m >>= k)
bind-loaded P Q (ok a) k h f = f a h
bind-loaded P Q (config_error message) k h f = tt

not_empty : (s : Text) → is_empty s ≡ false → s ≢ []
not_empty [] h k = cc
not_empty (c ∷ s) h k = ground arith

module _ (env : Environment) where
  checked-positive : (key raw : Text) (n : Option ℕ) → IfLoaded (λ n. 0 < n) (checked env key raw n)
  checked-positive key raw none = tt
  checked-positive key raw (some zero) = tt
  checked-positive key raw (some (suc n)) = omega arith

  int_of-positive :
      (key : Text) (fallback : ℕ) (raw : Option Text)
      → 0 < fallback
      → IfLoaded (λ n. 0 < n) (int_of env key fallback raw)
  int_of-positive key fallback none h = h
  int_of-positive key fallback (some []) h = h
  int_of-positive key fallback (some (c ∷ raw)) h =
      checked-positive key (c ∷ raw) (env.number (c ∷ raw))

  int-positive :
      (key : Text) (fallback : ℕ) → 0 < fallback → IfLoaded (λ n. 0 < n) (int env key fallback)
  unfolding int
  int-positive key fallback h = int_of-positive key fallback (env.lookup key) h

  with_subnets-launch : (ids : List Text) → IfLoaded IsLaunch (with_subnets env ids)
  with_subnets-launch [] = tt
  with_subnets-launch (id ∷ ids) =
      bind-loaded (λ n. 0 < n) IsLaunch (int env (text "WORKER_MAX_TASKS") 2) _
        (int-positive (text "WORKER_MAX_TASKS") 2 (omega arith))
        (λ n h. record { subnets = λ e. ground arith; tasks = h })

  load_worker_launch-IsLaunch : IfLoaded IsLaunch (load_worker_launch env)
  unfolding load_worker_launch
  load_worker_launch-IsLaunch = elim (Bool-cases (length (present_keys env) == 0)) [
    | inl e ↦ rw e tt
    | inr e ↦ elim (Bool-cases (not (length (present_keys env) == length worker_launch_keys))) [
      | inl f ↦ rw (e, f) tt
      | inr f ↦ rw (e, f) (with_subnets-launch (subnet_ids env))
    ]
  ]

  -- A configuration that loads has a database, positive numbers throughout, and a worker launch,
  -- if any, with at least one subnet and a positive cap.
  pub load_config-IsValid : IfLoaded IsValid (load_config env)
  unfolding load_config
  load_config-IsValid = elim (Bool-cases (is_empty (value env (text "DATABASE_URL")))) [
    | inl e ↦ rw e tt
    | inr e ↦ rw e (
        bind-loaded (λ n. 0 < n) IsValid (int env (text "PORT") 8080) _
          (int-positive (text "PORT") 8080 (omega arith))
          (λ port h1.
            bind-loaded (λ n. 0 < n) IsValid (int env (text "REPLAY_MAX_BYTES") (5 * 1024 * 1024)) _
              (int-positive (text "REPLAY_MAX_BYTES") (5 * 1024 * 1024) (omega arith))
              (λ max_bytes h2.
                bind-loaded (λ n. 0 < n) IsValid (int env (text "REPLAY_TIMEOUT_MS") 20000) _
                  (int-positive (text "REPLAY_TIMEOUT_MS") 20000 (omega arith))
                  (λ timeout_ms h3.
                    bind-loaded (λ n. 0 < n) IsValid
                      (int env (text "SUBMIT_RATE_LIMIT_PER_HOUR") 20) _
                      (int-positive (text "SUBMIT_RATE_LIMIT_PER_HOUR") 20 (omega arith))
                      (λ rate_limit h4.
                        bind-loaded (λ n. 0 < n) IsValid (int env (text "DB_POOL_MAX") 10) _
                          (int-positive (text "DB_POOL_MAX") 10 (omega arith))
                          (λ pool_max h5.
                            bind-loaded IsLaunch IsValid (load_worker_launch env) _
                              load_worker_launch-IsLaunch
                              (λ launch h6. record {
                                database = λ n. not_empty (value env (text "DATABASE_URL")) e n;
                                port = h1;
                                max_bytes = h2;
                                timeout = h3;
                                rate_limit = h4;
                                pool = h5;
                                launch = h6;
                              })))))))
  ]
