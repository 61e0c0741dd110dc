-- ===== src/Config/Groups.antt =====
-- The variables of the worker launch go together.
use battle_cloud.Common.{
  ℕ, ◌≡◌, ◌≤◌, Bool, true, false, not, inl, inr, List, [], ◌∷◌, Option, none, some, arith, Text,
  text, length, filter, All, ◌==◌, Bool-cases,
}
use battle_cloud.Config.{
  WorkerLaunchConfig, Loaded, ok, config_error, Environment, is_empty, value, int, present_keys,
  subnet_ids, worker_launch_keys, load_worker_launch, with_subnets,
}
use battle_cloud.Config.Valid.{IfLoaded, bind-loaded}

length-filter : (q : Text → Bool) (keys : List Text) → length (filter q keys) ≤ length keys
length-filter q [] = omega arith
length-filter q (key ∷ keys) = ground (arith, length-filter q keys)

filter_empty :
    (q : Text → Bool) (keys : List Text) → length (filter q keys) ≡ 0 → All (λ k. q k ≡ false) keys
filter_empty q [] h = tt
filter_empty q (key ∷ keys) h = elim (Bool-cases (q key)) [
  | inl e ↦ absurd (ground arith)
  | inr e ↦ (e, filter_empty q keys (ground arith))
]

filter_full :
    (q : Text → Bool) (keys : List Text)
    → length (filter q keys) ≡ length keys
    → All (λ k. q k ≡ true) keys
filter_full q [] h = tt
filter_full q (key ∷ keys) h = elim (Bool-cases (q key)) [
  | inl e ↦ (e, filter_full q keys (ground arith))
  | inr e ↦ absurd (ground (arith, length-filter q keys))
]

module _ (env : Environment) where
  -- A launch needs all four variables, and its absence means that none is set.
  abbrev pub IsGrouped : Option WorkerLaunchConfig → Type 0
  IsGrouped none = All (λ key. not (is_empty (value env key)) ≡ false) worker_launch_keys
  IsGrouped (some c) = All (λ key. not (is_empty (value env key)) ≡ true) worker_launch_keys

  with_subnets-IsGrouped :
      (ids : List Text)
      → All (λ key. not (is_empty (value env key)) ≡ true) worker_launch_keys
      → IfLoaded IsGrouped (with_subnets env ids)
  with_subnets-IsGrouped [] h = tt
  with_subnets-IsGrouped (id ∷ ids) h =
      bind-loaded (λ n. Unit) IsGrouped (int env (text "WORKER_MAX_TASKS") 2) _
        (any (int env (text "WORKER_MAX_TASKS") 2)) (λ n _. h)
    where
      any : (m : Loaded ℕ) → IfLoaded (λ n. Unit) m
      any (ok n) = tt
      any (config_error message) = tt

  -- Where the worker launch loads, either none of its four variables is set and there is no
  -- launch, or all four are set and there is one; a part of them is refused.
  pub load_worker_launch-IsGrouped : IfLoaded IsGrouped (load_worker_launch env)
  unfolding load_worker_launch present_keys
  load_worker_launch-IsGrouped =
      let q : Text → Bool = λ key. not (is_empty (value env key)) in
      elim (Bool-cases (length (present_keys env) == 0)) [
        | inl e ↦ rw e (filter_empty q worker_launch_keys (ground arith))
        | inr e ↦ elim (Bool-cases (not (length (present_keys env) == length worker_launch_keys))) [
          | inl f ↦ rw (e, f) tt
          | inr f ↦
              rw (e, f)
                (with_subnets-IsGrouped (subnet_ids env)
                  (filter_full q worker_launch_keys (ground arith)))
        ]
      ]
