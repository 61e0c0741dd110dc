-- ===== src/Store/Jobs.antt =====
-- The statements of api/src/store.ts on the table `jobs`.
pub mod Enqueue
pub mod Lifecycle
use battle_cloud.Common.{
  ℕ, ◌+◌, ◌/◌, ◌≡◌, refl, Bool, true, false, ◌&&◌, ◌||◌, Option, none, some, List, [], ◌∷◌, ◌++◌,
  arith, Text, text_eq, find?, if◌then◌else◌,
}
use battle_cloud.Contract.Profiles.{Profile}
use battle_cloud.Contract.Identity.{AnalysisIdentity, Perspective, same_identity}

-- `JOB_STATUSES`
pub data JobStatus : Type 0 where
  queued running succeeded failed cancelled : JobStatus

pub record JobRow : Type 0 where
  pub id : Text
  pub identity : AnalysisIdentity
  pub profile : Profile
  pub status : JobStatus
  pub attempts : ℕ
  pub estimated_turns : Option ℕ
  pub estimated_search_ms : Option ℕ
  pub analysis_id : Option Text
  pub error_kind : Option Text
  pub created_at : ℕ
  pub updated_at : ℕ

pub record StoredJob : Type 0 where
  pub id : Text
  pub status : JobStatus
  pub replay_id : Text
  pub perspective : Perspective
  pub profile : Profile
  pub estimated_turns : Option ℕ
  pub estimated_search_ms : Option ℕ
  pub analysis_id : Option Text
  pub error_kind : Option Text
  pub created_at : ℕ
  pub updated_at : ℕ

-- `new Date(value)` keeps milliseconds.
abbrev pub to_ms : ℕ → ℕ
to_ms at = at / 1000

unfoldable pub to_job : JobRow → StoredJob
to_job row = record {
  id = row.id;
  status = row.status;
  replay_id = row.identity.replay_id;
  perspective = row.identity.perspective;
  profile = row.profile;
  estimated_turns = row.estimated_turns;
  estimated_search_ms = row.estimated_search_ms;
  analysis_id = row.analysis_id;
  error_kind = row.error_kind;
  created_at = to_ms row.created_at;
  updated_at = to_ms row.updated_at;
}

-- `status IN ('queued','running')`, the predicate of the index `jobs_active_identity_key`
abbrev pub is_live : JobStatus → Bool
is_live queued = true
is_live running = true
is_live _ = false

unfoldable pub is_active : AnalysisIdentity → JobRow → Bool
is_active identity row = is_live row.status && same_identity row.identity identity

-- What the database makes up for a new row: `gen_random_uuid()` and `now()`.
pub record Stamp : Type 0 where
  pub id : Text
  pub now : ℕ

unfoldable pub new_job : Stamp → AnalysisIdentity → Profile → ℕ → ℕ → JobRow
new_job stamp identity profile estimated_turns estimated_search_ms = record {
  id = stamp.id;
  identity = identity;
  profile = profile;
  status = queued;
  attempts = 0;
  estimated_turns = some estimated_turns;
  estimated_search_ms = some estimated_search_ms;
  analysis_id = none;
  error_kind = none;
  created_at = stamp.now;
  updated_at = stamp.now;
}

pub record Enqueued : Type 0 where
  pub job : StoredJob
  pub created : Bool

-- `enqueue`: the live row of the identity, which the conflict clause leaves as it is, or a new one.
unfoldable pub enqueue :
    Stamp → AnalysisIdentity → Profile → ℕ → ℕ → List JobRow → Enqueued × List JobRow
unfolding is_active new_job to_job
enqueue stamp identity profile estimated_turns estimated_search_ms jobs =
    elim (find? (is_active identity) jobs) [
      | some row ↦ (record { job = to_job row; created = false }, jobs)
      | none ↦
          let row = new_job stamp identity profile estimated_turns estimated_search_ms in
          (record { job = to_job row; created = true }, jobs ++ row ∷ [])
    ]

-- `jobById`
unfoldable pub job_by_id : Text → List JobRow → Option StoredJob
unfolding to_job
job_by_id id jobs = elim (find? (λ row. text_eq row.id id) jobs) [
  | none ↦ none
  | some row ↦ some (to_job row)
]
