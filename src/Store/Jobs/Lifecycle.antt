-- ===== src/Store/Jobs/Lifecycle.antt =====
-- The jobs as the worker moves them: db/queries/{claim_job,complete_job,fail_job,heartbeat,reclaim_expired}.sql,
-- beside the `enqueue` of api/src/store.ts, each statement a function on the table.
pub mod Sound
pub mod Kept
pub mod Reached
pub mod Final
pub mod Done
use battle_cloud.Common.{
  ℕ, zero, suc, ◌+◌, ◌*◌, Bool, true, false, not, ◌&&◌, ◌||◌, ltb, ◌==◌, List, [], ◌∷◌, ◌++◌, map,
  Option, none, some, Text, text, text_eq, find?, if◌then◌else◌,
}
use battle_cloud.Platform.{Platform}
use battle_cloud.Contract.Uri.{decimal}
use battle_cloud.Contract.Profiles.{Profile}
use battle_cloud.Contract.Identity.{AnalysisIdentity}
use battle_cloud.Store.Jobs.{
  JobStatus, queued, running, succeeded, failed, cancelled, JobRow, Stamp, new_job, is_active,
}

-- A row with the columns that only the worker's statements touch.
pub record Ticket : Type 0 where
  pub row : JobRow
  pub claimed_by : Option Text
  pub claimed_at : Option ℕ
  pub lease_expires_at : Option ℕ
  pub error_detail : Option Text

abbrev pub is_queued : JobStatus → Bool
is_queued queued = true
is_queued _ = false

abbrev pub is_running : JobStatus → Bool
is_running running = true
is_running _ = false

abbrev pub is_by : Text → Option Text → Bool
is_by worker none = false
is_by worker (some other) = text_eq other worker

abbrev pub is_past : ℕ → Option ℕ → Bool
is_past now none = false
is_past now (some at) = ltb at now

-- UPDATE jobs SET ... WHERE ...
abbrev pub update : (Ticket → Bool) → (Ticket → Ticket) → List Ticket → List Ticket
update p f [] = []
update p f (t ∷ tickets) = (if p t then f t else t) ∷ update p f tickets

-- A worker: its id, and the engine build that it carries.
pub record Claimant : Type 0 where
  pub worker_id : Text
  pub poke_engine_tag : Text
  pub usage_stats_dataset : Text

-- What the worker and the API send to the table; the moments are the database's. Rows that another
-- transaction has locked are skipped by a claim.
pub data Statement : Type 0 where
  enqueue_job : Stamp → AnalysisIdentity → Profile → ℕ → ℕ → Statement
  claim_job : Claimant → ℕ → (Text → Bool) → ℕ → Statement
  complete_job : Text → Text → Text → ℕ → Statement
  fail_job : Text → Text → Bool → Text → Text → ℕ → Statement
  heartbeat : Text → Text → ℕ → ℕ → Statement
  reclaim_expired : ℕ → Statement

abbrev pub released : JobRow → Option Text → Ticket
released row detail = record {
  row = row;
  claimed_by = none;
  claimed_at = none;
  lease_expires_at = none;
  error_detail = detail;
}

-- WHERE id = ... AND status = 'running' AND claimed_by = ...
abbrev pub is_held : Text → Text → Ticket → Bool
is_held worker id t = text_eq t.row.id id && (is_running t.row.status && is_by worker t.claimed_by)

abbrev pub expiry : ℕ → ℕ → ℕ
expiry now lease_seconds = now + lease_seconds * 1000000

abbrev pub claimed : Text → ℕ → ℕ → Ticket → Ticket
claimed worker lease now t = record t {
  row = record t.row { status = running; attempts = suc t.row.attempts; updated_at = now };
  claimed_by = some worker;
  claimed_at = some now;
  lease_expires_at = some (expiry now lease);
}

abbrev pub completed : Text → ℕ → Ticket → Ticket
completed analysis now t =
    released
      (record t.row {
        status = succeeded;
        analysis_id = some analysis;
        error_kind = none;
        updated_at = now;
      })
      none

abbrev pub extended : ℕ → ℕ → Ticket → Ticket
extended lease now t = record t {
  row = record t.row { updated_at = now };
  lease_expires_at = some (expiry now lease);
}

-- coalesce(claimed_by, 'unknown')
abbrev pub last_worker : Option Text → Text
last_worker none = text "unknown"
last_worker (some worker) = worker

abbrev pub dead_letter : Ticket → Text
dead_letter t =
    text "lease expired after "
    ++ (decimal t.row.attempts ++ (text " attempt(s); last worker: " ++ last_worker t.claimed_by))

module _ (max_attempts : ℕ) where
  abbrev pub failed_at : Bool → Text → Text → ℕ → Ticket → Ticket
  failed_at retryable kind detail now t =
      let status = if retryable && ltb t.row.attempts max_attempts then queued else failed in
      released (record t.row { status = status; error_kind = some kind; updated_at = now })
        (some detail)

  -- Under the cap back to the queue, at the cap a dead letter.
  abbrev pub reclaimed : ℕ → Ticket → Ticket
  reclaimed now t =
      if ltb t.row.attempts max_attempts
      then released (record t.row { status = queued; updated_at = now }) t.error_detail
      else released
          (record t.row {
            status = failed;
            error_kind = some (text "engine_internal_error");
            updated_at = now;
          })
          (some (dead_letter t))

abbrev pub rows : List Ticket → List JobRow
rows tickets = map (λ t. t.row) tickets

module _ (p : Platform) where
  abbrev pub is_candidate : Claimant → (Text → Bool) → Ticket → Bool
  is_candidate c locked t =
      is_queued t.row.status
      && (text_eq t.row.identity.poke_engine_tag c.poke_engine_tag
          && (text_eq t.row.identity.usage_stats_dataset c.usage_stats_dataset
              && not (locked t.row.id)))

  -- ORDER BY created_at, id
  abbrev pub is_before : Ticket → Ticket → Bool
  is_before a b =
      ltb a.row.created_at b.row.created_at
      || (a.row.created_at == b.row.created_at && p.uuid_lt a.row.id b.row.id)

  abbrev pub sooner : Ticket → Option Ticket → Option Ticket
  sooner t none = some t
  sooner t (some u) = if is_before u t then some u else some t

  -- LIMIT 1
  unfoldable pub next_job : Claimant → (Text → Bool) → List Ticket → Option Ticket
  next_job c locked [] = none
  next_job c locked (t ∷ tickets) =
      let rest = next_job c locked tickets in
      if is_candidate c locked t then sooner t rest else rest

  abbrev pub claimed_next : Claimant → ℕ → ℕ → Option Ticket → List Ticket → List Ticket
  claimed_next c lease now none tickets = tickets
  claimed_next c lease now (some next) tickets =
      update (λ t. text_eq t.row.id next.row.id) (claimed c.worker_id lease now) tickets

  abbrev pub inserted :
      Stamp → AnalysisIdentity → Profile → ℕ → ℕ → Option JobRow → List Ticket → List Ticket
  inserted stamp identity profile turns search_ms (some row) tickets = tickets
  inserted stamp identity profile turns search_ms none tickets =
      tickets ++ released (new_job stamp identity profile turns search_ms) none ∷ []

  unfoldable pub apply : ℕ → Statement → List Ticket → List Ticket
  unfolding next_job new_job is_active
  apply max (enqueue_job stamp identity profile turns search_ms) tickets =
      inserted stamp identity profile turns search_ms (find? (is_active identity) (rows tickets))
        tickets
  apply max (claim_job c lease locked now) tickets =
      claimed_next c lease now (next_job c locked tickets) tickets
  apply max (complete_job worker id analysis now) tickets =
      update (is_held worker id) (completed analysis now) tickets
  apply max (fail_job worker id retryable kind detail now) tickets =
      update (is_held worker id) (failed_at max retryable kind detail now) tickets
  apply max (heartbeat worker id lease now) tickets =
      update (is_held worker id) (extended lease now) tickets
  apply max (reclaim_expired now) tickets =
      update (λ t. is_running t.row.status && is_past now t.lease_expires_at) (reclaimed max now)
        tickets
