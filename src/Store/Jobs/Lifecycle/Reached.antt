-- ===== src/Store/Jobs/Lifecycle/Reached.antt =====
-- The tables that the statements lead to.
use battle_cloud.Common.{
  ℕ, ◌≤◌, ◌≡◌, refl, sym, ap, subst, Bool, true, List, [], ◌∷◌, ◌++◌, Option, none, some, arith,
  Text, All, All-append, find?, ltb, Bool-cases, Option-cases, inl, inr,
}
use battle_cloud.Platform.{Platform}
use battle_cloud.Contract.Profiles.{Profile}
use battle_cloud.Contract.Identity.{AnalysisIdentity}
use battle_cloud.Store.Jobs.{JobRow, is_active, is_live, new_job, Stamp, enqueue}
use battle_cloud.Store.Jobs.Enqueue.{IsUnique, IsFresh, enqueue-IsUnique}
use battle_cloud.Store.Jobs.Lifecycle.{
  Ticket, is_queued, is_running, is_held, update, Statement, enqueue_job, claim_job, complete_job,
  fail_job, heartbeat, reclaim_expired, Claimant, released, claimed, completed, extended, failed_at,
  reclaimed, next_job, claimed_next, rows, inserted, apply,
}
use battle_cloud.Store.Jobs.Lifecycle.Sound.{
  IsSound, IsSoundAt, update-All, running_sound, running_status, queued_status, completed-IsSound,
  failed_at-IsSound, extended-IsSound, reclaimed-IsSound, claimed-IsSound,
}
use battle_cloud.Store.Jobs.Lifecycle.Kept.{update-IsUnique, QueuedAt, next_job-QueuedAt}

-- Every job is as its status says, ids are unique, and an identity has one live job at most.
pub record IsGood (max : ℕ) (tickets : List Ticket) : Type 0 where
  pub sound : All (IsSound max) tickets
  pub unique : IsUnique (rows tickets)

-- The id of a new row is fresh.
abbrev pub IsAllowed : Statement → List Ticket → Type 0
IsAllowed (enqueue_job stamp identity profile turns search_ms) tickets =
    IsFresh stamp.id (rows tickets)
IsAllowed _ tickets = Unit

pub running_live : (t : Ticket) → is_running t.row.status ≡ true → is_live t.row.status ≡ true
running_live t h = rw (running_status t.row.status h) refl

pub queued_live : (t : Ticket) → is_queued t.row.status ≡ true → is_live t.row.status ≡ true
queued_live t h = rw (queued_status t.row.status h) refl

pub held_running :
    (worker id : Text) (t : Ticket) → is_held worker id t ≡ true → is_running t.row.status ≡ true
held_running worker id t h = ground arith

module _ (p : Platform) (max : ℕ) where
  -- A statement on a running row.
  update-IsGood :
      (p : Ticket → Bool) (f : Ticket → Ticket) (tickets : List Ticket)
      → ((t : Ticket) → p t ≡ true → is_running t.row.status ≡ true)
      → ((t : Ticket) → IsSound max t → is_running t.row.status ≡ true → IsSound max (f t))
      → ((t : Ticket) → ((f t).row.id ≡ t.row.id) × ((f t).row.identity ≡ t.row.identity))
      → IsGood max tickets
      → IsGood max (update p f tickets)
  update-IsGood p f tickets runs sound keeps good = record {
    sound =
        update-All (IsSound max) (IsSound max) p f tickets (λ t k h e. sound t h (runs t e))
          good.sound good.sound;
    unique =
        update-IsUnique (IsSound max) p f tickets
          (λ t k e. record {
            id = (keeps t).0;
            identity = (keeps t).1;
            live = running_live t (runs t e);
          })
          good.sound good.unique;
  }

  reclaimed_keeps :
      (now : ℕ) (t : Ticket)
      → ((reclaimed max now t).row.id ≡ t.row.id)
        × ((reclaimed max now t).row.identity ≡ t.row.identity)
  reclaimed_keeps now t =
      elim (Bool-cases (ltb t.row.attempts max))
        as (λ c.
          ((reclaimed max now t).row.id ≡ t.row.id)
          × ((reclaimed max now t).row.identity ≡ t.row.identity)) [
            | inl e ↦ rw e (refl, refl)
            | inr e ↦ rw e (refl, refl)
          ]

  claimed_next-IsGood :
      (c : Claimant) (lease now : ℕ) (locked : Text → Bool) (tickets : List Ticket)
      (next : Option Ticket)
      → next_job p c locked tickets ≡ next
      → IsGood max tickets
      → IsGood max (claimed_next p c lease now next tickets)
  claimed_next-IsGood c lease now locked tickets none h good = good
  claimed_next-IsGood c lease now locked tickets (some next) h good =
      let waits = next_job-QueuedAt p c locked tickets next h good.unique.at_id in
      let worker = c.worker_id in
      record {
        sound =
            update-All (QueuedAt next.row.id) (IsSound max) _ (claimed worker lease now) tickets
              (λ t k h e.
                claimed-IsSound max worker lease now t
                  (subst (λ s. IsSoundAt max s t) (queued_status t.row.status (k e)) h))
              waits good.sound;
        unique =
            update-IsUnique (QueuedAt next.row.id) _ (claimed worker lease now) tickets
              (λ t k e. record { id = refl; identity = refl; live = queued_live t (k e) }) waits
              good.unique;
      }

  rows_append :
      (tickets : List Ticket) (t : Ticket) → rows (tickets ++ t ∷ []) ≡ rows tickets ++ t.row ∷ []
  rows_append [] t = refl
  rows_append (u ∷ tickets) t = ap (λ l. u.row ∷ l) (rows_append tickets t)

  rows-inserted :
      (stamp : Stamp) (identity : AnalysisIdentity) (profile : Profile) (turns search_ms : ℕ)
      (tickets : List Ticket)
      → (enqueue stamp identity profile turns search_ms (rows tickets)).1
        ≡ rows (
            inserted p stamp identity profile turns search_ms
              (find? (is_active identity) (rows tickets))
              tickets)
  unfolding enqueue
  rows-inserted stamp identity profile turns search_ms tickets =
      elim (Option-cases (find? (is_active identity) (rows tickets))) [
        | inl e ↦
            rw (e, enqueue)
              (sym (
                rows_append tickets
                  (released (new_job stamp identity profile turns search_ms) none)))
        | inr (row, e) ↦ rw (e, enqueue) refl
      ]

  inserted-IsUnique :
      (stamp : Stamp) (identity : AnalysisIdentity) (profile : Profile) (turns search_ms : ℕ)
      (tickets : List Ticket)
      → IsFresh stamp.id (rows tickets)
      → IsUnique (rows tickets)
      → IsUnique (
          rows (
            inserted p stamp identity profile turns search_ms
              (find? (is_active identity) (rows tickets))
              tickets))
  inserted-IsUnique stamp identity profile turns search_ms tickets fresh unique =
      subst IsUnique (rows-inserted stamp identity profile turns search_ms tickets)
        (enqueue-IsUnique stamp identity profile turns search_ms (rows tickets) fresh unique)

  inserted-All :
      (stamp : Stamp) (identity : AnalysisIdentity) (profile : Profile) (turns search_ms : ℕ)
      (tickets : List Ticket) (row : Option JobRow)
      → 1 ≤ max
      → All (IsSound max) tickets
      → All (IsSound max) (inserted p stamp identity profile turns search_ms row tickets)
  unfolding new_job
  inserted-All stamp identity profile turns search_ms tickets (some row) h sound = sound
  inserted-All stamp identity profile turns search_ms tickets none h sound =
      All-append (IsSound max) tickets _ sound (((refl, refl, refl), refl, h), tt)

  pub apply-IsGood :
      (s : Statement) (tickets : List Ticket)
      → 1 ≤ max
      → IsAllowed s tickets
      → IsGood max tickets
      → IsGood max (apply p max s tickets)
  unfolding apply
  apply-IsGood (enqueue_job stamp identity profile turns search_ms) tickets h fresh good = record {
    sound = inserted-All stamp identity profile turns search_ms tickets _ h good.sound;
    unique = inserted-IsUnique stamp identity profile turns search_ms tickets fresh good.unique;
  }
  apply-IsGood (claim_job c lease locked now) tickets h allowed good =
      claimed_next-IsGood c lease now locked tickets (next_job p c locked tickets) refl good
  apply-IsGood (complete_job worker id analysis now) tickets h allowed good =
      update-IsGood (is_held worker id) (completed analysis now) tickets (held_running worker id)
        (λ t k e. completed-IsSound max analysis now t (running_sound max t k e))
        (λ t. (refl, refl)) good
  apply-IsGood (fail_job worker id retryable kind detail now) tickets h allowed good =
      update-IsGood (is_held worker id) (failed_at max retryable kind detail now) tickets
        (held_running worker id)
        (λ t k e. failed_at-IsSound max retryable kind detail now t (running_sound max t k e))
        (λ t. (refl, refl)) good
  apply-IsGood (heartbeat worker id lease now) tickets h allowed good =
      update-IsGood (is_held worker id) (extended lease now) tickets (held_running worker id)
        (λ t k e. extended-IsSound max lease now t k e) (λ t. (refl, refl)) good
  apply-IsGood (reclaim_expired now) tickets h allowed good =
      update-IsGood _ (reclaimed max now) tickets (λ t e. ground arith)
        (λ t k e. reclaimed-IsSound max now t (running_sound max t k e)) (reclaimed_keeps now) good

  -- The tables that statements lead to from the empty one.
  pub data Reached : List Ticket → Type 0 where
    empty_table : Reached []
    after :
        (s : Statement) (tickets : List Ticket)
        → IsAllowed s tickets
        → Reached tickets
        → Reached (apply p max s tickets)

  -- Whatever statements the API and the workers run, in whatever order, with fresh ids and a positive
  -- cap: in every table that is reached a job has a claim, whole, exactly while it runs; a job
  -- that succeeded has an analysis and no error, one that failed has an error and no analysis, none is
  -- cancelled; no job is claimed more often than the cap; and the keys are unique.
  pub Reached-IsGood : (tickets : List Ticket) → 1 ≤ max → Reached tickets → IsGood max tickets
  Reached-IsGood tickets h empty_table = record {
    sound = tt;
    unique = record { at_id = λ id. omega arith; at_identity = λ i. omega arith };
  }
  Reached-IsGood _ h (after s tickets allowed reached) =
      apply-IsGood s tickets h allowed (Reached-IsGood tickets h reached)
