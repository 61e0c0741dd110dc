-- ===== src/Store/Jobs/Lifecycle/Final.antt =====
-- A job that has ended stays as it is.
use battle_cloud.Common.{
  ℕ, ◌≤◌, ◌≡◌, refl, sym, subst, ◌∙◌, Bool, true, false, List, [], ◌∷◌, ◌++◌, Option, none, some,
  arith, Text, All, find?, ltb, Bool-cases, inl, inr, if◌then◌else◌,
}
use battle_cloud.Platform.{Platform}
use battle_cloud.Store.Jobs.{is_active, is_live}
use battle_cloud.Store.Jobs.Lifecycle.{
  Ticket, is_held, update, Statement, enqueue_job, claim_job, complete_job, fail_job, heartbeat,
  reclaim_expired, Claimant, claimed, completed, extended, failed_at, reclaimed, next_job,
  claimed_next, rows, inserted, apply,
}
use battle_cloud.Store.Jobs.Lifecycle.Sound.{IsSound}
use battle_cloud.Store.Jobs.Lifecycle.Kept.{QueuedAt, next_job-QueuedAt}
use battle_cloud.Store.Jobs.Lifecycle.Reached.{
  IsGood, IsAllowed, running_live, queued_live, held_running, apply-IsGood,
}

-- A row and the same row later: what has ended is as it was.
pub record IsLater (t u : Ticket) : Type 0 where
  pub id : u.row.id ≡ t.row.id
  pub attempts : t.row.attempts ≤ u.row.attempts
  pub ended : is_live t.row.status ≡ false → u ≡ t

-- Row by row, with new rows at the end.
abbrev pub Grows : List Ticket → List Ticket → Type 0
Grows [] later = Unit
Grows (t ∷ tickets) [] = true ≡ false
Grows (t ∷ tickets) (u ∷ later) = IsLater t u × Grows tickets later

IsLater-refl : (t : Ticket) → IsLater t t
IsLater-refl t = record { id = refl; attempts = omega arith; ended = λ h. refl }

IsLater-trans : (t u v : Ticket) → IsLater t u → IsLater u v → IsLater t v
IsLater-trans t u v h k = record {
  id = k.id ∙ h.id;
  attempts = omega (arith, h.attempts, k.attempts);
  ended = λ e. k.ended (subst (λ w. is_live w.row.status ≡ false) (sym (h.ended e)) e) ∙ h.ended e;
}

Grows-refl : (tickets : List Ticket) → Grows tickets tickets
Grows-refl [] = tt
Grows-refl (t ∷ tickets) = (IsLater-refl t, Grows-refl tickets)

Grows-trans : (a b c : List Ticket) → Grows a b → Grows b c → Grows a c
Grows-trans [] b c h k = tt
Grows-trans (t ∷ a) [] c h k = cc h
Grows-trans (t ∷ a) (u ∷ b) [] h k = cc k
Grows-trans (t ∷ a) (u ∷ b) (v ∷ c) h k = (IsLater-trans t u v h.0 k.0, Grows-trans a b c h.1 k.1)

Grows-append : (tickets more : List Ticket) → Grows tickets (tickets ++ more)
Grows-append [] more = tt
Grows-append (t ∷ tickets) more = (IsLater-refl t, Grows-append tickets more)

update-Grows :
    (Q : Ticket → Type 0) (p : Ticket → Bool) (f : Ticket → Ticket) (tickets : List Ticket)
    → ((t : Ticket) → Q t → p t ≡ true → IsLater t (f t))
    → All Q tickets
    → Grows tickets (update p f tickets)
update-Grows Q p f [] later h = tt
update-Grows Q p f (t ∷ tickets) later h = (
  elim (Bool-cases (p t)) as (λ c. IsLater t (if p t then f t else t)) [
    | inl e ↦ rw e (later t h.0 e)
    | inr e ↦ rw e (IsLater-refl t)
  ],
  update-Grows Q p f tickets later h.1,
)

-- A live row may change, if its id stays and its attempts do not go down.
live-IsLater :
    (t u : Ticket)
    → is_live t.row.status ≡ true
    → u.row.id ≡ t.row.id
    → t.row.attempts ≤ u.row.attempts
    → IsLater t u
live-IsLater t u h i a = record { id = i; attempts = a; ended = λ k. cc (h, k) }

module _ (p : Platform) (max : ℕ) where
  held-Grows :
      (worker id : Text) (f : Ticket → Ticket) (tickets : List Ticket)
      → ((t : Ticket) → ((f t).row.id ≡ t.row.id) × ((f t).row.attempts ≡ t.row.attempts))
      → All (IsSound max) tickets
      → Grows tickets (update (is_held worker id) f tickets)
  held-Grows worker id f tickets same sound =
      update-Grows (IsSound max) (is_held worker id) f tickets
        (λ t k e.
          live-IsLater t (f t) (running_live t (held_running worker id t e)) ((same t).0)
            (omega (arith, (same t).1)))
        sound

  reclaimed_same :
      (now : ℕ) (t : Ticket)
      → ((reclaimed max now t).row.id ≡ t.row.id)
        × ((reclaimed max now t).row.attempts ≡ t.row.attempts)
  reclaimed_same now t =
      elim (Bool-cases (ltb t.row.attempts max))
        as (λ c.
          ((reclaimed max now t).row.id ≡ t.row.id)
          × ((reclaimed max now t).row.attempts ≡ t.row.attempts)) [
            | inl e ↦ rw e (refl, refl)
            | inr e ↦ rw e (refl, refl)
          ]

  claimed_next-Grows :
      (c : Claimant) (lease now : ℕ) (locked : Text → Bool) (tickets : List Ticket)
      (job : Option Ticket)
      → next_job p c locked tickets ≡ job
      → IsGood max tickets
      → Grows tickets (claimed_next p c lease now job tickets)
  claimed_next-Grows c lease now locked tickets none h good = Grows-refl tickets
  claimed_next-Grows c lease now locked tickets (some job) h good =
      update-Grows (QueuedAt job.row.id) _ (claimed c.worker_id lease now) tickets
        (λ t k e.
          live-IsLater t (claimed c.worker_id lease now t) (queued_live t (k e)) refl (omega arith))
        (next_job-QueuedAt p c locked tickets job h good.unique.at_id)

  apply-Grows :
      (s : Statement) (tickets : List Ticket)
      → IsGood max tickets
      → Grows tickets (apply p max s tickets)
  unfolding apply
  apply-Grows (enqueue_job stamp identity profile turns search_ms) tickets good =
      elim (find? (is_active identity) (rows tickets))
        as (λ found.
          Grows tickets (inserted p stamp identity profile turns search_ms found tickets)) [
            | none ↦ Grows-append tickets _
            | some row ↦ Grows-refl tickets
          ]
  apply-Grows (claim_job c lease locked now) tickets good =
      claimed_next-Grows c lease now locked tickets (next_job p c locked tickets) refl good
  apply-Grows (complete_job worker id analysis now) tickets good =
      held-Grows worker id (completed analysis now) tickets (λ t. (refl, refl)) good.sound
  apply-Grows (fail_job worker id retryable kind detail now) tickets good =
      held-Grows worker id (failed_at max retryable kind detail now) tickets (λ t. (refl, refl))
        good.sound
  apply-Grows (heartbeat worker id lease now) tickets good =
      held-Grows worker id (extended lease now) tickets (λ t. (refl, refl)) good.sound
  apply-Grows (reclaim_expired now) tickets good =
      update-Grows (IsSound max) _ (reclaimed max now) tickets
        (λ t k e.
          live-IsLater t (reclaimed max now t) (running_live t (ground arith))
            ((reclaimed_same now t).0) (omega (arith, (reclaimed_same now t).1)))
        good.sound

  -- The tables that statements lead to from a table.
  pub data Leads (tickets : List Ticket) : List Ticket → Type 0 where
    unmoved : Leads tickets tickets
    moved :
        (s : Statement) (later : List Ticket)
        → IsAllowed s later
        → Leads tickets later
        → Leads tickets (apply p max s later)

  pub leads :
      (tickets later : List Ticket)
      → 1 ≤ max
      → IsGood max tickets
      → Leads tickets later
      → IsGood max later × Grows tickets later
  leads tickets _ h good unmoved = (good, Grows-refl tickets)
  leads tickets _ h good (moved s later allowed path) =
      let before = leads tickets later h good path in
      (
        apply-IsGood p max s later h allowed before.0,
        Grows-trans tickets later (apply p max s later) before.1 (apply-Grows s later before.0),
      )

  -- From a table with the invariant, whatever statements run: every job is still there under its id, it
  -- has not fewer attempts, and if it had succeeded or failed it is exactly as it was, so that a
  -- worker that lost its job can neither take it back nor overwrite its end.
  pub Leads-Grows :
      (tickets later : List Ticket)
      → 1 ≤ max
      → IsGood max tickets
      → Leads tickets later
      → Grows tickets later
  Leads-Grows tickets later h good path = (leads tickets later h good path).1
