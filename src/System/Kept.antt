-- ===== src/System/Kept.antt =====
-- What holds of the jobs whatever the API and the workers do.
use battle_cloud.Common.{
  ℕ, ◌≤◌, ◌≡◌, refl, sym, ap, subst, ◌∙◌, inl, inr, List, [], ◌∷◌, ◌++◌, none, find?, Option-cases,
}
use battle_cloud.Platform.{Platform}
use battle_cloud.Contract.Profiles.{Profile}
use battle_cloud.Contract.Identity.{AnalysisIdentity}
use battle_cloud.Store.Jobs.{JobRow, Stamp, is_active, enqueue}
use battle_cloud.Store.Jobs.Enqueue.{IsFresh}
use battle_cloud.Store.Jobs.Lifecycle.{Ticket, released, rows, enqueue_job, apply}
use battle_cloud.Store.Jobs.Lifecycle.Reached.{IsGood}
use battle_cloud.Store.Jobs.Lifecycle.Final.{Leads, unmoved, moved, Grows, leads}
use battle_cloud.Routes.{Deps}
use battle_cloud.System.{
  World, Event, submission, statement, analysed, seen, absorbed, step, run, IsFreshAt, IsPossible,
}
use battle_cloud.System.Queued.{IsEnqueue, failing-IsEnqueue}

absorbed-rows : (tickets : List Ticket) → absorbed (rows tickets) tickets ≡ tickets
unfolding absorbed
absorbed-rows [] = refl
absorbed-rows (t ∷ tickets) = ap (λ l. t ∷ l) (absorbed-rows tickets)

absorbed_new :
    (tickets : List Ticket) (row : JobRow)
    → absorbed (rows tickets ++ row ∷ []) tickets ≡ tickets ++ released row none ∷ []
unfolding absorbed
absorbed_new [] row = refl
absorbed_new (t ∷ tickets) row = ap (λ l. t ∷ l) (absorbed_new tickets row)

module _ (p : Platform) (max : ℕ) where
  absorbed-enqueue :
      (stamp : Stamp) (identity : AnalysisIdentity) (profile : Profile) (turns ms : ℕ)
      (tickets : List Ticket)
      → absorbed (enqueue stamp identity profile turns ms (rows tickets)).1 tickets
        ≡ apply p max (enqueue_job stamp identity profile turns ms) tickets
  unfolding enqueue apply
  absorbed-enqueue stamp identity profile turns ms tickets =
      elim (Option-cases (find? (is_active identity) (rows tickets))) [
        | inl e ↦ rw (e, enqueue, apply) (absorbed_new tickets _)
        | inr (row, e) ↦ rw (e, enqueue, apply) (absorbed-rows tickets)
      ]

  -- What the API leaves in the table, its own statement leads to.
  absorbed-Leads :
      (stamp : Stamp) (tickets : List Ticket) (jobs : List JobRow)
      → IsFresh stamp.id (rows tickets)
      → IsEnqueue stamp (rows tickets) jobs
      → Leads p max tickets (absorbed jobs tickets)
  absorbed-Leads stamp tickets jobs fresh (inl same) =
      subst (Leads p max tickets) (sym (ap (λ j. absorbed j tickets) same ∙ absorbed-rows tickets))
        unmoved
  absorbed-Leads stamp tickets jobs fresh (inr (identity, profile, turns, ms, e)) =
      subst (Leads p max tickets)
        (sym (
          ap (λ j. absorbed j tickets) e
          ∙ absorbed-enqueue stamp identity profile turns ms tickets))
        (moved (enqueue_job stamp identity profile turns ms) tickets fresh unmoved)

  Leads-trans : (a b c : List Ticket) → Leads p max a b → Leads p max b c → Leads p max a c
  Leads-trans a b _ h unmoved = h
  Leads-trans a b _ h (moved s later allowed path) =
      moved s later allowed (Leads-trans a b later h path)

module _ (p : Platform) (max : ℕ) (deps : Deps) where
  step-Leads :
      (world : World) (event : Event)
      → IsFreshAt p max deps world event
      → Leads p max world.tickets (step p max deps world event).tickets
  unfolding step
  step-Leads world (submission request fates) fresh =
      absorbed-Leads p max request.stamp world.tickets _ fresh
        (failing-IsEnqueue deps request fates (seen world))
  step-Leads world (statement s) allowed = moved s world.tickets allowed unmoved
  step-Leads world (analysed row) h = unmoved

  run-Leads :
      (world : World) (events : List Event)
      → IsPossible p max deps world events
      → Leads p max world.tickets (run p max deps world events).tickets
  unfolding run
  run-Leads world [] h = unmoved
  run-Leads world (event ∷ events) (h, later) =
      Leads-trans p max world.tickets (step p max deps world event).tickets _
        (step-Leads world event h) (run-Leads (step p max deps world event) events later)

  -- Whatever submissions come, whichever of their statements fail before or after they take effect,
  -- and whatever statements the workers send between them, with fresh ids and a positive cap: from
  -- a table with the invariant the table has it still, so that an identity never has two live
  -- jobs; every job is still there under its id, with no fewer attempts; and one that succeeded
  -- or failed is exactly as it was.
  pub run-IsGood :
      (world : World) (events : List Event)
      → 1 ≤ max
      → IsGood max world.tickets
      → IsPossible p max deps world events
      → let now = run p max deps world events in
        IsGood max now.tickets × Grows world.tickets now.tickets
  run-IsGood world events h good possible =
      leads p max world.tickets (run p max deps world events).tickets h good
        (run-Leads world events possible)
