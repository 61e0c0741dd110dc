-- ===== src/System.antt =====
-- The API and the workers over one database: submissions, whose statements may fail, and the statements
-- of the workers, one after the other in any order.
pub mod Queued
pub mod Kept
use battle_cloud.Common.{ℕ, List, [], ◌∷◌, ◌++◌, none}
use battle_cloud.Platform.{Platform}
use battle_cloud.Store.Jobs.{JobRow}
use battle_cloud.Store.Jobs.Enqueue.{IsFresh}
use battle_cloud.Store.Jobs.Lifecycle.{Ticket, Statement, released, rows, apply}
use battle_cloud.Store.Jobs.Lifecycle.Reached.{IsAllowed}
use battle_cloud.Store.Analyses.{AnalysisRow}
use battle_cloud.Routes.{Deps, Api, Outcome}
use battle_cloud.Routes.Submit.{Request}
use battle_cloud.Routes.Failing.{Fate, outcome}
use battle_cloud.Routes.Failing.Submit.{submit_analysis}

-- The tables and the limiter; the jobs stand with all their columns.
pub record World : Type 0 where
  pub api : Api
  pub tickets : List Ticket

-- A submission with the fates of its statements, a statement on the jobs, and an analysis that a
-- worker stores.
pub data Event : Type 0 where
  submission : Request → List Fate → Event
  statement : Statement → Event
  analysed : AnalysisRow → Event

-- What the API sees: of the jobs, the columns that it reads.
abbrev pub seen : World → Api
seen world = record world.api { jobs = rows world.tickets }

-- The rows that the API has added come to the table without a claim.
unfoldable pub absorbed : List JobRow → List Ticket → List Ticket
absorbed [] tickets = tickets
absorbed (row ∷ jobs) [] = released row none ∷ absorbed jobs []
absorbed (row ∷ jobs) (t ∷ tickets) = t ∷ absorbed jobs tickets

abbrev pub after_request : World → Outcome → World
after_request world o = record { api = o.api; tickets = absorbed o.api.jobs world.tickets }

module _ (p : Platform) (max : ℕ) (deps : Deps) where
  unfoldable pub step : World → Event → World
  unfolding absorbed
  step world (submission request fates) =
      after_request world (outcome (submit_analysis deps request) fates (seen world))
  step world (statement s) = record world { tickets = apply p max s world.tickets }
  step world (analysed row) = record world {
    api = record world.api { analyses = world.api.analyses ++ row ∷ [] };
  }

  unfoldable pub run : World → List Event → World
  unfolding step
  run world [] = world
  run world (event ∷ events) = run (step world event) events

  -- What the database makes up for a new row is fresh.
  abbrev pub IsFreshAt : World → Event → Type 0
  IsFreshAt world (submission request fates) = IsFresh request.stamp.id (rows world.tickets)
  IsFreshAt world (statement s) = IsAllowed s world.tickets
  IsFreshAt world (analysed row) = Unit

  abbrev pub IsPossible : World → List Event → Type 0
  IsPossible world [] = Unit
  IsPossible world (event ∷ events) = IsFreshAt world event × IsPossible (step world event) events
