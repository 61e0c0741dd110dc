-- ===== src/Routes/Failing.antt =====
-- The handlers of api/src/routes.ts over a database whose statements may fail: a call is a function
-- of the session that ends in a result or a throw, and what was written before a throw stays.
pub mod Submit
pub mod Cut
pub mod Retry
pub mod Lookups
pub mod Listing
use battle_cloud.Common.{Bool, true, false, List, [], ◌∷◌, ◌++◌, Text, if◌then◌else◌}
use battle_cloud.Replay.Read.{replay_fetch_error, other_error, Thrown, Result, ok, throw}
use battle_cloud.Routes.{Answer, crashed, Api, Action, Outcome}

-- What becomes of a statement: it runs, it fails and changes nothing, or it takes effect and its
-- answer is lost with the connection.
pub data Fate : Type 0 where
  done : Fate
  refused lost : Text → Fate

-- The state of a call: the tables and the limiter, the fates of the statements to come, of which
-- those behind the list run, and what was done to the outside.
pub record Session : Type 0 where
  pub api : Api
  pub fates : List Fate
  pub actions : List Action

abbrev pub Call : Type 0 → Type 0
Call A = Session → Result A × Session

module _ {A : Type 0} where
  abbrev pub pure : A → Call A
  pure a s = (ok a, s)

  abbrev pub raise : Thrown → Call A
  raise thrown s = (throw thrown, s)

  -- `try`: what was thrown becomes a value.
  abbrev pub attempt : Call A → Call (Result A)
  attempt call s = let (result, s') = call s in (ok result, s')

infixl 5 ◌>>=◌ ◌>>◌
abbrev pub ◌>>=◌ : {A B : Type 0} → Call A → (A → Call B) → Call B
◌>>=◌ call f s =
    let (result, s') = call s in elim result [ ok a ↦ f a s' | throw thrown ↦ raise thrown s' ]

abbrev pub ◌>>◌ : {A B : Type 0} → Call A → Call B → Call B
call >> next = call >>= λ _. next

abbrev pub act : List Action → Call (Unit {0})
act actions s = (ok tt, record s { actions = s.actions ++ actions })

abbrev pub next_fate : List Fate → Fate
next_fate [] = done
next_fate (fate ∷ fates) = fate

abbrev pub later_fates : List Fate → List Fate
later_fates [] = []
later_fates (fate ∷ fates) = fates

module _ {A : Type 0} where
  abbrev pub meets : Fate → A × Api → Api → Result A × Api
  meets done (a, api') api = (ok a, api')
  meets (refused message) (a, api') api = (throw (other_error message), api)
  meets (lost message) (a, api') api = (throw (other_error message), api')

  -- One statement of the store.
  abbrev pub statement : (Api → A × Api) → Call A
  statement run s =
      let (result, api') = meets (next_fate s.fates) (run s.api) s.api in
      (result, record s { api = api'; fates = later_fates s.fates })

-- The framework answers what a handler throws.
abbrev pub answered : Result Answer → Answer
answered (ok answer) = answer
answered (throw (replay_fetch_error kind message)) = crashed message
answered (throw (other_error message)) = crashed message

-- A request as a call of its own.
abbrev pub outcome : Call Answer → List Fate → Api → Outcome
outcome call fates api =
    let (result, s) = call (record { api = api; fates = fates; actions = [] }) in
    record { answer = answered result; api = s.api; actions = s.actions }
