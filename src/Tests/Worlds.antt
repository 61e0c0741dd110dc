-- ===== src/Tests/Worlds.antt =====
-- A submission that breaks off over a table with a running job, the end of that job, and the submission
-- made again.
use battle_cloud.Routes.Submit.{number_or_null}
use battle_cloud.Common.{refl, List, [], ◌∷◌, text, text_eq, arith}
use battle_cloud.Json.{get}
use battle_cloud.Contract.Identity.{is_safe_replay_id, derive_identity, same_identity}
use battle_cloud.Contract.Schemas.{parse_submit}
use battle_cloud.Store.Windows.{consume_rate_limit}
use battle_cloud.Store.Replays.{replay_log}
use battle_cloud.Replay.Fetch.{fetch_replay}
use battle_cloud.Replay.Read.{read_capped}
use battle_cloud.Store.Jobs.{enqueue}
use battle_cloud.Store.Jobs.Lifecycle.{complete_job}
use battle_cloud.Store.Jobs.Lifecycle.Reached.{IsGood, Reached-IsGood}
use battle_cloud.Store.Jobs.Lifecycle.Final.{Grows}
use battle_cloud.Store.Jobs.Lifecycle.{apply}
use battle_cloud.Store.Analyses.{analysis_by_identity}
use battle_cloud.Routes.Failing.Submit.{submit_analysis}
use battle_cloud.Routes.Failing.{done, lost}
use battle_cloud.System.{World, Event, submission, statement, step, run, IsPossible, absorbed}
use battle_cloud.System.Kept.{run-IsGood}
use battle_cloud.Tests.Lifecycles.{taken, taken-Reached}
use battle_cloud.Tests.Inputs.{plain, deps, empty_api, request_at}

abbrev initial : World
initial = record { api = empty_api; tickets = taken }

abbrev events : List Event
events =
    submission (request_at 5 (text "a")) (done ∷ done ∷ done ∷ done ∷ lost (text "gone") ∷ [])
    ∷ statement (complete_job (text "w") (text "b") (text "d") 9000)
    ∷ submission (request_at 9 (text "c")) []
    ∷ []

initial-IsGood : IsGood 3 initial.tickets
initial-IsGood = Reached-IsGood plain 3 taken (omega arith) taken-Reached

events-IsPossible : IsPossible plain 3 deps initial events
unfolding text text_eq step apply absorbed submit_analysis get is_safe_replay_id
    analysis_by_identity derive_identity parse_submit consume_rate_limit replay_log fetch_replay
    read_capped enqueue same_identity number_or_null
events-IsPossible = (refl, (tt, (refl, tt)))

run-IsGood_example :
    let now = run plain 3 deps initial events in
    IsGood 3 now.tickets × Grows initial.tickets now.tickets
run-IsGood_example =
    run-IsGood plain 3 deps initial events (omega arith) initial-IsGood events-IsPossible
