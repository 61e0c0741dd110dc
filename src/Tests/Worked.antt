-- ===== src/Tests/Worked.antt =====
-- A job from the queue to the screen.
use battle_cloud.Common.{◌≡◌, refl, arith, inr, List, [], ◌∷◌, ◌++◌, none, text, text_eq}
use battle_cloud.Contract.Identity.{derive_identity, is_alnum}
use battle_cloud.Contract.Uri.{encode_uri_component}
use battle_cloud.Store.Jobs.{job_by_id, to_job, is_active, new_job, JobRow}
use battle_cloud.Store.Jobs.Lifecycle.{Ticket, rows, apply, next_job, claimed, released}
use battle_cloud.Store.Jobs.Lifecycle.Reached.{Reached-IsGood}
use battle_cloud.Routes.{Api}
use battle_cloud.Routes.Lookups
use battle_cloud.Web.App.{analysis_screen}
use battle_cloud.Web.Client.{HttpRequest, Fetched}
use battle_cloud.Web.Client.Served.{carried}
use battle_cloud.Web.Polling.{Poller, stopped, mounted, replied, run}
use battle_cloud.Web.Polling.Followed.{IsServing, IsWaiting, polls, polled}
use battle_cloud.Web.Polling.Worked.{screens, run-complete_job}
use battle_cloud.Tests.Inputs.{plain, empty_api}
use battle_cloud.Tests.Browsers.{browser, browser-IsLawful}
use battle_cloud.Tests.Served.{wire, display}
use battle_cloud.Contract.Profiles.{quick}
use battle_cloud.Tests.Submissions.{identity, stamp}
use battle_cloud.Tests.Lifecycles.{taken, finished, taken-Reached}

abbrev network : Api → HttpRequest → Fetched
network api http = carried wire browser (Lookups.get_job plain (text "b") api)

abbrev at_rows : List JobRow → Api
at_rows jobs = record empty_api { jobs = jobs }

waiting-IsServing : IsServing wire browser network (text "b") (text "b")
unfolding text encode_uri_component
waiting-IsServing = record {
  lawful = browser-IsLawful;
  encoded = refl;
  reached = λ api. refl;
  canonical = refl;
}

abbrev held : Ticket
held = claimed (text "w") 60 8000 (released (new_job stamp identity quick 9 1800) none)

taken_held : taken ≡ held ∷ []
unfolding apply next_job is_active new_job text text_eq derive_identity
taken_held = refl

taken-IsWaiting : IsWaiting wire browser network (text "b") (text "b") (at_rows (rows taken))
unfolding apply next_job is_active new_job text text_eq derive_identity job_by_id to_job
taken-IsWaiting = record { row = to_job held.row; there = refl; active = inr refl }

run-complete_job_example :
    (let view : Poller = run display mounted (
        polls wire browser network (text "b") (text "b") (at_rows (rows taken) ∷ [])
        ++ replied (polled wire browser network (text "b") (text "b") (at_rows (rows finished)))
          ∷ []) in
      (screens view.shown.visited ≡ analysis_screen (text "d") ∷ [])
      × (view.shown.error ≡ none)
      × (view.phase ≡ stopped))
unfolding apply next_job is_active new_job text text_eq derive_identity is_alnum
run-complete_job_example =
    run-complete_job wire browser network (text "b") (text "b") display (at_rows (rows taken) ∷ [])
      (at_rows (rows finished)) 3 9000 (text "w") (text "d") taken held waiting-IsServing
      (taken-IsWaiting, tt) (Reached-IsGood plain 3 taken (omega arith) taken-Reached) refl refl
      refl
