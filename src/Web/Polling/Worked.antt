-- ===== src/Web/Polling/Worked.antt =====
-- From the worker that completes a job to the screen of the visitor who waits for it.
use battle_cloud.Common.{
  ℕ, ◌≡◌, refl, ap, ◌∙◌, List, [], ◌∷◌, ◌++◌, Option, none, some, Text, text, find?, All,
}
use battle_cloud.Json.{Json}
use battle_cloud.Store.Jobs.{to_job, job_by_id}
use battle_cloud.Store.Jobs.Lifecycle.{Ticket, is_held, rows, apply, complete_job, completed}
use battle_cloud.Store.Jobs.Lifecycle.Reached.{IsGood}
use battle_cloud.Store.Jobs.Lifecycle.Done.{job_by_id-complete_job}
use battle_cloud.Routes.{Api}
use battle_cloud.Web.App.{Screen, screen, analysis_screen, word, screen_iff}
use battle_cloud.Web.Client.{HttpRequest, Fetched, Browser}
use battle_cloud.Web.Client.Served.{Wire}
use battle_cloud.Web.Polling.{Poller, stopped, mounted, replied, run}
use battle_cloud.Web.Polling.Followed.{IsServing, IsWaiting, IsDone, polls, polled, run-polls}

-- The routes that a view has gone to, as screens.
abbrev pub screens : List Text → List Screen
screens [] = []
screens (route ∷ routes) = screen route ∷ screens routes

module _ (wire : Wire) (browser : Browser) (network : Api → HttpRequest → Fetched) (id path : Text)
    (display : Option Json → Text) where
  -- Where the API serves the job, and the worker that holds it in a table with the invariant completes
  -- it with an analysis, whose id is a word: the view, which has seen the job waiting until then, ends on
  -- the screen of that analysis, without an error and without a further request.
  pub run-complete_job :
      (apis : List Api) (final : Api) (max now : ℕ) (worker analysis : Text) (tickets : List Ticket)
      (t : Ticket)
      → IsServing wire browser network id path
      → All (IsWaiting wire browser network id path) apis
      → IsGood max tickets
      → find? (is_held worker id) tickets ≡ some t
      → final.jobs ≡ rows (apply wire.platform max (complete_job worker id analysis now) tickets)
      → word analysis ≡ some analysis
      → (let view : Poller = run display mounted (
            polls wire browser network id path apis
            ++ replied (polled wire browser network id path final) ∷ []) in
          (screens view.shown.visited ≡ analysis_screen analysis ∷ [])
          × (view.shown.error ≡ none)
          × (view.phase ≡ stopped))
  unfolding to_job text
  run-complete_job apis final max now worker analysis tickets t serving waiting good held jobs
        shown =
      let row = to_job (completed analysis now t).row in
      let there : job_by_id id final.jobs ≡ some row =
        ap (job_by_id id) jobs
        ∙ job_by_id-complete_job worker id analysis now wire.platform max tickets t good held in
      let done : IsDone wire browser network id path analysis final = record {
        row = row;
        there = there;
        done = refl;
        linked = refl;
      } in
      rw (run-polls wire browser network id path display apis analysis final done serving waiting) (
        ap (λ s. s ∷ []) (((screen_iff (text "/a/" ++ analysis) analysis).0).1 (refl, shown)),
        refl,
        refl,
      )
