-- ===== src/Tests/Analyses.antt =====
-- The analysis view on a document of two turns, of which the second has no cost.
use battle_cloud.Common.{
  arith, ◌≡◌, refl, true, false, [], ◌∷◌, none, some, text, text_eq, map, All, List,
}
use battle_cloud.Contract.Identity.{p1}
use battle_cloud.Contract.Uri.{decimal}
use battle_cloud.Store.Replays.{natural}
use battle_cloud.Store.Analyses.{AnalysisSummary}
use battle_cloud.Routes.{job}
use battle_cloud.Routes.Wire.{body_json, summary_json}
use battle_cloud.Web.Polling.{Shown}
use battle_cloud.Web.Polling.Rendered
use battle_cloud.Web.Polling.Rendered.{render-body_json}
use battle_cloud.Web.Recent.{Recent}
use battle_cloud.Web.Recent.Listed
use battle_cloud.Web.Recent.Listed.{RecentShown, IsLinked, listed_for, age, render-summary_json}
use battle_cloud.Tests.Inputs.{plain, plain-IsLawful}
use battle_cloud.Tests.Submissions.{view}
use battle_cloud.Json.{Json, Items, Fields, null, bool, num, str, arr, obj, nil, cons, object, get}
use battle_cloud.Contract.Checks.{every}
use battle_cloud.Contract.Documents.{analysis_envelope_schema, turn_evaluation_schema}
use battle_cloud.Web.Analysis.View.Hovered.{charts, is_shown-charts}
use battle_cloud.Web.Client.{got}
use battle_cloud.Web.Analysis.{Numbers, turn_detail}
use battle_cloud.Web.Analysis.View.{
  View, mounted, replied, toggled, clicked, run, render, selected_turn, charted,
}
use battle_cloud.Web.Analysis.View.Accepted.{is_shown}
use battle_cloud.Web.Analysis.View.Whole.{IsServed, shows, is_shown-render}

abbrev pub numbers : Numbers
numbers = record {
  display = λ json. [];
  to_fixed = λ json. [];
  hundredfold = λ json. [];
  template = λ json. [];
  locale_string = λ json. [];
  other_seconds = λ json. [];
}

abbrev graded : Json
graded = obj (
    object (
      (text "turn", num 1)
      ∷ (text "gradable", bool true)
      ∷ (text "samplesUsed", num 8)
      ∷ (text "costOfPlayed", null)
      ∷ (text "topActions", arr nil)
      ∷ []))

abbrev uncosted : Json
uncosted = obj (
    object (
      (text "turn", num 2)
      ∷ (text "gradable", bool false)
      ∷ (text "samplesUsed", num 0)
      ∷ (text "topActions", arr nil)
      ∷ []))

abbrev turns : Items
turns = cons graded (cons uncosted nil)

abbrev engine : Json
engine = obj (
    object (
      (text "searchBudgetMsPerTurn", num 1000)
      ∷ (text "opponentSamples", num 8)
      ∷ (text "threads", num 4)
      ∷ (text "usageStatsCutoff", num 1500)
      ∷ (text "pokeEngineTag", str (text "v0.0.48"))
      ∷ []))

abbrev document_fields : Fields
document_fields = object (
    (text "schemaVersion", num 1)
    ∷ (text "replayId", str (text "gen9ou-1"))
    ∷ (text "format", str (text "gen9ou"))
    ∷ (text "perspective", str (text "p1"))
    ∷ (text "engine", engine)
    ∷ (text "totalTurns", num 2)
    ∷ (text "gradableTurns", num 1)
    ∷ (text "turns", arr turns)
    ∷ [])

abbrev envelope_fields : Fields
envelope_fields = object (
    (text "analysisId", str (text "a"))
    ∷ (text "seed", num 7)
    ∷ (text "createdAt", str (text "t"))
    ∷ (text "document", obj document_fields)
    ∷ [])

-- The view with the document, and its table open.
abbrev opened_view : View
opened_view = run mounted (replied (got (obj envelope_fields)) ∷ toggled ∷ [])

opened_view-IsServed : IsServed opened_view.envelope turns
unfolding run get text text_eq analysis_envelope_schema
opened_view-IsServed = record {
  members = envelope_fields;
  fields = document_fields;
  is_object = refl;
  document = refl;
  turns = refl;
  accepted = refl;
  players = refl;
  rating = refl;
}

opened_quiet : opened_view.error ≡ none
unfolding run
opened_quiet = refl

is_shown-render_example : is_shown (render numbers opened_view) ≡ shows opened_view turns
is_shown-render_example =
    is_shown-render numbers opened_view turns opened_quiet opened_view-IsServed

-- The table over the turn without a cost throws.
thrown : shows opened_view turns ≡ false
unfolding run get text text_eq
thrown = refl

-- With the table closed, the first turn is shown in detail and the second is not.
abbrev selecting : Json → View
selecting turn = run mounted (replied (got (obj envelope_fields)) ∷ clicked (some turn) ∷ [])

first_shown : is_shown (render numbers (selecting (num 1))) ≡ true
unfolding run render get text text_eq selected_turn charted turn_detail
first_shown = refl

second_thrown : is_shown (render numbers (selecting (num 2))) ≡ false
unfolding run render get text text_eq selected_turn charted turn_detail
second_thrown = refl

abbrev polled : Shown
polled = record { job = body_json plain (job view); error = none; visited = [] }

render-body_json_example :
    Rendered.render numbers 4 polled ≡ some (Rendered.found (Rendered.shown_for numbers 4 view))
render-body_json_example = render-body_json plain numbers 4 polled view refl refl

abbrev summary : AnalysisSummary
summary = record {
  analysis_id = text "0-a";
  replay_id = text "gen9ou-1";
  format = text "gen9ou";
  rating = some (natural 1644);
  players = text "x" ∷ text "y" ∷ [];
  perspective = p1;
  total_turns = 22;
  gradable_turns = 15;
  search_budget_ms_per_turn = 1000;
  opponent_samples = 8;
  created_at = 1000;
}

abbrev summaries : List AnalysisSummary
summaries = summary ∷ []

abbrev listing : Recent
listing = record {
  analyses = map (summary_json plain) summaries;
  cursor = some null;
  error = none;
  loading = false;
}

render-summary_json_example :
    (shown : RecentShown) × (Listed.render plain numbers 200000 listing ≡ some shown)
    × (shown.rows ≡ map (listed_for numbers 200000) summaries)
    × All (λ s. IsLinked s (listed_for numbers 200000 s)) summaries
render-summary_json_example =
    render-summary_json plain numbers 200000 listing summaries plain-IsLawful refl (omega arith, tt)

-- The age of the row, 199 seconds.
aged : age 199000 ≡ text "3m ago"
unfolding age text decimal
aged = refl

turns_accepted : every turn_evaluation_schema turns ≡ true
unfolding turn_evaluation_schema get text text_eq
turns_accepted = refl

is_shown-charts_example : is_shown (charts numbers (some (num 2)) turns) ≡ true
is_shown-charts_example = is_shown-charts numbers (some (num 2)) turns turns_accepted
