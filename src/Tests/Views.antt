-- ===== src/Tests/Views.antt =====
-- The views of the web client.
use battle_cloud.Common.{
  ℕ, suc, ◌++◌, if◌then◌else◌, ◌⊎◌, ◌≡◌, ◌≤◌, refl, arith, true, false, List, [], ◌∷◌, Option, none,
  some, Text, text, text_eq, length, All,
}
use battle_cloud.Strings.{is_space}
use battle_cloud.Json.{Json}
use battle_cloud.Json
use battle_cloud.Contract.Profiles.{quick}
use battle_cloud.Contract.Identity.{p2, is_safe_replay_id}
use battle_cloud.Contract.Schemas.{accepted_submit}
use battle_cloud.Contract.Documents.{job_schema, analysis_page_schema}
use battle_cloud.Routes.{job, submitted, page}
use battle_cloud.Routes.Wire.{body_json}
use battle_cloud.Routes.Wire.Conforms.{page_conforms, job_refused}
use battle_cloud.Routes.Listing.Query.{IsListed, get_list, get_list-IsListed}
use battle_cloud.Config.{value, Environment, ApiConfig}
use battle_cloud.Config.Start.{
  FromEnvironment, FromStore, parameter, Reading, done, start, start-source,
}
use battle_cloud.Web.ReplayId.{parse_replay_id}
use battle_cloud.Web.ReplayId.Pasted.{parse_replay_id-pasted}
use battle_cloud.Web.Client.{submit_json}
use battle_cloud.Web.Client.Served.{accepted_submit-submit_json}
use battle_cloud.Web.Charts.Hover
use battle_cloud.Web.Charts.Hover.{Mouse, moved, clicked, IsTurn, run-selections}
use battle_cloud.Web.Charts.{
  Turn, turn_axis, axis_ticks, closed, ticks_from, tick_step, eval_segments,
}
use battle_cloud.Web.Charts.Axis.{Ascends, turn_axis-Ascends, axis_ticks-fuel}
use battle_cloud.Web.Charts.Curve.{drawn, lines_from, eval_segments-drawn}
use battle_cloud.Web.Polling.{Poller, mounted, run, replied, timer, unmounted}
use battle_cloud.Web.Polling.Quiet.{run-unmounted}
use battle_cloud.Web.Client.{got}
use battle_cloud.Tests.Inputs.{plain}
use battle_cloud.Tests.Paging.{stocked}
use battle_cloud.Tests.Submissions.{view}

parse_replay_id-pasted_example : parse_replay_id (text " https://x/gen9ou-1/?p2") ≡ text "gen9ou-1"
unfolding text is_safe_replay_id is_space
parse_replay_id-pasted_example =
    parse_replay_id-pasted (text " ") (some (text "https://x")) (text "gen9ou-1") (text "/")
      (some (text "p2")) [] (refl, tt) refl (ground arith) refl (refl, tt) tt

accepted_submit-submit_json_example :
    accepted_submit
      (submit_json (record { replay_id = text "gen9ou-1"; perspective = p2; profile = quick }))
    ≡ some (record { replay_id = text "gen9ou-1"; perspective = p2; profile = quick })
unfolding text is_safe_replay_id
accepted_submit-submit_json_example =
    accepted_submit-submit_json
      (record { replay_id = text "gen9ou-1"; perspective = p2; profile = quick })

page_conforms_example :
    analysis_page_schema (some (body_json plain (page [] (some (text "MQ"))))) ≡ true
page_conforms_example = page_conforms plain [] (some (text "MQ"))

job_refused_example :
    (job_schema (some (body_json plain (job view))) ≡ false)
    × (job_schema (some (body_json plain (submitted view true))) ≡ false)
job_refused_example = job_refused plain view true

abbrev number : Json → Option ℕ
number json = some 20

get_list-IsListed_example :
    IsListed (get_list number plain (λ query. []) (Json.obj Json.end) stocked)
get_list-IsListed_example = get_list-IsListed plain number (λ query. []) (Json.obj Json.end) stocked

abbrev turns : List (Turn ℕ)
turns =
    record { turn = 1; win_probability = some 50 }
    ∷ record { turn = 2; win_probability = some 60 }
    ∷ record { turn = 3; win_probability = none }
    ∷ record { turn = 40; win_probability = some 70 }
    ∷ []

turn_axis-Ascends_example : Ascends 1 40 (turn_axis turns) × length (turn_axis turns) ≤ 13
turn_axis-Ascends_example = turn_axis-Ascends turns (omega arith)

turns_ticked : turn_axis turns ≡ 1 ∷ 5 ∷ 9 ∷ 13 ∷ 17 ∷ 21 ∷ 25 ∷ 29 ∷ 33 ∷ 37 ∷ 40 ∷ []
unfolding turn_axis
turns_ticked = refl

axis_ticks-fuel_example : closed 40 (ticks_from 45 (tick_step 1 40) 1 40) ≡ axis_ticks 1 40
axis_ticks-fuel_example = axis_ticks-fuel 1 40 5

eval_segments-drawn_example : drawn (eval_segments turns) ≡ lines_from none turns
eval_segments-drawn_example = eval_segments-drawn turns

run-unmounted_example :
    (let here : Poller = run (λ json. []) mounted (replied (got (Json.obj Json.end)) ∷ []) in
      let later : Poller =
        run
          (λ json. [])
          mounted
          ((replied (got (Json.obj Json.end)) ∷ []) ++ unmounted ∷ timer ∷ []) in
      later.shown ≡ here.shown × later.requests ≤ suc here.requests)
run-unmounted_example =
    run-unmounted (λ json. []) (replied (got (Json.obj Json.end)) ∷ []) (timer ∷ [])

abbrev env : Environment
env = record {
  lookup = λ key. if text_eq key (text "DATABASE_URL_PARAMETER") then some (text "/db") else none;
  number = λ s. none;
  stringify = λ s. s;
}

abbrev secrets : Text → Reading
secrets name = parameter (some (text "postgres://"))

abbrev config : ApiConfig
config = record {
  port = 8080;
  database_url = text "postgres://";
  showdown_base_url = text "https://replay.pokemonshowdown.com/";
  replay_max_bytes = 5242880;
  replay_timeout_ms = 20000;
  submit_rate_limit_per_hour = 20;
  poke_engine_tag = text "v0.0.48";
  usage_stats_dataset = text "2026-07";
  db_pool_max = 10;
  worker_launch = none;
}

started : (start env secrets).outcome ≡ done config
unfolding start text text_eq
started = refl

start-source_example :
    FromEnvironment env ((start env secrets).reads) config
    ⊎ FromStore env secrets
        (value env (text "DATABASE_URL_PARAMETER"))
        ((start env secrets).reads)
        config
start-source_example = start-source env secrets config started

abbrev consecutive : List (Turn ℕ)
consecutive =
    record { turn = 4; win_probability = none }
    ∷ record { turn = 5; win_probability = some 50 }
    ∷ []

-- A click left of the plot, and one right of it.
abbrev mouse : List Mouse
mouse = moved 0 ∷ clicked ∷ moved 9 ∷ clicked ∷ []

run-selections_example :
    All
      (IsTurn consecutive)
      (Hover.run consecutive (record { hover = none; selections = [] }) mouse).selections
run-selections_example =
    run-selections (record { turn = 4; win_probability = none })
      (record { turn = 5; win_probability = some 50 } ∷ []) mouse (refl, tt)
