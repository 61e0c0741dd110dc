-- ===== src/Tests/Served.antt =====
-- The web client in front of the API.
use battle_cloud.Common.{
  ℕ, zero, suc, ◌≡◌, ◌≢◌, refl, true, inl, inr, List, [], ◌∷◌, ◌++◌, map, Option, none, some, Text,
  text, text_eq, ap, arith, ◌&&◌, if◌then◌else◌,
}
use battle_cloud.Json.{Json, get, IsFinite}
use battle_cloud.Contract.Profiles.{ladder_parity}
use battle_cloud.Contract.Identity.{p1, is_safe_replay_id, derive_identity, SubmitRequest}
use battle_cloud.Contract.Uri.{encode_uri_component, decimal}
use battle_cloud.Strings.{split, is_space}
use battle_cloud.Replay.Lines.{cr_to_lf, crlf_to_lf, is_turn_line}
use battle_cloud.Replay.Estimate.{estimate_turns, estimate_duration}
use battle_cloud.Replay.Fetch.{fetch_replay}
use battle_cloud.Replay.Read.{read_capped}
use battle_cloud.Store.Windows.{consume_rate_limit}
use battle_cloud.Store.Replays.{replay_log}
use battle_cloud.Store.Jobs.{JobStatus, queued, running, succeeded, enqueue, job_by_id, to_job}
use battle_cloud.Store.Analyses.{newest_first, to_summary, join_replays, analysis_by_identity}
use battle_cloud.RateLimit.{try_consume}
use battle_cloud.Routes.{job, job_view, submitted, sent, location, Api}
use battle_cloud.Routes.Lookups
use battle_cloud.Routes.Wire.{body_json}
use battle_cloud.Routes.Submit.{submit_analysis}
use battle_cloud.Routes.Listing.Query.{get_list}
use battle_cloud.Routes.Listing.Walk.Pages.{joined}
use battle_cloud.Web.ReplayId.{parse_replay_id}
use battle_cloud.Web.Client.{submit_json, HttpRequest, Fetched, unreachable, list_query, suffix}
use battle_cloud.Web.Client.Served.{Wire, carried, IsSubmitServing}
use battle_cloud.Web.Form.{on_submit}
use battle_cloud.Web.Form.Served.{ShownAs, answer_to, on_submit-served}
use battle_cloud.Web.Polling.{mounted, run, replied}
use battle_cloud.Web.Polling.Followed.{
  IsServing, IsWaiting, IsDone, polls, polled, gone_to, run-polls,
}
use battle_cloud.Web.Recent.{opened, press_all, load}
use battle_cloud.Web.Recent.Complete.{query_json, IsListServing, with_rows, press_all_complete}
use battle_cloud.Tests.Inputs.{plain, plain-IsLawful, deps, empty_api, request_at}
use battle_cloud.Tests.Browsers.{browser, browser-IsLawful}
use battle_cloud.Tests.Paging.{stocked, rows-IsDistinct, rows-IsSeparated, rows-IsKeyed, two_rows}
use battle_cloud.Tests.Submissions.{view, waiting}

abbrev pub wire : Wire
wire = record { platform = plain; reason = λ code. []; crash_body = λ message. message }

abbrev pub display : Option Json → Text
display json = []

abbrev input : Text
input = text "https://x/gen9ou-1"

abbrev asked : SubmitRequest
asked = record { replay_id = parse_replay_id input; perspective = p1; profile = ladder_parity }

asked_id : parse_replay_id input ≡ text "gen9ou-1"
unfolding parse_replay_id text split is_space
asked_id = refl

asked_filled : parse_replay_id input ≢ []
unfolding parse_replay_id text split is_space
asked_filled h = cc h

-- A network that takes submissions and nothing else, and reads their bodies.
abbrev submit_read : Option Json → Fetched
submit_read none = unreachable
submit_read (some json) =
    carried wire browser
      (submit_analysis deps (record (request_at 5 (text "a")) { body = json }) empty_api).answer

abbrev submit_network : HttpRequest → Fetched
submit_network http =
    if text_eq http.method (text "POST") && text_eq http.path (text "/v1/analyses")
    then elim http.body [ none ↦ unreachable | some body ↦ submit_read (browser.parse body) ]
    else unreachable

submit_network-reached :
    (json : Json)
    → IsFinite json
    → submit_network (record {
      method = text "POST";
      path = text "/v1/analyses";
      body = some (browser.stringify json);
    })
      ≡ carried wire browser
          (submit_analysis deps (record (request_at 5 (text "a")) { body = json }) empty_api).answer
unfolding text text_eq
submit_network-reached json finite = ap submit_read (browser-IsLawful.round json finite)

submit-IsServing :
    IsSubmitServing wire browser submit_network deps (request_at 5 (text "a")) empty_api
submit-IsServing = record { lawful = browser-IsLawful; reached = submit_network-reached }

handed_out :
    answer_to display wire browser submit_network deps (request_at 5 (text "a")) empty_api asked
    ≡ sent 202 (location (text "/v1/jobs/a") ∷ []) (submitted view true)
unfolding text submit_analysis text_eq get is_safe_replay_id analysis_by_identity try_consume
    consume_rate_limit replay_log fetch_replay read_capped enqueue derive_identity estimate_turns
    estimate_duration split cr_to_lf crlf_to_lf is_turn_line parse_replay_id is_space submit_json
handed_out = refl

handed_out-IsFinite : IsFinite (body_json plain (submitted view true))
unfolding body_json
handed_out-IsFinite = (tt, (tt, (tt, (tt, (tt, (tt, (tt, (tt, (tt, (tt, (tt, (tt, tt))))))))))))

on_submit-served_example :
    ShownAs (submitted view true) (on_submit display browser submit_network input p1 ladder_parity)
on_submit-served_example =
    on_submit-served display wire browser submit_network deps (request_at 5 (text "a")) empty_api
      input p1 ladder_parity 202 (location (text "/v1/jobs/a") ∷ []) (submitted view true)
      submit-IsServing asked_filled handed_out handed_out-IsFinite

-- The API with the job in a state.
abbrev at_status : JobStatus → Option Text → Api
at_status status analysis = record empty_api {
  jobs = record waiting { status = status; analysis_id = analysis } ∷ [];
}

abbrev network : Api → HttpRequest → Fetched
network api http = carried wire browser (Lookups.get_job plain (text "a") api)

polling-IsServing : IsServing wire browser network (text "a") (text "a")
unfolding text encode_uri_component
polling-IsServing = record {
  lawful = browser-IsLawful;
  encoded = refl;
  reached = λ api. refl;
  canonical = refl;
}

queued-IsWaiting : IsWaiting wire browser network (text "a") (text "a") (at_status queued none)
unfolding job_by_id text text_eq
queued-IsWaiting = record { row = to_job waiting; there = refl; active = inl refl }

running-IsWaiting : IsWaiting wire browser network (text "a") (text "a") (at_status running none)
unfolding job_by_id text text_eq to_job
running-IsWaiting = record {
  row = to_job (record waiting { status = running });
  there = refl;
  active = inr refl;
}

succeeded-IsDone :
    IsDone wire browser network
      (text "a")
      (text "a")
      (text "d")
      (at_status succeeded (some (text "d")))
unfolding job_by_id text text_eq to_job
succeeded-IsDone = record {
  row = to_job (record waiting { status = succeeded; analysis_id = some (text "d") });
  there = refl;
  done = refl;
  linked = refl;
}

run-polls_example :
    run display mounted (
      polls wire browser network
        (text "a")
        (text "a")
        (at_status queued none ∷ at_status running none ∷ [])
      ++ replied (
          polled wire browser network (text "a") (text "a") (at_status succeeded (some (text "d"))))
        ∷ [])
    ≡ gone_to wire browser network
        (text "a")
        (text "a")
        (text "d")
        (body_json plain (job (job_view (succeeded-IsDone.row))))
        3
run-polls_example =
    run-polls wire browser network (text "a") (text "a") display
      (at_status queued none ∷ at_status running none ∷ []) (text "d")
      (at_status succeeded (some (text "d"))) succeeded-IsDone polling-IsServing
      (queued-IsWaiting, (running-IsWaiting, tt))

abbrev number : Json → Option ℕ
number json = some 20

abbrev issues : Json → List Text
issues json = []

abbrev drop : ℕ → Text → Text
drop zero s = s
drop (suc n) [] = []
drop (suc n) (c ∷ s) = drop n s

abbrev cursor_in : Text → Option Text
cursor_in [] = none
cursor_in (c ∷ s) = some (drop 8 (c ∷ s))

-- The cursor stands behind `/v1/analyses?limit=20&cursor=`.
abbrev list_network : HttpRequest → Fetched
list_network http =
    carried wire browser
      (get_list number plain issues (query_json (cursor_in (drop 21 http.path))) stocked)

list_network-reached :
    (from : Option Text)
    → list_network (record {
      method = text "GET";
      path = text "/v1/analyses" ++ suffix (list_query browser (some 20) from);
      body = none;
    })
      ≡ carried wire browser (get_list number plain issues (query_json from) stocked)
unfolding text decimal
list_network-reached none = refl
list_network-reached (some cursor) = refl

list-IsListServing : IsListServing wire browser list_network number issues stocked
list-IsListServing = record {
  lawful = browser-IsLawful;
  twenty = refl;
  filled = λ s h. h;
  reached = list_network-reached;
}

press_all_complete_example :
    press_all display browser list_network 2 (load display browser list_network opened none)
    ≡ some (
        with_rows wire browser list_network number issues stocked opened
          (map to_summary (newest_first plain (joined plain plain-IsLawful stocked)))
          none)
unfolding join_replays text_eq
press_all_complete_example =
    press_all_complete wire browser list_network number issues stocked display plain-IsLawful 2
      list-IsListServing rows-IsDistinct rows-IsSeparated rows-IsKeyed (omega (arith, two_rows))
