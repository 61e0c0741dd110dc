-- ===== src/Tests/Submissions.antt =====
-- Submissions and jobs.
use battle_cloud.Common.{◌≡◌, refl, true, none, some, List, [], ◌∷◌, text, text_eq, arith}
use battle_cloud.Json
use battle_cloud.Json.{get, fraction}
use battle_cloud.Contract.Profiles.{ladder_parity}
use battle_cloud.Contract.Identity.{
  p1, AnalysisIdentity, SubmitRequest, is_safe_replay_id, derive_identity,
}
use battle_cloud.Contract.Schemas.{parse_submit, success}
use battle_cloud.Strings.{split}
use battle_cloud.Replay.Lines.{cr_to_lf, crlf_to_lf, is_turn_line}
use battle_cloud.Replay.Estimate.{estimate_turns, estimate_duration}
use battle_cloud.Replay.Fetch.{fetch_replay}
use battle_cloud.Replay.Read.{read_capped}
use battle_cloud.Store.Windows.{consume_rate_limit}
use battle_cloud.Store.Replays.{ReplayRow, replay_log}
use battle_cloud.Store.Jobs.{queued, Stamp, JobRow, enqueue}
use battle_cloud.Store.Jobs.Enqueue.{IsUnique, IsFresh}
use battle_cloud.Store.Analyses.{AnalysisRow, analysis_by_identity}
use battle_cloud.RateLimit.{try_consume}
use battle_cloud.Routes.{
  status, Outcome, Api, Deps, crashed, sent, job, submitted, location, JobView,
}
use battle_cloud.Routes.Submit.{number_or_null, submit_analysis}
use battle_cloud.Routes.Submit.Queue.{IsQueued, submit_analysis-IsQueued}
use battle_cloud.Routes.Submit.Again.{IsRepeated, submit_analysis_again}
use battle_cloud.Routes.Submit.Statuses.{IsAnswered, submit_analysis-IsAnswered}
use battle_cloud.Routes.Submit.Cache.{IsHit, submit_analysis-IsHit}
use battle_cloud.Routes.Lookups.{get_job, get_job-submit_analysis}
use battle_cloud.Tests.Inputs.{plain, build, deps, replay_deps, empty_api, request_at}

abbrev submit : SubmitRequest
submit = record { replay_id = text "gen9ou-1"; perspective = p1; profile = ladder_parity }

abbrev pub identity : AnalysisIdentity
identity = derive_identity submit build

abbrev pub stamp : Stamp
stamp = record { id = text "b"; now = 7000 }

abbrev pub waiting : JobRow
waiting = record {
  id = text "a";
  identity = identity;
  profile = ladder_parity;
  status = queued;
  attempts = 0;
  estimated_turns = some 3;
  estimated_search_ms = some 3000;
  analysis_id = none;
  error_kind = none;
  created_at = 5000;
  updated_at = 5000;
}

abbrev pub jobs : List JobRow
jobs = waiting ∷ []

jobs-IsUnique : IsUnique jobs
jobs-IsUnique = record { at_id = λ id. ground arith; at_identity = λ i. ground arith }

jobs-IsFresh : IsFresh stamp.id jobs
unfolding text text_eq
jobs-IsFresh = refl

abbrev outcome : Outcome
outcome = submit_analysis deps (request_at 5 (text "a")) empty_api

pub empty-IsUnique : IsUnique empty_api.jobs
empty-IsUnique = record { at_id = λ id. omega arith; at_identity = λ i. omega arith }

accepted : status outcome.answer ≡ 202
unfolding text submit_analysis text_eq get is_safe_replay_id analysis_by_identity try_consume
    consume_rate_limit replay_log fetch_replay read_capped
accepted = refl

submit_analysis_again_example : IsRepeated deps (request_at 9 (text "c")) outcome
submit_analysis_again_example =
    submit_analysis_again deps (request_at 5 (text "a")) (request_at 9 (text "c")) empty_api refl
      accepted

submit_analysis-IsQueued_example : IsQueued [] outcome
submit_analysis-IsQueued_example =
    submit_analysis-IsQueued deps (request_at 5 (text "a")) empty_api refl empty-IsUnique

submit_analysis-IsAnswered_example : IsAnswered deps (request_at 5 (text "a")) outcome.answer
submit_analysis-IsAnswered_example =
    submit_analysis-IsAnswered deps (request_at 5 (text "a")) empty_api

-- A host that sends a rating with a fraction, which no column of integers takes.
abbrev fraction_deps : Deps
fraction_deps = record deps {
  replay = record replay_deps {
    parse_json = λ s. some (
        Json.obj (
          Json.field (text "log") (Json.str s)
            (Json.field (text "rating") (Json.other_num fraction (text "1500.5")) Json.end)));
  };
}

fraction_crashes :
    (submit_analysis fraction_deps (request_at 5 (text "a")) empty_api).answer
    ≡ crashed (text "invalid input syntax for type integer")
unfolding text submit_analysis text_eq get is_safe_replay_id analysis_by_identity try_consume
    consume_rate_limit replay_log fetch_replay read_capped number_or_null
fraction_crashes = refl

abbrev pub view : JobView
view = record {
  job_id = text "a";
  status = queued;
  replay_id = text "gen9ou-1";
  perspective = p1;
  profile = ladder_parity;
  estimated_turns = some 0;
  estimated_search_ms = some 0;
  analysis_id = none;
  error_kind = none;
  created_at = 5;
  updated_at = 5;
}

handed_out : outcome.answer ≡ sent 202 (location (text "/v1/jobs/a") ∷ []) (submitted view true)
unfolding text submit_analysis text_eq get is_safe_replay_id analysis_by_identity try_consume
    consume_rate_limit replay_log fetch_replay read_capped enqueue derive_identity estimate_turns
    estimate_duration split cr_to_lf crlf_to_lf is_turn_line
handed_out = refl

get_job-submit_analysis_example : get_job plain (text "a") outcome.api ≡ sent 200 [] (job view)
get_job-submit_analysis_example =
    get_job-submit_analysis plain deps (request_at 5 (text "a")) empty_api
      (location (text "/v1/jobs/a") ∷ []) view true refl empty-IsUnique handed_out refl

abbrev analysis_row : AnalysisRow
analysis_row = record {
  id = text "d";
  identity = identity;
  document = Json.null;
  total_turns = 3;
  gradable_turns = 2;
  created_at = 4000;
}

abbrev stocked : Api
stocked = record empty_api { analyses = analysis_row ∷ [] }

parsed_body : parse_submit deps.issues (request_at 5 (text "a")).body ≡ success submit
unfolding text parse_submit text_eq get is_safe_replay_id
parsed_body = refl

submit_analysis-IsHit_example :
    IsHit deps
      (request_at 5 (text "a"))
      stocked
      submit
      (submit_analysis deps (request_at 5 (text "a")) stocked)
submit_analysis-IsHit_example =
    submit_analysis-IsHit deps (request_at 5 (text "a")) stocked submit [] analysis_row []
      parsed_body refl refl

abbrev replay_row : ReplayRow
replay_row = record {
  id = text "gen9ou-1";
  format = text "gen9ou";
  rating = none;
  players = Json.null;
  log = text "|";
  payload_bytes = 1;
}
