-- ===== src/Routes/Submit.antt =====
-- `POST /v1/analyses` of api/src/routes.ts.
pub mod Queue
pub mod Admitted
pub mod Again
pub mod Statuses
pub mod Cache
pub mod Shape
use battle_cloud.Common.{
  ℕ, ◌+◌, Bool, true, false, ◌&&◌, ltb, leb, List, [], ◌∷◌, ◌++◌, map, Option, none, some, Text,
  text, length, if◌then◌else◌,
}
use battle_cloud.Json
use battle_cloud.Json.{Json, Items}
use battle_cloud.Contract.Errors.{invalid_request, rate_limited}
use battle_cloud.Contract.Schemas.{Parsed, success, failure, parse_submit}
use battle_cloud.Contract.Identity.{AnalysisIdentity, SubmitRequest, derive_identity}
use battle_cloud.Replay.Estimate.{estimate_turns, estimate_duration}
use battle_cloud.Replay.Read.{replay_fetch_error, other_error, Thrown, Result, ok, throw}
use battle_cloud.Replay.Fetch.{ReplayPayload, fetch_replay}
use battle_cloud.Store.Replays.{Rating, natural, negative, ReplayRow, replay_log, upsert_replay}
use battle_cloud.Store.Jobs.{JobStatus, queued, Stamp, Enqueued, enqueue}
use battle_cloud.Store.Analyses.{StoredAnalysis, analysis_by_identity}
use battle_cloud.RateLimit.{try_consume, retry_after_seconds}
use battle_cloud.Routes.{
  envelope, job_view, Answer, sent, crashed, error, analysis, submitted, retry_after, location,
  fail, join_issues, Deps, Api, Action, network, launch, Outcome,
}

-- A submission as it arrives: its body and address, the times that the limiter reads when it counts
-- and when it advises, and what the database would give a new row.
pub record Request : Type 0 where
  pub body : Json
  pub ip : Text
  pub at : ℕ
  pub refused_at : ℕ
  pub stamp : Stamp

-- The UTF-8 bytes of a code unit that is no half of a pair; a lone surrogate is replaced by U+FFFD.
abbrev unit_bytes : ℕ → ℕ
unit_bytes u = if ltb u 0x80 then 1 else if ltb u 0x800 then 2 else 3

-- `Buffer.byteLength(s, 'utf8')`
unfoldable pub byte_length : Text → ℕ
byte_length [] = 0
byte_length (u ∷ []) = unit_bytes u
byte_length (u ∷ v ∷ rest) =
    let pair = 4 + byte_length rest in
    let single = unit_bytes u + byte_length (v ∷ rest) in
    if leb 0xD800 u && leb u 0xDBFF && leb 0xDC00 v && leb v 0xDFFF then pair else single

text_or_unknown : Option Json → Text
text_or_unknown (some (Json.str s)) = s
text_or_unknown _ = text "unknown"

-- What a column makes of a value: it takes it, or the statement fails.
pub data Column {ℓ} (A : Type ℓ) : Type ℓ where
  takes : A → Column A
  refuses : Text → Column A

-- A number goes to a column of integers, whatever number it is.
unfoldable pub number_or_null : Option Json → Column (Option Rating)
number_or_null (some (Json.num n)) = takes (some (natural n))
number_or_null (some (Json.other_num Json.negative t)) = takes (some (negative t))
number_or_null (some (Json.other_num Json.fraction t)) =
    refuses (text "invalid input syntax for type integer")
number_or_null (some (Json.other_num Json.infinite t)) =
    refuses (text "invalid input syntax for type integer")
number_or_null _ = takes none

value_or_empty : Option Json → Json
value_or_empty none = Json.arr Json.nil
value_or_empty (some Json.null) = Json.arr Json.nil
value_or_empty (some json) = json

-- The row of a fetched replay with its rating.
unfoldable pub replay_row : Text → ReplayPayload → Option Rating → ReplayRow
unfolding text_or_unknown value_or_empty byte_length
replay_row replay_id payload rating = record {
  id = replay_id;
  format = text_or_unknown (Json.get (text "formatid") payload.raw);
  rating = rating;
  players = value_or_empty (Json.get (text "players") payload.raw);
  log = payload.log;
  payload_bytes = byte_length payload.log;
}

-- What the `try` leaves: the turns or what was thrown, the replays, and the actions.
pub record Obtained : Type 0 where
  pub turns : Result ℕ
  pub replays : List ReplayRow
  pub actions : List Action

abbrev pub checked_row : ReplayRow → Option Text → Column ReplayRow
checked_row row none = takes row
checked_row row (some message) = refuses message

abbrev pub row_with : Deps → Text → ReplayPayload → Column (Option Rating) → Column ReplayRow
row_with deps replay_id payload (refuses message) = refuses message
row_with deps replay_id payload (takes rating) =
    let row = replay_row replay_id payload rating in checked_row row (deps.refusal row)

-- The row as the database takes it.
abbrev pub row_of : Deps → Text → ReplayPayload → Column ReplayRow
row_of deps replay_id payload =
    row_with deps replay_id payload (number_or_null (Json.get (text "rating") payload.raw))

-- The statement that stores a row.
abbrev pub stored : Column ReplayRow → List ReplayRow → Result (Unit {0}) × List ReplayRow
stored (takes row) replays = (ok tt, upsert_replay row replays)
stored (refuses message) replays = (throw (other_error message), replays)

-- The turns, unless the row was not stored.
abbrev pub turns_of : Text → Result (Unit {0}) × List ReplayRow → Result ℕ × List ReplayRow
turns_of log (ok done, replays) = (ok (estimate_turns log), replays)
turns_of log (throw thrown, replays) = (throw thrown, replays)

abbrev pub kept : Deps → Text → List ReplayRow → Result ReplayPayload → Result ℕ × List ReplayRow
kept deps replay_id replays (throw thrown) = (throw thrown, replays)
kept deps replay_id replays (ok payload) =
    turns_of payload.log (stored (row_of deps replay_id payload) replays)

-- Only for a job still waiting.
abbrev pub launches : JobStatus → List Action
launches queued = launch ∷ []
launches _ = []

module _ (deps : Deps) where
  -- Fetched only when no log is stored.
  unfoldable pub log_or_fetch : Text → List ReplayRow → Option Text → Obtained
  unfolding replay_row number_or_null
  log_or_fetch replay_id replays (some log) = record {
    turns = ok (estimate_turns log);
    replays = replays;
    actions = [];
  }
  log_or_fetch replay_id replays none =
      let (payload, effects) = fetch_replay deps.replay replay_id in
      let (turns, replays') = kept deps replay_id replays payload in
      record { turns = turns; replays = replays'; actions = map network effects }

  unfoldable pub obtain : Text → List ReplayRow → Obtained
  unfolding log_or_fetch
  obtain replay_id replays = log_or_fetch replay_id replays (replay_log replay_id replays)

  -- From `enqueue` on. What the launcher does is caught, and the reply does not depend on it.
  unfoldable pub accept :
      Request → SubmitRequest → AnalysisIdentity → ℕ → Api → List Action → Outcome
  unfolding job_view
  accept request submit identity turns api actions =
      let (enqueued, jobs) =
        enqueue request.stamp identity submit.profile turns (estimate_duration turns submit.profile)
          api.jobs in
      record {
        answer =
            sent 202 (location (text "/v1/jobs/" ++ enqueued.job.id) ∷ [])
              (submitted (job_view enqueued.job) enqueued.created);
        api = record api { jobs = jobs };
        actions = actions ++ launches enqueued.job.status;
      }

  -- The `catch`, or on to the queue.
  unfoldable pub settle :
      Request → SubmitRequest → AnalysisIdentity → Api → List Action → Result ℕ → Outcome
  unfolding accept fail
  settle request submit identity api actions (ok turns) =
      accept request submit identity turns api actions
  settle request submit identity api actions (throw (replay_fetch_error kind message)) = record {
    answer = fail kind message;
    api = api;
    actions = actions;
  }
  settle request submit identity api actions (throw (other_error message)) = record {
    answer = crashed message;
    api = api;
    actions = actions;
  }

  -- What the limiter's answer leads to.
  unfoldable pub admit : Request → SubmitRequest → AnalysisIdentity → Api → Bool → Outcome
  unfolding obtain settle
  admit request submit identity api false = record {
    answer =
        sent 429 (retry_after (retry_after_seconds api.limiter request.refused_at) ∷ [])
          (error rate_limited (text "submission rate exceeded"));
    api = api;
    actions = [];
  }
  admit request submit identity api true =
      let obtained = obtain submit.replay_id api.replays in
      settle request submit identity (record api { replays = obtained.replays }) obtained.actions
        obtained.turns

  -- From the limiter on, for an analysis that is not there.
  unfoldable pub charge : Request → SubmitRequest → AnalysisIdentity → Api → Outcome
  unfolding admit
  charge request submit identity api =
      let (allowed, (limiter, windows)) =
        try_consume api.limiter request.ip request.at api.windows in
      admit request submit identity (record api { limiter = limiter; windows = windows }) allowed

  -- Cache first: an analysis that is there is sent, and nothing is charged for it.
  unfoldable pub respond :
      Request → SubmitRequest → AnalysisIdentity → Api → Option StoredAnalysis → Outcome
  unfolding charge envelope
  respond request submit identity api (some found) = record {
    answer = sent 200 [] (analysis (envelope found));
    api = api;
    actions = [];
  }
  respond request submit identity api none = charge request submit identity api

  unfoldable pub handle : Request → Api → Parsed SubmitRequest → Outcome
  unfolding respond join_issues
  handle request api (failure issues) = record {
    answer = fail invalid_request (join_issues issues);
    api = api;
    actions = [];
  }
  handle request api (success submit) =
      let identity = derive_identity submit deps.build in
      respond request submit identity api (analysis_by_identity identity api.analyses)

  unfoldable pub submit_analysis : Request → Api → Outcome
  unfolding handle parse_submit
  submit_analysis request api = handle request api (parse_submit deps.issues request.body)
