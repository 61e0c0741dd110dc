-- ===== src/Tests/Replays.antt =====
-- Logs, bodies and fetches.
use battle_cloud.Common.{
  ◌≡◌, ◌↔◌, ◌+◌, ◌≢◌, refl, true, some, List, [], ◌∷◌, ◌++◌, text, arith, Text, count_if, All,
  text_eq,
}
use battle_cloud.Json
use battle_cloud.Json.{get}
use battle_cloud.Strings.{is_space}
use battle_cloud.Contract.Identity.{is_safe_replay_id}
use battle_cloud.Replay.Lines.{is_turn_line}
use battle_cloud.Replay.Estimate.{
  Ending, unix, windows, assemble, one_if, estimate_turns, estimate_turns-assemble,
}
use battle_cloud.Replay.Read.{Read, chunk, no_value, rejected, ok, throw, other_error, read_capped}
use battle_cloud.Replay.Fetch.{
  Response, ReplayDeps, ReplayPayload, responded, fetch_replay, is_ok, is_blank,
}
use battle_cloud.Replay.Fetch.Payload.{IsFetched, fetch_replay_iff}
use battle_cloud.Replay.Fetch.Failures.{fetch_replay_body_failure}
use battle_cloud.Tests.Inputs.{replay_deps}

-- |turn|1
abbrev turn_line : Text
turn_line = b'|' ∷ b't' ∷ b'u' ∷ b'r' ∷ b'n' ∷ b'|' ∷ b'1' ∷ []

abbrev lines : List (Text × Ending)
lines = (turn_line, windows) ∷ ([], unix) ∷ []

turn_line_clean : All (λ c. (c ≢ 13) × (c ≢ 10)) turn_line
turn_line_clean = ground arith

estimate_turns-assemble_example :
    estimate_turns (assemble lines turn_line)
    ≡ count_if (λ l. is_turn_line l.0) lines + one_if (is_turn_line turn_line)
estimate_turns-assemble_example =
    estimate_turns-assemble lines turn_line (turn_line_clean, (tt, tt)) turn_line_clean

abbrev reads : List Read
reads = chunk (1 ∷ 2 ∷ []) ∷ no_value ∷ []

kept_bytes : (read_capped (some reads) 3).0 ≡ ok (1 ∷ 2 ∷ [])
unfolding read_capped
kept_bytes = refl

abbrev id : Text
id = b'a' ∷ []

abbrev payload : ReplayPayload
payload = record {
  id = id;
  log = b'|' ∷ [];
  raw = Json.field (text "log") (Json.str (b'|' ∷ [])) Json.end;
}

fetch_replay_iff_example :
    ((fetch_replay replay_deps id).0 ≡ ok payload) ↔ IsFetched replay_deps id payload
fetch_replay_iff_example = fetch_replay_iff replay_deps id payload

fetched_payload : (fetch_replay replay_deps id).0 ≡ ok payload
unfolding fetch_replay is_safe_replay_id read_capped get text text_eq is_blank is_space is_ok
fetched_payload = refl

-- A host whose body breaks after one chunk.
abbrev broken : Response
broken = record { status = 200; body = some (chunk (1 ∷ []) ∷ rejected (b'x' ∷ []) ∷ []) }

abbrev broken_deps : ReplayDeps
broken_deps = record replay_deps { fetch = λ url. responded broken }

id_safe : is_safe_replay_id id ≡ true
unfolding is_safe_replay_id
id_safe = refl

status_ok : is_ok broken ≡ true
unfolding is_ok
status_ok = refl

fetch_replay_body_failure_example :
    (fetch_replay broken_deps id).0 ≡ throw (other_error (b'x' ∷ []))
fetch_replay_body_failure_example =
    fetch_replay_body_failure broken_deps id (id ++ text ".json") broken (chunk (1 ∷ []) ∷ [])
      (b'x' ∷ []) [] id_safe refl refl status_ok refl (tt, tt) (omega arith)
