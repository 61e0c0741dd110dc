-- ===== src/Replay/Fetch.antt =====
-- `fetchReplay` of api/src/replay/fetch.ts.
pub mod Effects
pub mod Payload
pub mod Failures
use battle_cloud.Common.{
  ℕ, Bool, not, ◌&&◌, ◌||◌, List, [], ◌∷◌, ◌++◌, Option, none, some, Text, text, all, leb, ◌==◌,
  if◌then◌else◌,
}
use battle_cloud.Strings.{is_space}
use battle_cloud.Contract.Errors.{
  ErrorKind, invalid_replay_id, replay_not_found, replay_empty_log, replay_malformed,
  replay_transport_failure, replay_timeout,
}
use battle_cloud.Contract.Identity.{is_safe_replay_id}
use battle_cloud.Contract.Uri.{decimal}
use battle_cloud.Json
use battle_cloud.Json.{Json, Fields}
use battle_cloud.Replay.Read.{
  replay_fetch_error, other_error, Result, ok, throw, Effect, timer_set, timer_cleared, requested,
  Read, read_capped,
}

pub record Response : Type 0 where
  pub status : ℕ
  pub body : Option (List Read)

-- What `fetch` gives: an answer, or a rejection, which is an `AbortError` or not.
pub data FetchReply : Type 0 where
  responded : Response → FetchReply
  aborted : FetchReply
  failed : Text → FetchReply

-- `ReplayDeps`, and what the code takes from the platform: `new URL`, whose `none` is a thrown
-- `TypeError`, `TextDecoder`, `JSON.parse`, whose `none` is a thrown `SyntaxError`, and
-- `JSON.stringify` of a string. A URL stands as its `href`.
pub record ReplayDeps : Type 0 where
  pub fetch : Text → FetchReply
  pub base_url : Text
  pub max_bytes : ℕ
  pub timeout_ms : ℕ
  pub new_url : Text → Text → Option Text
  pub decode_utf8 : List ℕ → Text
  pub parse_json : Text → Option Json
  pub stringify : Text → Text

pub record ReplayPayload : Type 0 where
  pub id : Text
  pub log : Text
  pub raw : Fields

-- `response.ok`
unfoldable pub is_ok : Response → Bool
is_ok response = leb 200 response.status && leb response.status 299

-- `log.trim() === ''`
unfoldable pub is_blank : Text → Bool
unfolding is_space
is_blank log = all is_space log

abbrev pub fail {ℓ} : {A : Type ℓ} → ErrorKind → Text → Result A
fail kind message = throw (replay_fetch_error kind message)

-- A log that is a string with something in it.
usable_log : Option Json → Option Text
unfolding is_blank
usable_log (some (Json.str log)) = if is_blank log then none else some log
usable_log _ = none

-- The object test and the log test.
checked_payload : Text → Json → Result ReplayPayload
unfolding usable_log
checked_payload replay_id (Json.obj raw) = elim (usable_log (Json.get (text "log") raw)) [
  | none ↦ fail replay_empty_log (text "replay " ++ (replay_id ++ text " returned no usable log"))
  | some log ↦ ok (record { id = replay_id; log = log; raw = raw })
]
checked_payload replay_id _ = fail replay_malformed (text "replay body was not a JSON object")

module _ (deps : ReplayDeps) where
  -- From the bytes of the body on.
  parsed_payload : Text → Result (List ℕ) → Result ReplayPayload
  unfolding checked_payload
  parsed_payload replay_id (throw error) = throw error
  parsed_payload replay_id (ok bytes) = elim (deps.parse_json (deps.decode_utf8 bytes)) [
    | none ↦ fail replay_malformed (text "replay body was not valid JSON")
    | some parsed ↦ checked_payload replay_id parsed
  ]

  -- The second `try`: what is done with an answer, up to the `finally`.
  receive : Text → Text → Response → Result ReplayPayload × List Effect
  unfolding is_ok parsed_payload
  receive replay_id url response =
      if response.status == 404
      then (fail replay_not_found (text "no replay at " ++ url), [])
      else if not (is_ok response)
      then (
        fail replay_transport_failure
            (text "replay fetch returned HTTP " ++ decimal response.status),
        [],
      )
      else let (bytes, effects) = read_capped response.body deps.max_bytes in
        (parsed_payload replay_id bytes, effects)

  -- From the request on; the timer is cleared on every path.
  answer : Text → Text → FetchReply → Result ReplayPayload × List Effect
  unfolding receive
  answer replay_id url aborted = (
    fail replay_timeout
        (text "replay fetch timed out after " ++ (decimal deps.timeout_ms ++ text "ms")),
    timer_cleared ∷ [],
  )
  answer replay_id url (failed cause) =
      (fail replay_transport_failure (text "replay fetch failed: " ++ cause), timer_cleared ∷ [])
  answer replay_id url (responded response) =
      let (result, effects) = receive replay_id url response in
      (result, effects ++ timer_cleared ∷ [])

  unfoldable pub fetch_replay : Text → Result ReplayPayload × List Effect
  unfolding answer
  fetch_replay replay_id =
      if not (is_safe_replay_id replay_id)
      then (fail invalid_replay_id (text "unsafe replay id: " ++ deps.stringify replay_id), [])
      else elim (deps.new_url (replay_id ++ text ".json") deps.base_url) [
        | none ↦ (throw (other_error (text "Invalid URL")), [])
        | some url ↦
            let (result, effects) = answer replay_id url (deps.fetch url) in
            (result, timer_set ∷ requested url ∷ effects)
      ]
