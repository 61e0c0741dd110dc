-- ===== src/Web/Client.antt =====
-- The requests of web/src/api.ts. A payload is the JSON that it is: the casts check nothing.
pub mod Served
use battle_cloud.Common.{
  ℕ, Bool, not, List, [], ◌∷◌, ◌++◌, Option, none, some, Text, text, leb, ◌&&◌, ◌==◌, if◌then◌else◌,
}
use battle_cloud.Json
use battle_cloud.Json.{Json}
use battle_cloud.Contract.Profiles.{profile_name}
use battle_cloud.Contract.Identity.{SubmitRequest}
use battle_cloud.Contract.Key.{perspective_text}
use battle_cloud.Contract.Uri.{encode_uri_component, decimal}

pub record HttpReply : Type 0 where
  pub status : ℕ
  pub status_text : Text
  pub body : Text

-- What `fetch` gives: an answer, none, or one whose body cannot be read.
pub data Fetched : Type 0 where
  answered : HttpReply → Fetched
  unreachable : Fetched
  broken : Fetched

pub record HttpRequest : Type 0 where
  pub method : Text
  pub path : Text
  pub body : Option Text

-- What the client takes from the browser: `JSON.stringify`, `JSON.parse`, whose `none` is a thrown
-- `SyntaxError`, and the encoding that `URLSearchParams` gives a value.
pub record Browser : Type 0 where
  pub stringify : Json → Text
  pub parse : Text → Option Json
  pub form_encode : Text → Text

-- `ApiError` with its kind, message and status, or what else is thrown.
pub data Failure : Type 0 where
  api_error : Json → Json → ℕ → Failure
  type_error : Failure
  syntax_error : Failure
  uri_error : Failure

pub data Got {ℓ} (A : Type ℓ) : Type ℓ where
  got : A → Got A
  failed : Failure → Got A

-- `response.ok`
abbrev pub is_ok_status : ℕ → Bool
is_ok_status status = leb 200 status && leb status 299

-- `json?.key`
abbrev pub property : Text → Json → Option Json
property key (Json.obj fields) = Json.get key fields
property key _ = none

-- `value ?? fallback`
abbrev pub nullish : Json → Option Json → Json
nullish fallback none = fallback
nullish fallback (some Json.null) = fallback
nullish fallback (some json) = json

abbrev pub inner : Text → Option Json → Option Json
inner key none = none
inner key (some json) = property key json

-- The error of a reply that is not ok.
abbrev pub reply_error : HttpReply → Option Json → Failure
reply_error reply error =
    api_error (nullish (Json.str (text "unknown")) (inner (text "kind") error))
      (nullish (Json.str reply.status_text) (inner (text "message") error)) reply.status

abbrev unreached : Failure
unreached =
    api_error (Json.str (text "unreachable")) (Json.str (text "the API could not be reached")) 0

abbrev of_payload : HttpReply → Option Json → Got Json
of_payload reply none = failed syntax_error
of_payload reply (some payload) =
    if not (is_ok_status reply.status)
    then failed (reply_error reply (property (text "error") payload))
    else got payload

-- An empty body stands for null.
abbrev pub payload_of : Browser → Text → Option Json
payload_of browser [] = some Json.null
payload_of browser (c ∷ s) = browser.parse (c ∷ s)

abbrev received : Browser → Fetched → Got Json
received browser unreachable = failed unreached
received browser broken = failed type_error
received browser (answered reply) = of_payload reply (payload_of browser reply.body)

-- `request`
unfoldable pub request : Browser → (HttpRequest → Fetched) → Text → Got Json
request browser fetch path =
    received browser (fetch (record { method = text "GET"; path = path; body = none }))

-- `query.toString()` after the two `set` calls
abbrev pub list_query : Browser → Option ℕ → Option Text → Text
list_query browser none none = []
list_query browser (some limit) none = text "limit=" ++ browser.form_encode (decimal limit)
list_query browser none (some cursor) = text "cursor=" ++ browser.form_encode cursor
list_query browser (some limit) (some cursor) =
    text "limit="
    ++ (browser.form_encode (decimal limit) ++ (text "&cursor=" ++ browser.form_encode cursor))

abbrev pub suffix : Text → Text
suffix [] = []
suffix (c ∷ query) = b'?' ∷ c ∷ query

-- `listAnalyses`
unfoldable pub list_analyses : Browser → (HttpRequest → Fetched) → Option ℕ → Option Text → Got Json
unfolding request
list_analyses browser fetch limit cursor =
    request browser fetch (text "/v1/analyses" ++ suffix (list_query browser limit cursor))

abbrev with_id : Browser → (HttpRequest → Fetched) → Text → Option Text → Got Json
with_id browser fetch folder none = failed uri_error
with_id browser fetch folder (some id) = request browser fetch (folder ++ id)

-- `getAnalysis`
unfoldable pub get_analysis : Browser → (HttpRequest → Fetched) → Text → Got Json
unfolding request
get_analysis browser fetch id =
    with_id browser fetch (text "/v1/analyses/") (encode_uri_component id)

-- `getJob`
unfoldable pub get_job : Browser → (HttpRequest → Fetched) → Text → Got Json
unfolding request
get_job browser fetch id = with_id browser fetch (text "/v1/jobs/") (encode_uri_component id)

-- `SubmitResult`
pub data SubmitResult : Type 0 where
  job : Json → SubmitResult
  analysis : Json → SubmitResult

unfoldable pub submit_json : SubmitRequest → Json
unfolding perspective_text
submit_json r = Json.obj (
    Json.object (
      (text "replayId", Json.str r.replay_id)
      ∷ (text "perspective", Json.str (perspective_text r.perspective))
      ∷ (text "profile", Json.str (profile_name r.profile))
      ∷ []))

-- Here the payload is read without `?.`: null has no property.
abbrev refused_payload : HttpReply → Json → Failure
refused_payload reply Json.null = type_error
refused_payload reply payload = reply_error reply (property (text "error") payload)

abbrev submitted_payload : HttpReply → Option Json → Got SubmitResult
submitted_payload reply none = failed syntax_error
submitted_payload reply (some payload) =
    if not (is_ok_status reply.status)
    then failed (refused_payload reply payload)
    else if reply.status == 200
    then got (analysis payload)
    else got (job payload)

-- `submit`
unfoldable pub submit : Browser → (HttpRequest → Fetched) → SubmitRequest → Got SubmitResult
unfolding submit_json
submit browser fetch r =
    elim (fetch (record {
      method = text "POST";
      path = text "/v1/analyses";
      body = some (browser.stringify (submit_json r));
    })) [
      | unreachable ↦ failed unreached
      | broken ↦ failed type_error
      | answered reply ↦ submitted_payload reply (browser.parse reply.body)
    ]
