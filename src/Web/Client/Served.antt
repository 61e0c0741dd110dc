-- ===== src/Web/Client/Served.antt =====
-- The client in front of the API: what a submission comes back as.
use battle_cloud.Common.{
  ℕ, ◌≡◌, refl, subst, false, List, [], ◌∷◌, none, some, arith, Text, text, text_eq, if◌then◌else◌,
}
use battle_cloud.Json
use battle_cloud.Json.{Json, IsFinite}
use battle_cloud.Platform.{Platform}
use battle_cloud.Contract.Profiles.{Profile, ladder_parity, quick}
use battle_cloud.Contract.Identity.{SubmitRequest, Perspective, p1, p2, is_safe_replay_id}
use battle_cloud.Contract.Key.{perspective_text}
use battle_cloud.Contract.Schemas.{accepted_submit}
use battle_cloud.Routes.{Answer, sent, crashed, Body, error, submitted, page, Header, Deps, Api}
use battle_cloud.Routes
use battle_cloud.Routes.Wire.{body_json, envelope_json, kind_text}
use battle_cloud.Routes.Submit.{Request, submit_analysis}
use battle_cloud.Routes.Submit.Shape.{HasShape, IsShaped, submit_analysis-IsShaped}
use battle_cloud.Web.Client.{
  HttpRequest, Fetched, answered, Browser, api_error, Got, got, failed, SubmitResult, job, analysis,
  submit_json, is_ok_status, submitted_payload, submit, payload_of, request,
}

-- The network between: a reply as text, with the reason phrase of its status, and the framework's
-- reply for an exception.
pub record Wire : Type 0 where
  pub platform : Platform
  pub reason : ℕ → Text
  pub crash_body : Text → Text

abbrev pub carried : Wire → Browser → Answer → Fetched
carried wire browser (sent code headers body) = answered (record {
  status = code;
  status_text = wire.reason code;
  body = browser.stringify (body_json wire.platform body);
})
carried wire browser (crashed message) =
    answered
      (record { status = 500; status_text = wire.reason 500; body = wire.crash_body message })

-- What the client should make of a reply.
abbrev pub understood : Wire → ℕ → Body → Got SubmitResult
understood wire code (Routes.analysis e) = got (analysis (envelope_json wire.platform e))
understood wire code (error kind message) =
    failed (api_error (Json.str (kind_text kind)) (Json.str message) code)
understood wire code body = got (job (body_json wire.platform body))

submitted_payload-understood :
    (wire : Wire) (browser : Browser) (code : ℕ) (text : Text) (body : Body)
    → HasShape code body
    → submitted_payload
        (record { status = code; status_text = wire.reason code; body = text })
        (some (body_json wire.platform body))
      ≡ understood wire code body
unfolding body_json Json.get text text_eq kind_text
submitted_payload-understood wire browser code text (Routes.analysis e) h = rw h
submitted_payload-understood wire browser code text (error kind message) h =
    let refused : is_ok_status code ≡ false = ground arith in rw refused
submitted_payload-understood wire browser code text (submitted view created) h = rw h
submitted_payload-understood wire browser code text (Routes.job view) h = absurd h
submitted_payload-understood wire browser code text (page rows next) h = absurd h

-- What the client relies on of `JSON`: a value without an infinity comes back from its text, and the
-- empty text is refused.
pub record IsLawful (browser : Browser) : Type 0 where
  pub round : (json : Json) → IsFinite json → browser.parse (browser.stringify json) ≡ some json
  pub empty : browser.parse [] ≡ none

-- A `POST /v1/analyses` reaches the handler with the JSON whose text its body is.
pub record IsSubmitServing (wire : Wire) (browser : Browser) (network : HttpRequest → Fetched)
    (deps : Deps) (request : Request) (api : Api) : Type 0 where
  pub lawful : IsLawful browser
  pub reached :
      (json : Json)
      → IsFinite json
      → network (record {
        method = text "POST";
        path = text "/v1/analyses";
        body = some (browser.stringify json);
      })
        ≡ carried wire browser (submit_analysis deps (record request { body = json }) api).answer

submit_json-IsFinite : (r : SubmitRequest) → IsFinite (submit_json r)
unfolding submit_json
submit_json-IsFinite r = (tt, (tt, (tt, tt)))

-- A submission through the network: what the API answers is what the client makes of it. An
-- analysis and a job come as such, with the JSON that was sent, and a refusal is thrown with its
-- kind, its message and its status.
pub submit-served :
    (wire : Wire) (browser : Browser) (network : HttpRequest → Fetched) (deps : Deps)
    (request : Request) (api : Api) (r : SubmitRequest) (code : ℕ) (headers : List Header)
    (body : Body)
    → IsSubmitServing wire browser network deps request api
    → (submit_analysis deps (record request { body = submit_json r }) api).answer
      ≡ sent code headers body
    → IsFinite (body_json wire.platform body)
    → submit browser network r ≡ understood wire code body
unfolding submit
submit-served wire browser network deps request api r code headers body serving h finite =
    let shape : HasShape code body =
      subst IsShaped h
        (submit_analysis-IsShaped deps (record request { body = submit_json r }) api) in
    rw
      (
        serving.reached (submit_json r) (submit_json-IsFinite r),
        submit,
        h,
        serving.lawful.round (body_json wire.platform body) finite,
      )
      (submitted_payload-understood wire browser code
        (browser.stringify (body_json wire.platform body)) body shape)

accepted_submit-fields :
    (id : Text) (perspective : Perspective) (profile : Profile)
    → (let r : SubmitRequest = record {
      replay_id = id;
      perspective = perspective;
      profile = profile;
    } in
        accepted_submit (submit_json r) ≡ (if is_safe_replay_id id then some r else none))
unfolding accepted_submit submit_json Json.get text text_eq perspective_text
accepted_submit-fields id p1 ladder_parity = ground arith
accepted_submit-fields id p1 quick = ground arith
accepted_submit-fields id p2 ladder_parity = ground arith
accepted_submit-fields id p2 quick = ground arith

-- The body that the client makes of a request is read by the API as that request, exactly when its
-- replay id is safe.
pub accepted_submit-submit_json :
    (r : SubmitRequest)
    → accepted_submit (submit_json r) ≡ (if is_safe_replay_id r.replay_id then some r else none)
accepted_submit-submit_json r = accepted_submit-fields r.replay_id r.perspective r.profile

payload_of-parse :
    (browser : Browser) (body : Text) (json : Json)
    → browser.parse [] ≡ none
    → browser.parse body ≡ some json
    → payload_of browser body ≡ some json
payload_of-parse browser [] json h k = cc (h, k)
payload_of-parse browser (c ∷ body) json h k = k

-- A request that is answered 200 gives the JSON of the answer's body.
pub request-sent :
    (wire : Wire) (browser : Browser) (fetch : HttpRequest → Fetched) (path : Text)
    (headers : List Header) (body : Body)
    → IsLawful browser
    → fetch (record { method = text "GET"; path = path; body = none })
      ≡ carried wire browser (sent 200 headers body)
    → IsFinite (body_json wire.platform body)
    → request browser fetch path ≡ got (body_json wire.platform body)
unfolding request
request-sent wire browser fetch path headers body lawful h finite =
    let json = body_json wire.platform body in
    rw
      (
        h,
        payload_of-parse browser (browser.stringify json) json lawful.empty
            (lawful.round json finite),
      )
      refl
