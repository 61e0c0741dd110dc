-- ===== src/Web/Form/Served.antt =====
-- The submit form in front of the API.
use battle_cloud.Common.{
  ℕ, ◌≡◌, ◌≢◌, refl, subst, true, false, List, [], ◌∷◌, ◌++◌, Option, Text, text, text_eq,
}
use battle_cloud.Json
use battle_cloud.Json.{Json, IsFinite}
use battle_cloud.Contract.Profiles.{Profile}
use battle_cloud.Contract.Errors.{ErrorKind, rate_limited}
use battle_cloud.Contract.Identity.{Perspective, SubmitRequest}
use battle_cloud.Routes.{Answer, sent, Body, error, submitted, analysis, Header, Deps, Api}
use battle_cloud.Routes
use battle_cloud.Routes.Wire.{kind_text, body_json, envelope_json}
use battle_cloud.Routes.Submit.{Request, submit_analysis}
use battle_cloud.Routes.Submit.Shape.{HasShape, IsShaped, submit_analysis-IsShaped}
use battle_cloud.Web.ReplayId.{parse_replay_id}
use battle_cloud.Web.Client.{HttpRequest, Fetched, Browser, submit_json}
use battle_cloud.Web.Client.Served.{Wire, understood, IsSubmitServing, submit-served}
use battle_cloud.Web.Form.{Pressed, routed, refused, limit_message, settled, sent_for, on_submit}

-- What the visitor should get from a reply.
abbrev pub message : ErrorKind → Text → Text
message rate_limited served = limit_message
message _ served = served

-- A page is no reply to a submission, and neither is a job without `created`.
abbrev pub ShownAs : Body → Pressed → Type 0
ShownAs (analysis e) pressed = pressed ≡ routed (text "/a/" ++ e.analysis_id)
ShownAs (submitted view created) pressed = pressed ≡ routed (text "/j/" ++ view.job_id)
ShownAs (error kind served) pressed = pressed ≡ refused (message kind served)
ShownAs _ pressed = true ≡ false

settled-understood :
    (display : Option Json → Text) (wire : Wire) (code : ℕ) (body : Body)
    → HasShape code body
    → ShownAs body (settled display (understood wire code body))
unfolding body_json envelope_json Json.get text text_eq kind_text
settled-understood display wire code (analysis e) h = refl
settled-understood display wire code (submitted view created) h = refl
settled-understood display wire code (error kind served) h =
    elim kind
      as (λ k. ShownAs (error k served) (settled display (understood wire code (error k served)))) [
        | rate_limited ↦ refl
        | _ ↦ refl
      ]
settled-understood display wire code (Routes.job view) h = absurd h
settled-understood display wire code (Routes.page rows next) h = absurd h

module _ (display : Option Json → Text) (wire : Wire) (browser : Browser)
    (network : HttpRequest → Fetched) (deps : Deps) (request : Request) (api : Api) where
  -- What the API answers a request of the form.
  abbrev pub answer_to : SubmitRequest → Answer
  answer_to r = (submit_analysis deps (record request { body = submit_json r }) api).answer

  sent_for-served :
      (id : Text) (perspective : Perspective) (profile : Profile) (code : ℕ) (headers : List Header)
      (body : Body)
      → IsSubmitServing wire browser network deps request api
      → id ≢ []
      → (let r : SubmitRequest = record {
        replay_id = id;
        perspective = perspective;
        profile = profile;
      } in
          answer_to r ≡ sent code headers body
          → IsFinite (body_json wire.platform body)
          → ShownAs body (sent_for display browser network perspective profile id))
  sent_for-served [] perspective profile code headers body serving filled h finite =
      absurd (filled refl)
  sent_for-served (c ∷ id) perspective profile code headers body serving filled h finite =
      let r : SubmitRequest = record {
        replay_id = c ∷ id;
        perspective = perspective;
        profile = profile;
      } in
      let shape : HasShape code body =
        subst IsShaped h
          (submit_analysis-IsShaped deps (record request { body = submit_json r }) api) in
      rw (submit-served wire browser network deps request api r code headers body serving h finite)
        (settled-understood display wire code body shape)

  -- In a browser whose JSON behaves as documented, a press of the button with an id in the input, where a `POST /v1/analyses` reaches the API with the
  -- JSON that its body is the text of, and the API replies to that of the request, without an infinite
  -- number in the reply: the visitor is taken to the
  -- analysis or to the job that the reply is about, or reads the message of the refusal, which
  -- for the rate limit is the form's own.
  pub on_submit-served :
      (input : Text) (perspective : Perspective) (profile : Profile) (code : ℕ)
      (headers : List Header) (body : Body)
      → IsSubmitServing wire browser network deps request api
      → parse_replay_id input ≢ []
      → (let r : SubmitRequest = record {
        replay_id = parse_replay_id input;
        perspective = perspective;
        profile = profile;
      } in
          answer_to r ≡ sent code headers body
          → IsFinite (body_json wire.platform body)
          → ShownAs body (on_submit display browser network input perspective profile))
  unfolding on_submit
  on_submit-served input perspective profile code headers body serving filled h finite =
      sent_for-served (parse_replay_id input) perspective profile code headers body serving filled h
        finite
