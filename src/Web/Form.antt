-- ===== src/Web/Form.antt =====
-- The submit form of web/src/components/submit.tsx.
pub mod Served
use battle_cloud.Common.{
  Bool, true, false, List, [], ◌∷◌, ◌++◌, Option, none, some, Text, text, text_eq, if◌then◌else◌,
}
use battle_cloud.Json
use battle_cloud.Json.{Json}
use battle_cloud.Contract.Profiles.{Profile}
use battle_cloud.Contract.Identity.{Perspective}
use battle_cloud.Web.ReplayId.{parse_replay_id}
use battle_cloud.Web.Client.{
  HttpRequest, Fetched, Browser, Failure, api_error, type_error, Got, got, failed, SubmitResult,
  job, analysis, property, submit,
}

-- What a press of the button comes to: a route, or a message.
pub data Pressed : Type 0 where
  routed : Text → Pressed
  refused : Text → Pressed

-- A value in a template or as the message of an `Error`: a string is itself, and what JavaScript
-- makes of anything else is a parameter.
abbrev pub rendered : (Option Json → Text) → Option Json → Text
rendered display none = display none
rendered display (some Json.null) = display (some Json.null)
rendered display (some (Json.bool b)) = display (some (Json.bool b))
rendered display (some (Json.num n)) = display (some (Json.num n))
rendered display (some (Json.other_num k t)) = display (some (Json.other_num k t))
rendered display (some (Json.str s)) = s
rendered display (some (Json.arr a)) = display (some (Json.arr a))
rendered display (some (Json.obj o)) = display (some (Json.obj o))

abbrev pub empty_message : Text
empty_message = text "Paste a Showdown replay link, or the id at the end of one."

abbrev pub limit_message : Text
limit_message =
    text
      "That is 20 submissions this hour from your address, which is the limit. Each one costs a couple of CPU-minutes, so the cap is real rather than decorative."

abbrev pub other_message : Text
other_message = text "Something went wrong."

module _ (display : Option Json → Text) where
  abbrev pub is_kind : Text → Json → Bool
  is_kind kind (Json.str s) = text_eq s kind
  is_kind kind _ = false

  abbrev pub message_of : Failure → Text
  message_of (api_error kind message status) =
      if is_kind (text "rate_limited") kind then limit_message else rendered display (some message)
  message_of _ = other_message

  -- A member of null throws a `TypeError`.
  abbrev route_to : Text → Text → Json → Pressed
  route_to folder key Json.null = refused (message_of type_error)
  route_to folder key json = routed (folder ++ rendered display (property key json))

  abbrev pub settled : Got SubmitResult → Pressed
  settled (failed cause) = refused (message_of cause)
  settled (got (analysis json)) = route_to (text "/a/") (text "analysisId") json
  settled (got (job json)) = route_to (text "/j/") (text "jobId") json

  abbrev pub sent_for : Browser → (HttpRequest → Fetched) → Perspective → Profile → Text → Pressed
  sent_for browser fetch perspective profile [] = refused empty_message
  sent_for browser fetch perspective profile (c ∷ id) = settled (
      submit browser fetch
        (record { replay_id = c ∷ id; perspective = perspective; profile = profile }))

  -- `onSubmit`
  unfoldable pub on_submit :
      Browser → (HttpRequest → Fetched) → Text → Perspective → Profile → Pressed
  unfolding submit parse_replay_id
  on_submit browser fetch input perspective profile =
      sent_for browser fetch perspective profile (parse_replay_id input)
