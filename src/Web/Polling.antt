-- ===== src/Web/Polling.antt =====
-- The polling of web/src/components/job.tsx: the effect of `JobView` as a machine that moves when a
-- reply comes, when a timer fires and when the view is unmounted. Its clock of seconds is left out.
pub mod Quiet
pub mod Followed
pub mod Worked
pub mod Rendered
use battle_cloud.Common.{
  ℕ, suc, Bool, true, false, not, ◌&&◌, ◌||◌, List, [], ◌∷◌, ◌++◌, Option, none, some, Text, text,
  text_eq, if◌then◌else◌,
}
use battle_cloud.Json
use battle_cloud.Json.{Json}
use battle_cloud.Web.Client.{Got, got, failed, property}
use battle_cloud.Web.Form.{rendered}

-- What the view shows, and the routes it has gone to.
pub record Shown : Type 0 where
  pub job : Json
  pub error : Option Text
  pub visited : List Text

-- A request is under way, the timer of the next is set, or neither.
pub data Phase : Type 0 where
  asking sleeping stopped : Phase

pub record Poller : Type 0 where
  pub shown : Shown
  pub live : Bool
  pub phase : Phase
  pub requests : ℕ

pub data Event : Type 0 where
  replied : Got Json → Event
  timer : Event
  unmounted : Event

-- The view as it is mounted: the first poll is made at once.
abbrev pub mounted : Poller
mounted = record {
  shown = record { job = Json.null; error = none; visited = [] };
  live = true;
  phase = asking;
  requests = 1;
}

abbrev pub has_status : Text → Json → Bool
has_status status json = elim (property (text "status") json) [
  | some (Json.str s) ↦ text_eq s status
  | _ ↦ false
]

-- `next.analysisId !== null`
abbrev pub has_analysis : Json → Bool
has_analysis json = elim (property (text "analysisId") json) [ some Json.null ↦ false | _ ↦ true ]

abbrev pub lost_contact : Text
lost_contact = text "Lost contact with the API while waiting."

abbrev ended : Poller → Shown → Poller
ended poller shown = record poller { shown = shown; phase = stopped }

abbrev lost : Poller → Shown → Poller
lost poller shown = ended poller (record shown { error = some lost_contact })

module _ (display : Option Json → Text) where
  abbrev after_job : Poller → Shown → Json → Poller
  after_job poller shown json =
      if has_status (text "succeeded") json && has_analysis json
      then ended poller (record shown {
        visited =
            shown.visited
            ++ (text "/a/" ++ rendered display (property (text "analysisId") json)) ∷ [];
      })
      else if has_status (text "failed") json || has_status (text "cancelled") json
      then ended poller shown
      else record poller { shown = shown; phase = sleeping }

  -- A reply to a view that is there; null has no status, which is caught.
  abbrev after_reply : Poller → Got Json → Poller
  after_reply poller (failed cause) = lost poller poller.shown
  after_reply poller (got Json.null) = lost poller (record poller.shown { job = Json.null })
  after_reply poller (got json) = after_job poller (record poller.shown { job = json }) json

  abbrev moved : Phase → Poller → Event → Poller
  moved phase poller unmounted = record poller { live = false }
  moved asking poller (replied reply) =
      if poller.live then after_reply poller reply else record poller { phase = stopped }
  moved sleeping poller timer = record poller { phase = asking; requests = suc poller.requests }
  moved _ poller _ = poller

  -- `poll`, its timer, and the cleanup of the effect.
  unfoldable pub step : Poller → Event → Poller
  step poller event = moved poller.phase poller event

  unfoldable pub run : Poller → List Event → Poller
  unfolding step
  run poller [] = poller
  run poller (event ∷ events) = run (step poller event) events
