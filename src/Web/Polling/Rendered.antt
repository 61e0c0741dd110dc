-- ===== src/Web/Polling/Rendered.antt =====
-- What `JobView` of web/src/components/job.tsx renders of a job, and what that is for a job of the API.
use battle_cloud.Common.{
  ℕ, ◌+◌, ◌/◌, ◌≡◌, refl, ap, ◌∙◌, Bool, true, false, List, [], ◌∷◌, ◌++◌, Option, none, some, Text,
  text, text_eq, if◌then◌else◌,
}
use battle_cloud.Json
use battle_cloud.Json.{Json}
use battle_cloud.Platform.{Platform}
use battle_cloud.Contract.Profiles.{profile_name}
use battle_cloud.Contract.Key.{perspective_text}
use battle_cloud.Store.Jobs.{JobStatus, queued, running, succeeded, failed, cancelled}
use battle_cloud.Routes.{JobView, job}
use battle_cloud.Routes.Wire.{or_null, body_json, status_text}
use battle_cloud.Web.Polling.{Shown}
use battle_cloud.Web.Analysis.{◌>>=◌, Numbers, read, same, is_null, child, child_or}

pub record JobShown : Type 0 where
  pub heading : Text
  pub pills : List Text
  pub waits : Bool
  pub search_seconds : Option Text
  pub failure : Option Text
  pub elapsed : ℕ
  pub status : Text

-- `job.status === name`
abbrev is_status : Text → Option Json → Bool
is_status name status = same status (some (Json.str name))

-- `job.status === name && ...`
abbrev said : Text → Text → Option Json → Text
said name heading status = if is_status name status then heading else []

unfoldable pub heading_of : Option Json → Text
heading_of status =
    said (text "queued") (text "Waiting for a worker") status
    ++ (said (text "running") (text "Analyzing") status
        ++ (said (text "failed") (text "The analysis failed") status
            ++ (said (text "cancelled") (text "The analysis was cancelled") status
                ++ said (text "succeeded") (text "Done") status)))

module _ (numbers : Numbers) where
  -- `Math.round(job.estimatedSearchMs / 1000)`, or null; what it makes of anything but a natural
  -- number is a parameter.
  unfoldable pub search_seconds_of : Option Json → Option Text
  search_seconds_of (some Json.null) = none
  search_seconds_of (some (Json.num n)) = some (numbers.display (Json.num ((n + 500) / 1000)))
  search_seconds_of value = some (numbers.other_seconds value)

  turns_pill : Option Json → Option (List Text)
  turns_pill turns =
      let shown = child numbers turns in
      if is_null turns then some [] else shown >>= λ s. some ((s ++ text " turns") ∷ [])

  failure_of : Option Json → Option Json → Option (Option Text)
  failure_of status kind =
      let shown = child_or numbers (text "unknown") kind in
      if is_status (text "failed") status then (shown >>= λ s. some (some s)) else some none

  -- The return of `JobView` once there is a job
  unfoldable pub job_page : ℕ → Json → Option JobShown
  unfolding heading_of search_seconds_of turns_pill failure_of
  job_page elapsed json = do
    status ← read (text "status") (some json)
    search_ms ← read (text "estimatedSearchMs") (some json)
    replay_id ← read (text "replayId") (some json) >>= child numbers
    perspective ← read (text "perspective") (some json) >>= child numbers
    profile ← read (text "profile") (some json) >>= child numbers
    turns ← read (text "estimatedTurns") (some json) >>= turns_pill
    kind ← read (text "errorKind") (some json)
    failure ← failure_of status kind
    shown ← child numbers status
    some (record {
      heading = heading_of status;
      pills = replay_id ∷ (text "from " ++ perspective) ∷ profile ∷ turns;
      waits = is_status (text "queued") status;
      search_seconds =
          if is_status (text "running") status then search_seconds_of search_ms else none;
      failure = failure;
      elapsed = elapsed;
      status = shown;
    })

-- What the view shows.
pub data JobPage : Type 0 where
  trouble : Text → JobPage
  looking : JobPage
  found : JobShown → JobPage

module _ (numbers : Numbers) where
  abbrev page_or : ℕ → Option Text → Json → Option JobPage
  page_or elapsed (some message) json = some (trouble message)
  page_or elapsed none json =
      let shown = job_page numbers elapsed json in
      if is_null (some json) then some looking else shown >>= λ s. some (found s)

  -- `JobView`, with its clock of seconds
  unfoldable pub render : ℕ → Shown → Option JobPage
  unfolding job_page
  render elapsed shown = page_or elapsed shown.error shown.job

-- What a visitor should see of a job of the API.
abbrev pub heading_for : JobStatus → Text
heading_for queued = text "Waiting for a worker"
heading_for running = text "Analyzing"
heading_for failed = text "The analysis failed"
heading_for cancelled = text "The analysis was cancelled"
heading_for succeeded = text "Done"

abbrev pub waits_for : JobStatus → Bool
waits_for queued = true
waits_for _ = false

module _ (numbers : Numbers) where
  abbrev pub turns_for : Option ℕ → List Text
  turns_for none = []
  turns_for (some n) = (numbers.display (Json.num n) ++ text " turns") ∷ []

  abbrev pub seconds_for : JobStatus → Option ℕ → Option Text
  seconds_for running (some ms) = some (numbers.display (Json.num ((ms + 500) / 1000)))
  seconds_for _ _ = none

abbrev pub failure_for : JobStatus → Option Text → Option Text
failure_for failed none = some (text "unknown")
failure_for failed (some kind) = some kind
failure_for _ _ = none

abbrev pub shown_for : Numbers → ℕ → JobView → JobShown
shown_for numbers elapsed v = record {
  heading = heading_for v.status;
  pills =
      v.replay_id
      ∷ (text "from " ++ perspective_text v.perspective)
      ∷ profile_name v.profile
      ∷ turns_for numbers v.estimated_turns;
  waits = waits_for v.status;
  search_seconds = seconds_for numbers v.status v.estimated_search_ms;
  failure = failure_for v.status v.error_kind;
  elapsed = elapsed;
  status = status_text v.status;
}

abbrev status_json : JobStatus → Option Json
status_json status = some (Json.str (status_text status))

heading_of-status_text : (status : JobStatus) → heading_of (status_json status) ≡ heading_for status
unfolding heading_of status_text text text_eq
heading_of-status_text queued = refl
heading_of-status_text running = refl
heading_of-status_text succeeded = refl
heading_of-status_text failed = refl
heading_of-status_text cancelled = refl

waits-status_text :
    (status : JobStatus) → is_status (text "queued") (status_json status) ≡ waits_for status
unfolding status_text text text_eq
waits-status_text queued = refl
waits-status_text running = refl
waits-status_text succeeded = refl
waits-status_text failed = refl
waits-status_text cancelled = refl

module _ (numbers : Numbers) where
  turns_pill-or_null :
      (turns : Option ℕ)
      → turns_pill numbers (some (or_null Json.num turns)) ≡ some (turns_for numbers turns)
  unfolding turns_pill
  turns_pill-or_null none = refl
  turns_pill-or_null (some n) = refl

  failure_of-or_null :
      (status : JobStatus) (kind : Option Text)
      → failure_of numbers (status_json status) (some (or_null Json.str kind))
        ≡ some (failure_for status kind)
  unfolding failure_of status_text text text_eq
  failure_of-or_null queued kind = refl
  failure_of-or_null running kind = refl
  failure_of-or_null succeeded kind = refl
  failure_of-or_null failed none = refl
  failure_of-or_null failed (some kind) = refl
  failure_of-or_null cancelled kind = refl

  search_seconds_of-or_null :
      (status : JobStatus) (ms : Option ℕ)
      → (if is_status (text "running") (status_json status)
          then search_seconds_of numbers (some (or_null Json.num ms))
          else none)
        ≡ seconds_for numbers status ms
  unfolding search_seconds_of status_text text text_eq
  search_seconds_of-or_null queued ms = refl
  search_seconds_of-or_null running none = refl
  search_seconds_of-or_null running (some ms) = refl
  search_seconds_of-or_null succeeded ms = refl
  search_seconds_of-or_null failed ms = refl
  search_seconds_of-or_null cancelled ms = refl

module _ (p : Platform) (numbers : Numbers) where
  job_page-body_json :
      (elapsed : ℕ) (v : JobView)
      → job_page numbers elapsed (body_json p (job v)) ≡ some (shown_for numbers elapsed v)
  unfolding job_page body_json Json.get text text_eq
  job_page-body_json elapsed v =
      rw
        (
          turns_pill-or_null numbers v.estimated_turns,
          failure_of-or_null numbers v.status v.error_kind,
          heading_of-status_text v.status,
          waits-status_text v.status,
          search_seconds_of-or_null numbers v.status v.estimated_search_ms,
        )
        refl

  body_json_object : (v : JobView) → is_null (some (body_json p (job v))) ≡ false
  unfolding body_json
  body_json_object v = refl

  -- A job that the API sends is rendered by the view without a throw: with the heading of its
  -- status, its replay, side, profile and turns, the expected seconds of search, rounded, exactly while it
  -- runs and has an estimate, and its kind of error, or unknown, exactly when it failed.
  pub render-body_json :
      (elapsed : ℕ) (shown : Shown) (v : JobView)
      → shown.error ≡ none
      → shown.job ≡ body_json p (job v)
      → render numbers elapsed shown ≡ some (found (shown_for numbers elapsed v))
  unfolding render
  render-body_json elapsed shown v quiet same =
      ap (λ m. page_or numbers elapsed m shown.job) quiet
      ∙ (ap (page_or numbers elapsed none) same
          ∙ rw (body_json_object v)
              (ap (λ o. o >>= λ s. some (found s)) (job_page-body_json elapsed v)))
