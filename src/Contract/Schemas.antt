-- ===== src/Contract/Schemas.antt =====
-- `SubmitRequestSchema` of api/src/contract/schemas.ts: which bodies Zod accepts, and as what. The
-- messages for a body that it refuses are Zod's.
use battle_cloud.Common.{
  ◌≡◌, Bool, true, ◌&&◌, ◌||◌, inl, inr, List, Option, none, some, arith, Text, text, text_eq,
  Bool-cases, Option-cases, if◌then◌else◌,
}
use battle_cloud.Json
use battle_cloud.Json.{Json, Fields}
use battle_cloud.Contract.Profiles.{Profile, ladder_parity, quick}
use battle_cloud.Contract.Identity.{Perspective, p1, p2, SubmitRequest, is_safe_replay_id}

-- The result of `safeParse`: the data, or the messages of the issues.
pub data Parsed {ℓ} (A : Type ℓ) : Type ℓ where
  success : A → Parsed A
  failure : List Text → Parsed A

-- `.strict()`: no other key.
is_strict : Fields → Bool
is_strict Json.end = true
is_strict (Json.field key _ fields) =
    (text_eq key (text "replayId")
      || text_eq key (text "perspective")
      || text_eq key (text "profile"))
    && is_strict fields

-- The expression and the refinement on `replayId` are the two tests of `isSafeReplayId`.
replay_id_field : Option Json → Option Text
replay_id_field (some (Json.str s)) = if is_safe_replay_id s then some s else none
replay_id_field _ = none

-- `z.enum(PERSPECTIVES)`
perspective_field : Option Json → Option Perspective
perspective_field (some (Json.str s)) =
    if text_eq s (text "p1") then some p1 else if text_eq s (text "p2") then some p2 else none
perspective_field _ = none

-- `z.enum(PROFILE_NAMES).default('ladder-parity')`
profile_field : Option Json → Option Profile
profile_field none = some ladder_parity
profile_field (some (Json.str s)) =
    if text_eq s (text "ladder-parity")
    then some ladder_parity
    else if text_eq s (text "quick")
    then some quick
    else none
profile_field (some _) = none

abbrev all_fields : Option Text → Option Perspective → Option Profile → Option SubmitRequest
all_fields (some replay_id) (some perspective) (some profile) =
    some (record { replay_id = replay_id; perspective = perspective; profile = profile })
all_fields _ _ _ = none

unfoldable pub accepted_submit : Json → Option SubmitRequest
unfolding is_strict replay_id_field perspective_field profile_field
accepted_submit (Json.obj fields) =
    if is_strict fields
    then all_fields (replay_id_field (Json.get (text "replayId") fields))
        (perspective_field (Json.get (text "perspective") fields))
        (profile_field (Json.get (text "profile") fields))
    else none
accepted_submit _ = none

-- `SubmitRequestSchema.safeParse`
unfoldable pub parse_submit : (Json → List Text) → Json → Parsed SubmitRequest
unfolding accepted_submit
parse_submit issues body = elim (accepted_submit body) [
  | some submit ↦ success submit
  | none ↦ failure (issues body)
]

replay_id_field-safe :
    (json : Option Json) (s : Text) → replay_id_field json ≡ some s → is_safe_replay_id s ≡ true
unfolding replay_id_field
replay_id_field-safe none s h = cc
replay_id_field-safe (some (Json.str t)) s h = ground arith
replay_id_field-safe (some Json.null) s h = cc
replay_id_field-safe (some (Json.bool b)) s h = cc
replay_id_field-safe (some (Json.num n)) s h = cc
replay_id_field-safe (some (Json.arr a)) s h = cc
replay_id_field-safe (some (Json.other_num k t)) s h = cc
replay_id_field-safe (some (Json.obj o)) s h = cc

all_fields-replay_id :
    (r : Option Text) (q : Option Perspective) (f : Option Profile) (submit : SubmitRequest)
    → all_fields r q f ≡ some submit
    → r ≡ some submit.replay_id
all_fields-replay_id none q f submit h = cc
all_fields-replay_id (some r) none f submit h = cc
all_fields-replay_id (some r) (some q) none submit h = cc
all_fields-replay_id (some r) (some q) (some f) submit h = cc

accepted_submit-safe :
    (body : Json) (submit : SubmitRequest)
    → accepted_submit body ≡ some submit
    → is_safe_replay_id submit.replay_id ≡ true
unfolding accepted_submit
accepted_submit-safe (Json.obj fields) submit h = elim (Bool-cases (is_strict fields)) [
  | inl e ↦
      let all =
        all_fields-replay_id (replay_id_field (Json.get (text "replayId") fields))
          (perspective_field (Json.get (text "perspective") fields))
          (profile_field (Json.get (text "profile") fields)) submit (cc (h, e)) in
      replay_id_field-safe (Json.get (text "replayId") fields) submit.replay_id all
  | inr e ↦ cc (h, e)
]
accepted_submit-safe Json.null submit h = cc
accepted_submit-safe (Json.bool b) submit h = cc
accepted_submit-safe (Json.num n) submit h = cc
accepted_submit-safe (Json.other_num k t) submit h = cc
accepted_submit-safe (Json.str s) submit h = cc
accepted_submit-safe (Json.arr a) submit h = cc

-- The replay id of a submission that parses is safe.
pub parse_submit-safe :
    (issues : Json → List Text) (body : Json) (submit : SubmitRequest)
    → parse_submit issues body ≡ success submit
    → is_safe_replay_id submit.replay_id ≡ true
unfolding parse_submit
parse_submit-safe issues body submit h = elim (Option-cases (accepted_submit body)) [
  | inl e ↦ ground arith
  | inr (s, e) ↦ accepted_submit-safe body submit (ground arith)
]
