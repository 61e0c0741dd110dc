-- ===== src/Replay/Fetch/Failures.antt =====
-- How `fetchReplay` fails.

use battle_cloud.Common.{
  ℕ, ◌≤◌, ◌≡◌, refl, inl, inr, true, false, not, List, ◌∷◌, ◌++◌, Option, some, arith, Text, text,
  length, All, Bool-cases, Option-cases, ◌==◌,
}
use battle_cloud.Contract.Errors.{
  ErrorKind, invalid_replay_id, replay_not_found, replay_empty_log, replay_malformed,
  replay_transport_failure, replay_timeout, replay_too_large,
}
use battle_cloud.Contract.Identity.{is_safe_replay_id}
use battle_cloud.Json
use battle_cloud.Json.{Json, Fields}
use battle_cloud.Replay.Read.{
  replay_fetch_error, other_error, Result, ok, throw, Read, rejected, read_capped,
}
use battle_cloud.Replay.Read.Cap.{IsData, contents, read_capped-rejected, read_capped_kind}
use battle_cloud.Replay.Fetch.{
  Response, FetchReply, responded, aborted, failed, ReplayDeps, is_ok, usable_log, checked_payload,
  parsed_payload, receive, answer, fetch_replay,
}

-- The kinds of the replay acquisition group.
abbrev pub IsAcquisition : ErrorKind → Type 0
IsAcquisition invalid_replay_id = Unit
IsAcquisition replay_not_found = Unit
IsAcquisition replay_empty_log = Unit
IsAcquisition replay_too_large = Unit
IsAcquisition replay_malformed = Unit
IsAcquisition replay_transport_failure = Unit
IsAcquisition replay_timeout = Unit
IsAcquisition _ = ⊥

abbrev pub IsClassified {ℓ} : {A : Type ℓ} → Result A → Type 0
IsClassified (ok a) = Unit
IsClassified (throw (replay_fetch_error kind message)) = IsAcquisition kind
IsClassified (throw (other_error message)) = Unit

checked_payload-IsClassified : (id : Text) (json : Json) → IsClassified (checked_payload id json)
unfolding checked_payload
checked_payload-IsClassified id (Json.obj raw) =
    elim (Option-cases (usable_log (Json.get (text "log") raw))) [
      | inl u ↦ rw (u, checked_payload) tt
      | inr (log, u) ↦ rw (u, checked_payload) tt
    ]
checked_payload-IsClassified id Json.null = tt
checked_payload-IsClassified id json = tt

module _ (deps : ReplayDeps) where
  parsed_payload-IsClassified :
      (id : Text) (result : Result (List ℕ))
      → IsClassified result
      → IsClassified (parsed_payload deps id result)
  unfolding parsed_payload
  parsed_payload-IsClassified id (throw (replay_fetch_error kind message)) h = h
  parsed_payload-IsClassified id (throw (other_error message)) h = tt
  parsed_payload-IsClassified id (ok bytes) h =
      elim (Option-cases (deps.parse_json (deps.decode_utf8 bytes))) [
        | inl p ↦ rw (p, parsed_payload) tt
        | inr (json, p) ↦ rw (p, parsed_payload) (checked_payload-IsClassified id json)
      ]

  read_IsClassified : (body : Option (List Read)) (m : ℕ) → IsClassified (read_capped body m).0
  read_IsClassified body m = go (read_capped body m).0 refl
    where
      go : (result : Result (List ℕ)) → (read_capped body m).0 ≡ result → IsClassified result
      go (ok bytes) e = tt
      go (throw (other_error message)) e = tt
      go (throw (replay_fetch_error kind message)) e =
          elim (read_capped_kind body m kind message e) [ inl k ↦ rw k tt | inr k ↦ rw k tt ]

  receive-IsClassified :
      (id url : Text) (response : Response) → IsClassified (receive deps id url response).0
  unfolding receive
  receive-IsClassified id url response = elim (Bool-cases (response.status == 404)) [
    | inl e ↦ rw e tt
    | inr e ↦ elim (Bool-cases (not (is_ok response))) [
      | inl f ↦ rw (e, f) tt
      | inr f ↦
          rw (e, f)
            (parsed_payload-IsClassified id (read_capped response.body deps.max_bytes).0
              (read_IsClassified response.body deps.max_bytes))
    ]
  ]

  answer-IsClassified :
      (id url : Text) (reply : FetchReply) → IsClassified (answer deps id url reply).0
  unfolding answer
  answer-IsClassified id url aborted = tt
  answer-IsClassified id url (failed cause) = tt
  answer-IsClassified id url (responded response) = receive-IsClassified id url response

  -- A fetch that throws a classified error throws one of the seven kinds of the replay acquisition
  -- group, never a kind of another tier.
  pub fetch_replay-IsClassified : (id : Text) → IsClassified (fetch_replay deps id).0
  unfolding fetch_replay
  fetch_replay-IsClassified id = elim (Bool-cases (is_safe_replay_id id)) [
    | inr e ↦ rw e tt
    | inl e ↦ elim (Option-cases (deps.new_url (id ++ text ".json") deps.base_url)) [
      | inl f ↦ rw (e, f, fetch_replay) tt
      | inr (url, f) ↦ rw (e, f, fetch_replay) (answer-IsClassified id url (deps.fetch url))
    ]
  ]

  -- A body whose stream fails while it is read, under the ceiling and after a successful answer,
  -- makes the fetch throw the stream's own error: no `ReplayFetchError`, whatever the failure,
  -- the abort of the timeout included.
  pub fetch_replay_body_failure :
      (id url : Text) (response : Response) (before : List Read) (cause : Text) (after : List Read)
      → is_safe_replay_id id ≡ true
      → deps.new_url (id ++ text ".json") deps.base_url ≡ some url
      → deps.fetch url ≡ responded response
      → is_ok response ≡ true
      → response.body ≡ some (before ++ rejected cause ∷ after)
      → All IsData before
      → length (contents before) ≤ deps.max_bytes
      → (fetch_replay deps id).0 ≡ throw (other_error cause)
  unfolding fetch_replay answer receive parsed_payload
  fetch_replay_body_failure id url response before cause after safe resolved answered good body d
        fits =
      let not_404 : (response.status == 404) ≡ false = unfold is_ok in ground arith in
      rw (
        safe,
        resolved,
        fetch_replay,
        answered,
        answer,
        not_404,
        good,
        body,
        read_capped-rejected before cause after deps.max_bytes d fits,
      )
