-- ===== src/Replay/Fetch/Effects.antt =====
-- What `fetchReplay` does to the network and to its timer.

use battle_cloud.Common.{
  ◌⊎◌, ℕ, ◌+◌, ◌≡◌, refl, inl, inr, not, List, [], ◌∷◌, ◌++◌, none, some, arith, Text, text, All,
  Bool-cases, Option-cases, ◌==◌, if◌then◌else◌,
}
use battle_cloud.Contract.Identity.{is_safe_replay_id}
use battle_cloud.Replay.Read.{Effect, timer_set, timer_cleared, requested, pulled, cancelled}
use battle_cloud.Replay.Read.Cap.{IsReading, read_capped-IsReading}
use battle_cloud.Replay.Fetch.{
  Response, FetchReply, responded, aborted, failed, ReplayDeps, is_ok, receive, answer,
  fetch_replay,
}

-- An effect between the setting and the clearing of the timer.
abbrev pub IsInside : Effect → Type 0
IsInside timer_set = ⊥
IsInside timer_cleared = ⊥
IsInside _ = Unit

-- Nothing is done, or a timer is set first and cleared last, and not in between.
abbrev pub IsTimed : List Effect → Type 0
IsTimed effects =
    (effects ≡ [])
    ⊎ ((middle : List Effect) × (effects ≡ timer_set ∷ (middle ++ timer_cleared ∷ []))
        × All IsInside middle)

IsInside-of_reading : (effects : List Effect) → All IsReading effects → All IsInside effects
IsInside-of_reading [] h = tt
IsInside-of_reading (pulled ∷ effects) (_, h) = (tt, IsInside-of_reading effects h)
IsInside-of_reading (cancelled ∷ effects) (_, h) = (tt, IsInside-of_reading effects h)
IsInside-of_reading (timer_set ∷ effects) (h, _) = absurd h
IsInside-of_reading (timer_cleared ∷ effects) (h, _) = absurd h
IsInside-of_reading (requested url ∷ effects) (h, _) = absurd h

-- How often the network is asked.
abbrev pub is_request : Effect → ℕ
is_request (requested url) = 1
is_request _ = 0

abbrev pub requests : List Effect → ℕ
requests [] = 0
requests (e ∷ effects) = is_request e + requests effects

requests_of_reading :
    (effects : List Effect) → All IsReading effects → requests (effects ++ timer_cleared ∷ []) ≡ 0
requests_of_reading [] h = refl
requests_of_reading (pulled ∷ effects) (_, h) = omega (arith, requests_of_reading effects h)
requests_of_reading (cancelled ∷ effects) (_, h) = omega (arith, requests_of_reading effects h)
requests_of_reading (timer_set ∷ effects) (h, _) = absurd h
requests_of_reading (timer_cleared ∷ effects) (h, _) = absurd h
requests_of_reading (requested url ∷ effects) (h, _) = absurd h

module _ (deps : ReplayDeps) where
  receive-IsReading :
      (id url : Text) (response : Response) → All IsReading (receive deps id url response).1
  unfolding receive
  receive-IsReading id url response = elim (Bool-cases (response.status == 404)) [
    | inl e ↦ rw e tt
    | inr e ↦ elim (Bool-cases (not (is_ok response))) [
      | inl f ↦ rw (e, f) tt
      | inr f ↦ rw (e, f) (read_capped-IsReading response.body deps.max_bytes)
    ]
  ]

  answer_effects :
      (id url : Text) (reply : FetchReply)
      → (middle : List Effect) × ((answer deps id url reply).1 ≡ middle ++ timer_cleared ∷ [])
        × All IsReading middle
  unfolding answer
  answer_effects id url aborted = ([], refl, tt)
  answer_effects id url (failed cause) = ([], refl, tt)
  answer_effects id url (responded response) =
      ((receive deps id url response).1, refl, receive-IsReading id url response)

  -- On every path the timer that bounds a fetch is cleared, once and at the end.
  pub fetch_replay-IsTimed : (id : Text) → IsTimed (fetch_replay deps id).1
  unfolding fetch_replay
  fetch_replay-IsTimed id = elim (Bool-cases (not (is_safe_replay_id id))) [
    | inl e ↦ rw e (inl refl)
    | inr e ↦ elim (Option-cases (deps.new_url (id ++ text ".json") deps.base_url)) [
      | inl f ↦ rw (e, f, fetch_replay) (inl refl)
      | inr (url, f) ↦
          let (middle, same, inside) = answer_effects id url (deps.fetch url) in
          rw (e, f, fetch_replay)
            (inr (requested url ∷ middle, cc (same), (tt, IsInside-of_reading middle inside)))
    ]
  ]

  -- The network is asked once when the id is safe and its URL resolves, and never otherwise.
  pub fetch_replay-requests :
      (id : Text)
      → requests (fetch_replay deps id).1 ≡ (
          if is_safe_replay_id id
          then elim (deps.new_url (id ++ text ".json") deps.base_url) [ none ↦ 0 | some url ↦ 1 ]
          else 0)
  unfolding fetch_replay
  fetch_replay-requests id = elim (Bool-cases (is_safe_replay_id id)) [
    | inr e ↦ rw e refl
    | inl e ↦ elim (Option-cases (deps.new_url (id ++ text ".json") deps.base_url)) [
      | inl f ↦ rw (e, f, fetch_replay) refl
      | inr (url, f) ↦
          let (middle, same, inside) = answer_effects id url (deps.fetch url) in
          rw (e, f, fetch_replay, same) (omega (arith, requests_of_reading middle inside))
    ]
  ]
