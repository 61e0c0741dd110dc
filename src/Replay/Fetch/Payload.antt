-- ===== src/Replay/Fetch/Payload.antt =====
-- When `fetchReplay` returns a payload.

use battle_cloud.Common.{
  subst, ◌↔◌, ℕ, ◌≤◌, ◌≡◌, All, length, refl, sym, ap, ◌∙◌, inl, inr, true, false, List, ◌++◌,
  Option, some, arith, Text, text, Bool-cases, Option-cases, ◌==◌,
}
use battle_cloud.Contract.Identity.{is_safe_replay_id}
use battle_cloud.Json
use battle_cloud.Json.{Json, Fields}
use battle_cloud.Replay.Read.{Result, ok, throw, Read, read_capped}
use battle_cloud.Replay.Read.Cap.{IsData, contents, read_capped-inv, read_capped-fits}
use battle_cloud.Replay.Fetch.{
  Response, FetchReply, responded, aborted, failed, ReplayDeps, ReplayPayload, is_ok, is_blank,
  usable_log, checked_payload, parsed_payload, receive, answer, fetch_replay,
}

usable_log-inv :
    (o : Option Json) (log : Text)
    → usable_log o ≡ some log
    → (o ≡ some (Json.str log)) × (is_blank log ≡ false)
unfolding usable_log
usable_log-inv (some (Json.str l)) log e = elim (Bool-cases (is_blank l)) [
  | inl b ↦ cc (rw b at e)
  | inr b ↦ let same : l ≡ log = cc (rw b at e) in rw (← same) (refl, b)
]
usable_log-inv (some Json.null) log e = cc
usable_log-inv o log e = cc

checked_payload-inv :
    (id : Text) (json : Json) (payload : ReplayPayload)
    → checked_payload id json ≡ ok payload
    → (json ≡ Json.obj payload.raw)
      × (usable_log (Json.get (text "log") payload.raw) ≡ some payload.log)
      × (payload.id ≡ id)
unfolding checked_payload
checked_payload-inv id (Json.obj raw) payload e =
    elim (Option-cases (usable_log (Json.get (text "log") raw))) [
      | inl u ↦ cc (rw (u, checked_payload) at e)
      | inr (log, u) ↦
          let p : ReplayPayload = record { id = id; log = log; raw = raw } in
          let made : ok p ≡ ok payload = rw (u, checked_payload) at e in
          let same : p ≡ payload = cc in
          let raws : raw ≡ payload.raw = ap (λ (p : ReplayPayload). p.raw) same in
          let logs : log ≡ payload.log = ap (λ (p : ReplayPayload). p.log) same in
          (
            cc raws,
            subst (λ r. usable_log (Json.get (text "log") r) ≡ some payload.log) raws
                (u ∙ ap some logs),
            sym (ap (λ (p : ReplayPayload). p.id) same),
          )
    ]
checked_payload-inv id Json.null payload e = cc
checked_payload-inv id json payload e = cc

checked_payload-ok :
    (id : Text) (payload : ReplayPayload)
    → Json.get (text "log") payload.raw ≡ some (Json.str payload.log)
    → is_blank payload.log ≡ false
    → payload.id ≡ id
    → checked_payload id (Json.obj payload.raw) ≡ ok payload
unfolding checked_payload usable_log
checked_payload-ok id payload found full same =
    rw (found, checked_payload, usable_log, full, ← same)

module _ (deps : ReplayDeps) where
  -- What a returned payload rests on.
  pub record IsFetched (id : Text) (payload : ReplayPayload) : Type 0 where
    pub url : Text
    pub response : Response
    pub reads : List Read
    pub safe : is_safe_replay_id id ≡ true
    pub resolved : deps.new_url (id ++ text ".json") deps.base_url ≡ some url
    pub answered : deps.fetch url ≡ responded response
    pub from_200 : 200 ≤ response.status
    pub to_299 : response.status ≤ 299
    pub body : response.body ≡ some reads
    pub unbroken : All IsData reads
    pub under : length (contents reads) ≤ deps.max_bytes
    pub parsed : deps.parse_json (deps.decode_utf8 (contents reads)) ≡ some (Json.obj payload.raw)
    pub logged : Json.get (text "log") payload.raw ≡ some (Json.str payload.log)
    pub full : is_blank payload.log ≡ false
    pub same_id : payload.id ≡ id

  ok_bounds :
      (response : Response)
      → is_ok response ≡ true
      → (200 ≤ response.status) × (response.status ≤ 299)
  unfolding is_ok
  ok_bounds response h = (ground arith, ground arith)

  bounds_ok :
      (response : Response) → 200 ≤ response.status → response.status ≤ 299 → is_ok response ≡ true
  unfolding is_ok
  bounds_ok response h k = ground arith

  ok_ne_404 : (response : Response) → is_ok response ≡ true → (response.status == 404) ≡ false
  unfolding is_ok
  ok_ne_404 response h = ground arith

  parsed_payload-inv :
      (id : Text) (result : Result (List ℕ)) (payload : ReplayPayload)
      → parsed_payload deps id result ≡ ok payload
      → (bytes : List ℕ) × (result ≡ ok bytes)
        × (deps.parse_json (deps.decode_utf8 bytes) ≡ some (Json.obj payload.raw))
        × (usable_log (Json.get (text "log") payload.raw) ≡ some payload.log)
        × (payload.id ≡ id)
  unfolding parsed_payload
  parsed_payload-inv id (throw error) payload e = cc
  parsed_payload-inv id (ok bytes) payload e =
      elim (Option-cases (deps.parse_json (deps.decode_utf8 bytes))) [
        | inl p ↦ cc (rw (p, parsed_payload) at e)
        | inr (json, p) ↦
            let (object, log, same) =
              checked_payload-inv id json payload (rw (p, parsed_payload) at e) in
            (bytes, refl, p ∙ ap some object, log, same)
      ]

  receive-inv :
      (id url : Text) (response : Response) (payload : ReplayPayload)
      → (receive deps id url response).0 ≡ ok payload
      → (is_ok response ≡ true)
        × (parsed_payload deps id (read_capped response.body deps.max_bytes).0 ≡ ok payload)
  unfolding receive
  receive-inv id url response payload e = elim (Bool-cases (response.status == 404)) [
    | inl f ↦ cc (rw f at e)
    | inr f ↦ elim (Bool-cases (is_ok response)) [
      | inl g ↦ (g, rw (f, g) at e)
      | inr g ↦ cc (rw (f, g) at e)
    ]
  ]

  answer-inv :
      (id url : Text) (reply : FetchReply) (payload : ReplayPayload)
      → (answer deps id url reply).0 ≡ ok payload
      → (response : Response) × (reply ≡ responded response)
        × ((receive deps id url response).0 ≡ ok payload)
  unfolding answer
  answer-inv id url (responded response) payload e = (response, refl, e)
  answer-inv id url aborted payload e = cc
  answer-inv id url (failed cause) payload e = cc

  fetch_replay-inv :
      (id : Text) (payload : ReplayPayload)
      → (fetch_replay deps id).0 ≡ ok payload
      → (is_safe_replay_id id ≡ true)
        × ((url : Text) × (deps.new_url (id ++ text ".json") deps.base_url ≡ some url)
            × ((answer deps id url (deps.fetch url)).0 ≡ ok payload))
  unfolding fetch_replay
  fetch_replay-inv id payload e = elim (Bool-cases (is_safe_replay_id id)) [
    | inr s ↦ cc (rw s at e)
    | inl s ↦ elim (Option-cases (deps.new_url (id ++ text ".json") deps.base_url)) [
      | inl u ↦ cc (rw (s, u, fetch_replay) at e)
      | inr (url, u) ↦ (s, (url, u, rw (s, u, fetch_replay) at e))
    ]
  ]

  IsFetched-sound :
      (id : Text) (payload : ReplayPayload)
      → (fetch_replay deps id).0 ≡ ok payload
      → IsFetched id payload
  IsFetched-sound id payload e =
      let (safe, (url, resolved, e1)) = fetch_replay-inv id payload e in
      let (response, answered, e2) = answer-inv id url (deps.fetch url) payload e1 in
      let (succeeded, e3) = receive-inv id url response payload e2 in
      let (bytes, read, parsed, log, same) =
        parsed_payload-inv id (read_capped response.body deps.max_bytes).0 payload e3 in
      let (reads, body, unbroken, under, whole) =
        read_capped-inv response.body deps.max_bytes bytes read in
      let (from_200, to_299) = ok_bounds response succeeded in
      let (logged, full) = usable_log-inv (Json.get (text "log") payload.raw) payload.log log in
      record {
        url = url;
        response = response;
        reads = reads;
        safe = safe;
        resolved = resolved;
        answered = answered;
        from_200 = from_200;
        to_299 = to_299;
        body = body;
        unbroken = unbroken;
        under = under;
        parsed =
            subst (λ b. deps.parse_json (deps.decode_utf8 b) ≡ some (Json.obj payload.raw)) whole
              parsed;
        logged = logged;
        full = full;
        same_id = same;
      }

  fetched_complete :
      (id : Text) (payload : ReplayPayload)
      → IsFetched id payload
      → (fetch_replay deps id).0 ≡ ok payload
  unfolding fetch_replay answer receive parsed_payload
  fetched_complete id payload f =
      let succeeded = bounds_ok f.response f.from_200 f.to_299 in
      rw
        (
          f.safe,
          f.resolved,
          fetch_replay,
          f.answered,
          answer,
          ok_ne_404 f.response succeeded,
          succeeded,
          f.body,
          read_capped-fits f.reads deps.max_bytes f.unbroken f.under,
          parsed_payload,
          f.parsed,
        )
        (checked_payload-ok id payload f.logged f.full f.same_id)

  -- A payload is returned exactly when the id is safe, its URL resolves, the answer has a status
  -- from 200 to 299 and a body that arrives without a failure in at most as many bytes as the
  -- ceiling, and the text of all these bytes parses to an object whose log is a string that is not blank; that
  -- string is the payload's log.
  pub fetch_replay_iff :
      (id : Text) (payload : ReplayPayload)
      → ((fetch_replay deps id).0 ≡ ok payload) ↔ IsFetched id payload
  fetch_replay_iff id payload = (IsFetched-sound id payload, fetched_complete id payload)
