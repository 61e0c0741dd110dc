-- ===== src/Routes/Failing/Listing.antt =====
-- `GET /v1/analyses` of api/src/routes.ts over a database that may fail, and the three reading handlers
-- together.
use battle_cloud.Common.{
  ℕ, suc, ◌≡◌, refl, true, ltb, inl, inr, ◌⊎◌, List, [], ◌∷◌, Option, none, some, Text, text,
  length, take,
}
use battle_cloud.Platform.{Platform}
use battle_cloud.Contract.Errors.{invalid_request}
use battle_cloud.Contract.Schemas.{Parsed, success, failure}
use battle_cloud.Replay.Read.{other_error}
use battle_cloud.Store.Cursor.{AnalysisCursor, Decoded, ok, cursor_error, decode_cursor}
use battle_cloud.Store.Analyses.{AnalysisSummary, Position, recent_analyses}
use battle_cloud.Routes.{Answer, sent, crashed, page, fail, join_issues, Api, Outcome}
use battle_cloud.Routes.Listing
use battle_cloud.Routes.Listing.{ListQuery, last, next_cursor, position_of_cursor}
use battle_cloud.Routes.Failing.{
  Fate, done, refused, lost, next_fate, Call, ◌>>=◌, pure, raise, statement, outcome,
}
use battle_cloud.Routes.Failing.Cut.{fails}

module _ (p : Platform) where
  -- What is sent for one row more than asked for, at most.
  page_of : ℕ → List AnalysisSummary → Answer
  page_of limit rows =
      let analyses = take limit rows in
      sent 200 [] (page analyses (next_cursor p (ltb limit (length rows)) (last analyses)))

  -- From the query of the rows on.
  page_at : ℕ → Option Position → Call Answer
  unfolding page_of
  page_at limit cursor = do
    rows ← statement (λ api. (recent_analyses p (suc limit) cursor api.analyses api.replays, api))
    pure (page_of limit rows)

  -- A cursor that the casts refuse fails the statement.
  page_from : ℕ → Option Position → Call Answer
  unfolding page_at
  page_from limit none = raise (other_error (text "invalid input syntax"))
  page_from limit (some position) = page_at limit (some position)

  page_behind : ℕ → Decoded → Call Answer
  unfolding page_from
  page_behind limit (cursor_error message) = pure (fail invalid_request message)
  page_behind limit (ok cursor) = page_from limit (position_of_cursor p cursor)

  page_after : ℕ → Option Text → Call Answer
  unfolding page_behind
  page_after limit none = page_at limit none
  page_after limit (some raw) = page_behind limit (decode_cursor p raw)

  unfoldable pub list_analyses : Parsed ListQuery → Call Answer
  unfolding page_after
  list_analyses (failure issues) = pure (fail invalid_request (join_issues issues))
  list_analyses (success query) = page_after query.limit query.cursor

  -- A query that comes to a statement: it passed the schema, and its cursor, if any, is decoded to a
  -- position that the casts take.
  abbrev pub IsPlaced : Option Text → Type 0
  IsPlaced none = Unit
  IsPlaced (some raw) =
      (cursor : AnalysisCursor) × (decode_cursor p raw ≡ ok cursor)
      × ((position : Position) × (position_of_cursor p cursor ≡ some position))

  abbrev pub IsAsked : Parsed ListQuery → Type 0
  IsAsked (failure issues) = ⊥
  IsAsked (success query) = IsPlaced query.cursor

  -- The answer, or a 500 because the statement failed that such a query comes to; tables and outside
  -- are as they were.
  abbrev pub IsReadOrFails : Type 0 → Api → List Fate → Answer → Outcome → Type 0
  IsReadOrFails asked api fates answer o =
      ((o.answer ≡ answer)
        ⊎ ((m : Text) × (o.answer ≡ crashed m) × (fails (next_fate fates ∷ []) ≡ true) × asked))
      × (o.api ≡ api)
      × (o.actions ≡ [])

  page_at-IsReadOrFails :
      (limit : ℕ) (cursor : Option Position) (fates : List Fate) (api : Api) (asked : Type 0)
      → asked
      → IsReadOrFails asked api fates
          (Listing.page_at p limit cursor api)
          (outcome (page_at limit cursor) fates api)
  unfolding page_at Listing.page_at
  page_at-IsReadOrFails limit cursor [] api asked h = (inl refl, refl, refl)
  page_at-IsReadOrFails limit cursor (done ∷ fates) api asked h = (inl refl, refl, refl)
  page_at-IsReadOrFails limit cursor (refused m ∷ fates) api asked h =
      (inr (m, refl, refl, h), refl, refl)
  page_at-IsReadOrFails limit cursor (lost m ∷ fates) api asked h =
      (inr (m, refl, refl, h), refl, refl)

  page_from-IsReadOrFails :
      (limit : ℕ) (position : Option Position) (fates : List Fate) (api : Api) (asked : Type 0)
      → ((at : Position) → position ≡ some at → asked)
      → IsReadOrFails asked api fates
          (Listing.page_from p limit api position)
          (outcome (page_from limit position) fates api)
  unfolding page_from Listing.page_from
  page_from-IsReadOrFails limit none fates api asked h = (inl refl, refl, refl)
  page_from-IsReadOrFails limit (some position) fates api asked h =
      page_at-IsReadOrFails limit (some position) fates api asked (h position refl)

  page_behind-IsReadOrFails :
      (limit : ℕ) (raw : Text) (decoded : Decoded) (fates : List Fate) (api : Api)
      → decode_cursor p raw ≡ decoded
      → IsReadOrFails
          (IsPlaced (some raw))
          api
          fates
          (Listing.page_behind p limit api decoded)
          (outcome (page_behind limit decoded) fates api)
  unfolding page_behind Listing.page_behind
  page_behind-IsReadOrFails limit raw (cursor_error message) fates api d = (inl refl, refl, refl)
  page_behind-IsReadOrFails limit raw (ok cursor) fates api d =
      page_from-IsReadOrFails limit (position_of_cursor p cursor) fates api (IsPlaced (some raw))
        (λ at h. (cursor, d, (at, h)))

  list_query-IsReadOrFails :
      (limit : ℕ) (cursor : Option Text) (fates : List Fate) (api : Api)
      → IsReadOrFails
          (IsPlaced cursor)
          api
          fates
          (Listing.list_analyses p (success (record { limit = limit; cursor = cursor })) api)
          (outcome (page_after limit cursor) fates api)
  unfolding page_after Listing.list_analyses
  list_query-IsReadOrFails limit none fates api = page_at-IsReadOrFails limit none fates api Unit tt
  list_query-IsReadOrFails limit (some raw) fates api =
      page_behind-IsReadOrFails limit raw (decode_cursor p raw) fates api refl

  -- Whatever becomes of the statement of a list: tables and outside stay as they are, and the answer is
  -- the one over a database that does not fail, or a 500. It is a 500 in its place only when the first
  -- statement fails, the query passed the schema, and its cursor, if it has one, is decoded to a position that
  -- the casts take; any other query is answered the same whatever the database does.
  pub list_analyses-IsReadOrFails :
      (parsed : Parsed ListQuery) (fates : List Fate) (api : Api)
      → IsReadOrFails
          (IsAsked parsed)
          api
          fates
          (Listing.list_analyses p parsed api)
          (outcome (list_analyses parsed) fates api)
  unfolding list_analyses Listing.list_analyses
  list_analyses-IsReadOrFails (failure issues) fates api = (inl refl, refl, refl)
  list_analyses-IsReadOrFails (success query) fates api =
      list_query-IsReadOrFails query.limit query.cursor fates api
