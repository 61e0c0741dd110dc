-- ===== src/Routes/Listing.antt =====
-- `GET /v1/analyses` of api/src/routes.ts, and a client that follows its cursors.
pub mod Walk
pub mod Query
pub mod Paged
pub mod Named
use battle_cloud.Common.{
  ℕ, zero, suc, ◌+◌, Bool, ltb, List, [], ◌∷◌, ◌++◌, Option, none, some, Text, text, length, take,
  if◌then◌else◌,
}
use battle_cloud.Platform.{Platform}
use battle_cloud.Contract.Errors.{invalid_request}
use battle_cloud.Contract.Schemas.{Parsed, success, failure}
use battle_cloud.Store.Cursor.{
  AnalysisCursor, Decoded, ok, cursor_error, encode_cursor, decode_cursor,
}
use battle_cloud.Store.Analyses.{AnalysisSummary, Position, recent_analyses}
use battle_cloud.Routes.{Answer, sent, crashed, Body, page, fail, join_issues, Api}

-- `ListQuery`: the limit, within 1 to 50, and the cursor.
pub record ListQuery : Type 0 where
  pub limit : ℕ
  pub cursor : Option Text

-- `analyses[analyses.length - 1]`
abbrev pub last : List AnalysisSummary → Option AnalysisSummary
last [] = none
last (s ∷ []) = some s
last (_ ∷ s ∷ rows) = last (s ∷ rows)

module _ (p : Platform) where
  -- A cursor from the last row of the page when there are more rows than fit.
  unfoldable pub next_cursor : Bool → Option AnalysisSummary → Option Text
  next_cursor more none = none
  next_cursor more (some s) =
      let cursor =
        encode_cursor p
          (record { created_at = p.to_iso_string s.created_at; id = s.analysis_id }) in
      if more then some cursor else none

  -- From the query of the rows on.
  unfoldable pub page_at : ℕ → Option Position → Api → Answer
  unfolding next_cursor
  page_at limit cursor api =
      let rows = recent_analyses p (suc limit) cursor api.analyses api.replays in
      let analyses = take limit rows in
      sent 200 [] (page analyses (next_cursor (ltb limit (length rows)) (last analyses)))

  -- The casts of the statement's parameters; a text that is refused fails the statement.
  unfoldable pub position_of_cursor : AnalysisCursor → Option Position
  position_of_cursor cursor = elim (p.timestamptz cursor.created_at) [
    | none ↦ none
    | some created_at ↦ elim (p.uuid cursor.id) [
      | none ↦ none
      | some id ↦ some (record { created_at = created_at; id = id })
    ]
  ]

  unfoldable pub page_from : ℕ → Api → Option Position → Answer
  unfolding page_at
  page_from limit api none = crashed (text "invalid input syntax")
  page_from limit api (some position) = page_at limit (some position) api

  unfoldable pub page_behind : ℕ → Api → Decoded → Answer
  unfolding page_from position_of_cursor fail
  page_behind limit api (cursor_error message) = fail invalid_request message
  page_behind limit api (ok cursor) = page_from limit api (position_of_cursor cursor)

  unfoldable pub list_analyses : Parsed ListQuery → Api → Answer
  unfolding page_behind page_at join_issues fail
  list_analyses (failure issues) api = fail invalid_request (join_issues issues)
  list_analyses (success query) api = elim query.cursor [
    | none ↦ page_at query.limit none api
    | some raw ↦ page_behind query.limit api (decode_cursor p raw)
  ]

  -- A client that asks for the next page while there is a cursor, with fuel for the pages.
  unfoldable pub walk : ℕ → ℕ → Option Text → Api → List AnalysisSummary
  unfolding list_analyses
  walk zero limit cursor api = []
  walk (suc fuel) limit cursor api =
      elim (list_analyses (success (record { limit = limit; cursor = cursor })) api) [
        | sent code headers (page analyses none) ↦ analyses
        | sent code headers (page analyses (some next)) ↦
            analyses ++ walk fuel limit (some next) api
        | _ ↦ []
      ]
