-- ===== src/Routes/Listing/Query.antt =====
-- `GET /v1/analyses` of api/src/routes.ts from its raw query: `ListQuerySchema` of
-- api/src/contract/schemas.ts in front of the handler.
use battle_cloud.Common.{
  ℕ, zero, suc, ◌≤◌, ◌≡◌, ◌≢◌, refl, Bool, true, ◌&&◌, ◌||◌, leb, List, [], ◌∷◌, Option, none, some,
  Text, text, text_eq, length, take, arith, Bool-cases, Option-cases, inl, inr, if◌then◌else◌,
}
use battle_cloud.Json
use battle_cloud.Json.{Json, Fields}
use battle_cloud.Platform.{Platform}
use battle_cloud.Contract.Schemas.{Parsed, success, failure}
use battle_cloud.Store.Cursor.{Decoded, ok, cursor_error, decode_cursor}
use battle_cloud.Store.Analyses.{AnalysisSummary, Position, recent_analyses}
use battle_cloud.Routes.{Answer, sent, crashed, page, fail, Api}
use battle_cloud.Routes.Listing.{
  ListQuery, page_at, page_from, page_behind, position_of_cursor, next_cursor, list_analyses,
}

is_list_strict : Fields → Bool
is_list_strict Json.end = true
is_list_strict (Json.field key json fields) =
    (text_eq key (text "limit") || text_eq key (text "cursor")) && is_list_strict fields

-- `z.string().min(1).optional()`
cursor_field : Option Json → Option (Option Text)
cursor_field none = some none
cursor_field (some (Json.str (c ∷ s))) = some (some (c ∷ s))
cursor_field (some _) = none

abbrev pub both : Option ℕ → Option (Option Text) → Option ListQuery
both (some limit) (some cursor) = some (record { limit = limit; cursor = cursor })
both _ _ = none

-- The numbers are `Number(value)` where that is a natural number; the schema refuses all others.
module _ (number : Json → Option ℕ) where
  abbrev pub within : Option ℕ → Option ℕ
  within none = none
  within (some n) = if leb 1 n && leb n 50 then some n else none

  -- `z.coerce.number().int().min(1).max(50).default(20)`
  limit_field : Option Json → Option ℕ
  limit_field none = some 20
  limit_field (some json) = within (number json)

  unfoldable pub accepted_query : Json → Option ListQuery
  unfolding is_list_strict limit_field cursor_field
  accepted_query (Json.obj fields) =
      if is_list_strict fields
      then both (limit_field (Json.get (text "limit") fields))
          (cursor_field (Json.get (text "cursor") fields))
      else none
  accepted_query _ = none

  abbrev parsed : List Text → Option ListQuery → Parsed ListQuery
  parsed issues none = failure issues
  parsed issues (some query) = success query

  -- `ListQuerySchema.safeParse`
  unfoldable pub parse_list_query : (Json → List Text) → Json → Parsed ListQuery
  unfolding accepted_query
  parse_list_query issues query = parsed (issues query) (accepted_query query)

  unfoldable pub get_list : Platform → (Json → List Text) → Json → Api → Answer
  unfolding parse_list_query list_analyses
  get_list p issues query api = list_analyses p (parse_list_query issues query) api

  within-le : (n : Option ℕ) (m : ℕ) → within n ≡ some m → (1 ≤ m) × (m ≤ 50)
  within-le none m h = cc h
  within-le (some n) m h = ground arith

  limit_field-le : (json : Option Json) (m : ℕ) → limit_field json ≡ some m → (1 ≤ m) × (m ≤ 50)
  unfolding limit_field
  limit_field-le none m h = ground arith
  limit_field-le (some json) m h = within-le (number json) m h

  both-limit :
      (limit : Option ℕ) (cursor : Option (Option Text)) (query : ListQuery)
      → both limit cursor ≡ some query
      → limit ≡ some query.limit
  both-limit none cursor query h = cc h
  both-limit (some limit) none query h = cc h
  both-limit (some limit) (some cursor) query h = cc h

  accepted_query-le :
      (json : Json) (query : ListQuery)
      → accepted_query json ≡ some query
      → (1 ≤ query.limit) × (query.limit ≤ 50)
  unfolding accepted_query
  accepted_query-le (Json.obj fields) query h = elim (Bool-cases (is_list_strict fields)) [
    | inl e ↦ limit_field-le (Json.get (text "limit") fields) query.limit (
        both-limit (limit_field (Json.get (text "limit") fields))
          (cursor_field (Json.get (text "cursor") fields)) query (cc (h, e)))
    | inr e ↦ cc (h, e)
  ]
  accepted_query-le Json.null query h = cc h
  accepted_query-le (Json.bool b) query h = cc h
  accepted_query-le (Json.num n) query h = cc h
  accepted_query-le (Json.other_num k t) query h = cc h
  accepted_query-le (Json.str s) query h = cc h
  accepted_query-le (Json.arr a) query h = cc h

-- What a request for a page may be answered.
abbrev pub IsListed : Answer → Type 0
IsListed (sent code headers (page rows next)) =
    (code ≡ 200) × (length rows ≤ 50) × (next ≢ none → rows ≢ [])
IsListed (sent code headers body) = code ≡ 400
IsListed (crashed message) = message ≡ text "invalid input syntax"

take-le : (n : ℕ) (rows : List AnalysisSummary) → length (take n rows) ≤ n
take-le zero rows = omega arith
take-le (suc n) [] = omega arith
take-le (suc n) (s ∷ rows) = omega (arith, take-le n rows)

module _ (p : Platform) where
  page_at-IsListed :
      (limit : ℕ) (cursor : Option Position) (api : Api)
      → limit ≤ 50
      → IsListed (page_at p limit cursor api)
  unfolding page_at next_cursor
  page_at-IsListed limit cursor api h =
      let rows = recent_analyses p (suc limit) cursor api.analyses api.replays in
      (refl, omega (arith, take-le limit rows, h), (λ more empty. more (rw empty refl)))

  page_from-IsListed :
      (limit : ℕ) (api : Api) (position : Option Position)
      → limit ≤ 50
      → IsListed (page_from p limit api position)
  unfolding page_from
  page_from-IsListed limit api none h = refl
  page_from-IsListed limit api (some position) h = page_at-IsListed limit (some position) api h

  page_behind-IsListed :
      (limit : ℕ) (api : Api) (cursor : Decoded)
      → limit ≤ 50
      → IsListed (page_behind p limit api cursor)
  unfolding page_behind fail
  page_behind-IsListed limit api (cursor_error message) h = refl
  page_behind-IsListed limit api (ok cursor) h =
      page_from-IsListed limit api (position_of_cursor p cursor) h

  cursor-IsListed :
      (limit : ℕ) (cursor : Option Text) (api : Api)
      → limit ≤ 50
      → IsListed (list_analyses p (success (record { limit = limit; cursor = cursor })) api)
  unfolding list_analyses
  cursor-IsListed limit none api h = page_at-IsListed limit none api h
  cursor-IsListed limit (some raw) api h = page_behind-IsListed limit api (decode_cursor p raw) h

  -- Whatever the query: the answer is a page, with 200, at most fifty rows, and at least one when
  -- there is a next page; or a refusal with 400; or a statement fails on what a cursor carries.
  pub get_list-IsListed :
      (number : Json → Option ℕ) (issues : Json → List Text) (query : Json) (api : Api)
      → IsListed (get_list number p issues query api)
  unfolding get_list parse_list_query
  get_list-IsListed number issues query api = elim (Option-cases (accepted_query number query)) [
    | inl e ↦ rw e (unfold list_analyses fail in refl)
    | inr (q, e) ↦
        rw e (cursor-IsListed q.limit q.cursor api ((accepted_query-le number query q e).1))
  ]
