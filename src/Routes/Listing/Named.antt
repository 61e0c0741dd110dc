-- ===== src/Routes/Listing/Named.antt =====
-- The cursors of the pages of `GET /v1/analyses` are not empty.
use battle_cloud.Common.{
  ℕ, suc, ◌≢◌, Bool, true, false, ltb, [], ◌∷◌, ◌++◌, Option, none, some, Text, length, take,
}
use battle_cloud.Platform.{Platform}
use battle_cloud.Store.Cursor.{Decoded, ok, cursor_error, encode_cursor, decode_cursor}
use battle_cloud.Store.Analyses.{AnalysisSummary, Position, recent_analyses}
use battle_cloud.Routes.{Answer, sent, page, fail, Api}
use battle_cloud.Routes.Listing.{
  last, next_cursor, page_at, page_from, page_behind, position_of_cursor, list_analyses,
}
use battle_cloud.Routes.Listing.Paged.{answer_at}

-- A page never has the empty text for its cursor.
abbrev pub IsNamed : Answer → Type 0
IsNamed (sent code headers (page rows next)) = next ≢ some []
IsNamed _ = Unit

append_filled : (s : Text) (c : ℕ) (t : Text) → s ++ c ∷ t ≢ []
append_filled [] c t h = cc h
append_filled (d ∷ s) c t h = cc h

module _ (p : Platform) (filled : (s : Text) → s ≢ [] → p.to_base64url s ≢ []) where
  next_cursor-filled :
      (more : Bool) (end : Option AnalysisSummary) → next_cursor p more end ≢ some []
  unfolding next_cursor encode_cursor
  next_cursor-filled more none h = cc h
  next_cursor-filled true (some s) h =
      filled (p.to_iso_string s.created_at ++ b'|' ∷ s.analysis_id)
        (append_filled (p.to_iso_string s.created_at) b'|' s.analysis_id) (cc h)
  next_cursor-filled false (some s) h = cc h

  page_at-IsNamed :
      (limit : ℕ) (cursor : Option Position) (api : Api) → IsNamed (page_at p limit cursor api)
  unfolding page_at
  page_at-IsNamed limit cursor api =
      let rows = recent_analyses p (suc limit) cursor api.analyses api.replays in
      next_cursor-filled (ltb limit (length rows)) (last (take limit rows))

  page_from-IsNamed :
      (limit : ℕ) (api : Api) (position : Option Position)
      → IsNamed (page_from p limit api position)
  unfolding page_from
  page_from-IsNamed limit api none = tt
  page_from-IsNamed limit api (some position) = page_at-IsNamed limit (some position) api

  page_behind-IsNamed :
      (limit : ℕ) (api : Api) (cursor : Decoded) → IsNamed (page_behind p limit api cursor)
  unfolding page_behind fail
  page_behind-IsNamed limit api (cursor_error message) = tt
  page_behind-IsNamed limit api (ok cursor) =
      page_from-IsNamed limit api (position_of_cursor p cursor)

  pub answer_at-IsNamed :
      (limit : ℕ) (api : Api) (cursor : Option Text) → IsNamed (answer_at p limit api cursor)
  unfolding list_analyses
  answer_at-IsNamed limit api none = page_at-IsNamed limit none api
  answer_at-IsNamed limit api (some raw) = page_behind-IsNamed limit api (decode_cursor p raw)
