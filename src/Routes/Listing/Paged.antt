-- ===== src/Routes/Listing/Paged.antt =====
-- The pages that a client gets when it follows the cursors of `GET /v1/analyses`.
use battle_cloud.Common.{
  ℕ, zero, suc, ◌≡◌, ap, ◌∙◌, ◌⊎◌, inl, inr, true, false, List, [], ◌++◌, Option, none, some, Text,
}
use battle_cloud.Platform.{Platform}
use battle_cloud.Contract.Schemas.{success}
use battle_cloud.Store.Analyses.{AnalysisSummary}
use battle_cloud.Routes.{sent, page, Answer, Api}
use battle_cloud.Routes.Listing.{list_analyses, walk}

module _ (p : Platform) (limit : ℕ) (api : Api) where
  -- The handler's answer to a cursor.
  abbrev pub answer_at : Option Text → Answer
  answer_at cursor = list_analyses p (success (record { limit = limit; cursor = cursor })) api

  -- A page with a cursor, and what is behind it.
  pub record IsFollowed (P : Option Text → List AnalysisSummary → Type 0) (cursor : Option Text)
      (rows : List AnalysisSummary) : Type 0 where
    pub here : List AnalysisSummary
    pub next : Text
    pub behind : List AnalysisSummary
    pub answer : answer_at cursor ≡ sent 200 [] (page here (some next))
    pub rest : P (some next) behind
    pub whole : here ++ behind ≡ rows

  -- The pages from a cursor on are answered 200, end, within so many, with a page without a cursor, and
  -- have these rows together.
  abbrev pub IsPaged : ℕ → Option Text → List AnalysisSummary → Type 0
  IsPaged zero cursor rows = true ≡ false
  IsPaged (suc fuel) cursor rows =
      (answer_at cursor ≡ sent 200 [] (page rows none)) ⊎ IsFollowed (IsPaged fuel) cursor rows

  walk_more :
      (fuel : ℕ) (cursor : Option Text) (rows : List AnalysisSummary) (next : Text)
      → answer_at cursor ≡ sent 200 [] (page rows (some next))
      → walk p (suc fuel) limit cursor api ≡ rows ++ walk p fuel limit (some next) api
  unfolding walk
  walk_more fuel cursor rows next h = rw (walk, h)

  walk_done :
      (fuel : ℕ) (cursor : Option Text) (rows : List AnalysisSummary)
      → answer_at cursor ≡ sent 200 [] (page rows none)
      → walk p (suc fuel) limit cursor api ≡ rows
  unfolding walk
  walk_done fuel cursor rows h = rw (walk, h)

  pub walk-IsPaged :
      (fuel : ℕ) (cursor : Option Text) (rows : List AnalysisSummary)
      → IsPaged fuel cursor rows
      → walk p fuel limit cursor api ≡ rows
  walk-IsPaged zero cursor rows h = cc h
  walk-IsPaged (suc fuel) cursor rows (inl h) = walk_done fuel cursor rows h
  walk-IsPaged (suc fuel) cursor rows (inr h) =
      walk_more fuel cursor h.here h.next h.answer
      ∙ ap (λ l. h.here ++ l) (walk-IsPaged fuel (some h.next) h.behind h.rest)
      ∙ h.whole
