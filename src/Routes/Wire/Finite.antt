-- ===== src/Routes/Wire/Finite.antt =====
-- The jobs and the pages that api/src/routes.ts sends hold no infinite number.
use battle_cloud.Common.{ℕ, List, [], ◌∷◌, map, Option, none, some, Text}
use battle_cloud.Json
use battle_cloud.Json.{IsFinite, IsFiniteItems}
use battle_cloud.Platform.{Platform}
use battle_cloud.Store.Replays.{Rating, natural, negative}
use battle_cloud.Store.Analyses.{AnalysisSummary}
use battle_cloud.Routes.{JobView, job, page}
use battle_cloud.Routes.Wire.{or_null, rating_json, summary_json, body_json}

or_null-num : (n : Option ℕ) → IsFinite (or_null Json.num n)
or_null-num none = tt
or_null-num (some n) = tt

or_null-str : (s : Option Text) → IsFinite (or_null Json.str s)
or_null-str none = tt
or_null-str (some s) = tt

or_null-rating : (r : Option Rating) → IsFinite (or_null rating_json r)
or_null-rating none = tt
or_null-rating (some (natural n)) = tt
or_null-rating (some (negative t)) = tt

names-IsFinite : (names : List Text) → IsFiniteItems (Json.array (map Json.str names))
names-IsFinite [] = tt
names-IsFinite (name ∷ names) = (tt, names-IsFinite names)

module _ (p : Platform) where
  pub job-IsFinite : (v : JobView) → IsFinite (body_json p (job v))
  unfolding body_json
  job-IsFinite v =
      let turns = or_null-num v.estimated_turns in
      let ms = or_null-num v.estimated_search_ms in
      let analysis = or_null-str v.analysis_id in
      let kind = or_null-str v.error_kind in
      (tt, (tt, (tt, (tt, (tt, (turns, (ms, (analysis, (kind, (tt, (tt, tt)))))))))))

  summary-IsFinite : (s : AnalysisSummary) → IsFinite (summary_json p s)
  unfolding summary_json
  summary-IsFinite s =
      let names = names-IsFinite s.players in
      (tt, (tt, (tt, (or_null-rating s.rating, (names, (tt, (tt, (tt, (tt, (tt, (tt, tt)))))))))))

  summaries-IsFinite :
      (rows : List AnalysisSummary) → IsFiniteItems (Json.array (map (summary_json p) rows))
  summaries-IsFinite [] = tt
  summaries-IsFinite (s ∷ rows) = (summary-IsFinite s, summaries-IsFinite rows)

  pub page-IsFinite :
      (rows : List AnalysisSummary) (next : Option Text) → IsFinite (body_json p (page rows next))
  unfolding body_json
  page-IsFinite rows next = (summaries-IsFinite rows, (or_null-str next, tt))
