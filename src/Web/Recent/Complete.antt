-- ===== src/Web/Recent/Complete.antt =====
-- The list of recent analyses in front of the API.
use battle_cloud.Common.{
  ℕ, zero, suc, ◌≤◌, ◌≡◌, ◌≢◌, refl, sym, ap, ◌∙◌, subst, inl, inr, arith, false, List, [], ◌∷◌,
  ◌++◌, map, Option, none, some, Text, text, text_eq, length, All,
}
use mathlib.Core.List.{append_assoc}
use battle_cloud.Json
use battle_cloud.Json.{Json}
use battle_cloud.Platform.{Platform}
use battle_cloud.Platform
use battle_cloud.Store.Analyses.{AnalysisSummary, to_summary, newest_first}
use battle_cloud.Store.Analyses.Order.{IsDistinct}
use battle_cloud.Store.Analyses.Cut.{IsSeparated}
use battle_cloud.Routes.{sent, page, Api}
use battle_cloud.Routes.Listing.Query.{accepted_query, parse_list_query, get_list}
use battle_cloud.Routes.Listing.Named.{IsNamed, answer_at-IsNamed}
use battle_cloud.Routes.Listing.Paged.{answer_at, IsPaged}
use battle_cloud.Routes.Listing.Walk.Pages.{joined, IsKeyed, list_analyses-IsPaged}
use battle_cloud.Routes.Wire.{or_null, body_json, summary_json}
use battle_cloud.Routes.Wire.Finite.{page-IsFinite}
use battle_cloud.Web.Client.{HttpRequest, Fetched, Browser, got, list_analyses, list_query, suffix}
use battle_cloud.Web.Client.Served.{Wire, carried, IsLawful, request-sent}
use battle_cloud.Web.Recent.{Recent, opened, items_of, loaded, load, press_more, press_all}

-- What the query of the list is as the framework hands it over.
abbrev pub query_json : Option Text → Json
query_json none = Json.obj (Json.object ((text "limit", Json.str (text "20")) ∷ []))
query_json (some cursor) =
    Json.obj
      (Json.object ((text "limit", Json.str (text "20")) ∷ (text "cursor", Json.str cursor) ∷ []))

items_of-array : (rows : List Json) → items_of (Json.array rows) ≡ rows
items_of-array [] = refl
items_of-array (json ∷ rows) = ap (λ l. json ∷ l) (items_of-array rows)

module _ (wire : Wire) (browser : Browser) (network : HttpRequest → Fetched)
    (number : Json → Option ℕ) (issues : Json → List Text) (api : Api) where
  -- A request for a page reaches the handler with its query, `Number("20")` is 20, and the encoding
  -- of a text that is not empty is not empty.
  pub record IsListServing : Type 0 where
    pub lawful : IsLawful browser
    pub twenty : number (Json.str (text "20")) ≡ some 20
    pub filled : (s : Text) → s ≢ [] → wire.platform.to_base64url s ≢ []
    pub reached :
        (from : Option Text)
        → network (record {
          method = text "GET";
          path = text "/v1/analyses" ++ suffix (list_query browser (some 20) from);
          body = none;
        })
          ≡ carried wire browser (get_list number wire.platform issues (query_json from) api)

  get_list-query_json :
      (from : Option Text)
      → number (Json.str (text "20")) ≡ some 20
      → from ≢ some []
      → get_list number wire.platform issues (query_json from) api
        ≡ answer_at wire.platform 20 api from
  unfolding get_list parse_list_query accepted_query Json.get text text_eq
  get_list-query_json none twenty h = rw twenty refl
  get_list-query_json (some []) twenty h = absurd (h refl)
  get_list-query_json (some (c ∷ cursor)) twenty h = rw twenty refl

  list_analyses-served :
      (from next : Option Text) (rows : List AnalysisSummary)
      → IsListServing
      → from ≢ some []
      → answer_at wire.platform 20 api from ≡ sent 200 [] (page rows next)
      → list_analyses browser network (some 20) from
        ≡ got (body_json wire.platform (page rows next))
  unfolding list_analyses
  list_analyses-served from next rows serving h answer =
      request-sent wire browser network
        (text "/v1/analyses" ++ suffix (list_query browser (some 20) from)) [] (page rows next)
        serving.lawful
        (serving.reached from
          ∙ ap (carried wire browser) (get_list-query_json from serving.twenty h ∙ answer))
        (page-IsFinite wire.platform rows next)

  -- The view with one page more.
  abbrev pub with_rows : Recent → List AnalysisSummary → Option Text → Recent
  with_rows view rows next = record {
    analyses = view.analyses ++ map (summary_json wire.platform) rows;
    cursor = some (or_null Json.str next);
    error = none;
    loading = false;
  }

  loaded-page :
      (view : Recent) (next : Option Text) (rows : List AnalysisSummary)
      → loaded view (got (body_json wire.platform (page rows next)))
        ≡ some (with_rows view rows next)
  unfolding body_json Json.get text text_eq
  loaded-page view next rows = rw (items_of-array (map (summary_json wire.platform) rows)) refl

  -- A load of a page that the API serves.
  load-served :
      (display : Option Json → Text) (view : Recent) (from next : Option Text)
      (rows : List AnalysisSummary)
      → IsListServing
      → from ≢ some []
      → answer_at wire.platform 20 api from ≡ sent 200 [] (page rows next)
      → load display browser network view from ≡ some (with_rows view rows next)
  unfolding load
  load-served display view from next rows serving h answer =
      ap (loaded view) (list_analyses-served from next rows serving h answer)
      ∙ loaded-page view next rows

  module _ (display : Option Json → Text) where
    press_all-done :
        (n : ℕ) (view : Recent) (rows : List AnalysisSummary)
        → press_all display browser network n (some (with_rows view rows none))
          ≡ some (with_rows view rows none)
    unfolding press_more
    press_all-done zero view rows = refl
    press_all-done (suc n) view rows = press_all-done n view rows

    map-append :
        (here behind : List AnalysisSummary)
        → map (summary_json wire.platform) (here ++ behind)
          ≡ map (summary_json wire.platform) here ++ map (summary_json wire.platform) behind
    map-append [] behind = refl
    map-append (s ∷ here) behind =
        ap (λ l. summary_json wire.platform s ∷ l) (map-append here behind)

    -- The list is opened by one request, so a press less than there are pages is enough.
    press_all-IsPaged :
        (presses : ℕ) (view : Recent) (cursor : Option Text) (rows : List AnalysisSummary)
        → IsListServing
        → cursor ≢ some []
        → IsPaged wire.platform 20 api (suc presses) cursor rows
        → press_all display browser network presses (load display browser network view cursor)
          ≡ some (with_rows view rows none)
    unfolding press_more
    press_all-IsPaged presses view cursor rows serving h (inl answer) =
        rw (load-served display view cursor none rows serving h answer)
          (press_all-done presses view rows)
    press_all-IsPaged zero view cursor rows serving h (inr followed) = cc followed.rest
    press_all-IsPaged (suc presses) view cursor rows serving h (inr followed) =
        let here = followed.here in
        let next = followed.next in
        let named : some next ≢ some [] =
          subst IsNamed followed.answer
            (answer_at-IsNamed wire.platform serving.filled 20 api cursor) in
        let analyses =
          append_assoc view.analyses (map (summary_json wire.platform) here)
            (map (summary_json wire.platform) followed.behind)
          ∙ ap (λ l. view.analyses ++ l)
              (sym (map-append here followed.behind)
                ∙ ap (map (summary_json wire.platform)) followed.whole) in
        rw (load-served display view cursor (some next) here serving h followed.answer) (
          press_all-IsPaged presses (with_rows view here (some next)) (some next) followed.behind
            serving named followed.rest
          ∙ ap
              (λ l.
                some
                  (record { analyses = l; cursor = some Json.null; error = none; loading = false }))
              analyses)

    -- In a browser and on a platform that behave as documented, where the API serves the list over
    -- joined rows from before the year 10000 whose ids are uuids and distinct, and in which of any
    -- two rows the older lies in an earlier millisecond or the newer at a whole one: a visitor who
    -- opens the list and presses the button at least as often as there are rows has every analysis
    -- in the view, each once, newest first, with no error and no button.
    pub press_all_complete :
        (lawful : Platform.IsLawful wire.platform) (presses : ℕ)
        → IsListServing
        → IsDistinct (joined wire.platform lawful api)
        → IsSeparated wire.platform lawful (joined wire.platform lawful api)
        → All (IsKeyed wire.platform lawful) (joined wire.platform lawful api)
        → length (newest_first wire.platform (joined wire.platform lawful api)) ≤ presses
        → press_all display browser network presses (load display browser network opened none)
          ≡ some (
              with_rows opened
                (map to_summary (newest_first wire.platform (joined wire.platform lawful api)))
                none)
    press_all_complete lawful presses serving distinct apart keyed enough =
        press_all-IsPaged presses opened none
          (map to_summary (newest_first wire.platform (joined wire.platform lawful api))) serving
          (λ h. cc h)
          (list_analyses-IsPaged wire.platform lawful api (suc presses) 20 distinct apart keyed
            (omega arith) (omega arith))
