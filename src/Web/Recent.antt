-- ===== src/Web/Recent.antt =====
-- The list of web/src/components/recent.tsx: what it has loaded, and its button.
pub mod Complete
pub mod Listed
use battle_cloud.Common.{
  ℕ, zero, suc, Bool, true, false, List, [], ◌∷◌, ◌++◌, Option, none, some, Text, text,
}
use battle_cloud.Json
use battle_cloud.Json.{Json, Items}
use battle_cloud.Web.Client.{
  HttpRequest, Fetched, Browser, Got, got, failed, property, list_analyses,
}
use battle_cloud.Web.Form.{rendered}

-- The state of the view between two loads; a cursor that is `undefined` is `none`.
pub record Recent : Type 0 where
  pub analyses : List Json
  pub cursor : Option Json
  pub error : Option Text
  pub loading : Bool

abbrev pub opened : Recent
opened = record { analyses = []; cursor = some Json.null; error = none; loading = true }

abbrev pub items_of : Items → List Json
items_of Json.nil = []
items_of (Json.cons json items) = json ∷ items_of items

-- Only an array is taken; at anything else that spreads not, the view breaks, which is `none`.
abbrev pub spread : Option Json → Option (List Json)
spread (some (Json.arr items)) = some (items_of items)
spread _ = none

abbrev pub not_loaded : Text
not_loaded = text "Could not load recent analyses."

abbrev refused : Recent → Option Recent
refused view = some (record view { error = some not_loaded; loading = false })

abbrev with_page : Recent → Option Json → Option (List Json) → Option Recent
with_page view cursor none = none
with_page view cursor (some items) =
    some
      (record { analyses = view.analyses ++ items; cursor = cursor; error = none; loading = false })

abbrev pub loaded : Recent → Got Json → Option Recent
loaded view (failed cause) = refused view
loaded view (got Json.null) = refused view
loaded view (got json) =
    with_page view (property (text "nextCursor") json) (spread (property (text "analyses") json))

module _ (display : Option Json → Text) (browser : Browser) (fetch : HttpRequest → Fetched) where
  -- `load`
  unfoldable pub load : Recent → Option Text → Option Recent
  unfolding list_analyses
  load view from = loaded view (list_analyses browser fetch (some 20) from)

  abbrev pub pressed_at : Recent → Option Json → Option Recent
  pressed_at view none = load view none
  pressed_at view (some Json.null) = some view
  pressed_at view (some json) = load view (some (rendered display (some json)))

  -- The button, which is there when the cursor is not null.
  unfoldable pub press_more : Recent → Option Recent
  unfolding load
  press_more view = pressed_at view view.cursor

  abbrev pub press_all : ℕ → Option Recent → Option Recent
  press_all zero view = view
  press_all (suc n) none = none
  press_all (suc n) (some view) = press_all n (press_more view)
