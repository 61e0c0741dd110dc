-- ===== src/Web/Analysis/View.antt =====
-- `AnalysisView` of web/src/components/analysis.tsx: its state, and the page that it renders. What the
-- charts draw of the turns is in Web/Charts.antt; here they read them.

pub mod Accepted
pub mod Costs
pub mod Whole
pub mod Hovered
use battle_cloud.Common.{
  ℕ, suc, Bool, true, false, not, ◌==◌, List, [], ◌∷◌, ◌++◌, Option, none, some, Text, text,
  if◌then◌else◌,
}
use battle_cloud.Json
use battle_cloud.Json.{Json, Items}
use battle_cloud.Web.Profiles.{profile_label}
use battle_cloud.Web.Client.{Got, got, failed}
use battle_cloud.Web.Form.{rendered}
use battle_cloud.Web.Analysis.{
  ◌>>=◌, Numbers, read, same, is_null, is_nullish, child, TurnShown, RowShown, turn_detail, table,
}

-- What the charts read of a turn.
pub record Charted : Type 0 where
  pub turn : Option Json
  pub win_probability : Option Json
  pub cost_of_played : Option Json

pub record EngineShown : Type 0 where
  pub label : Text
  pub tag : Text
  pub samples : Text
  pub budget : Text

pub record HeaderShown : Type 0 where
  pub pills : List Text
  pub footer : List Text

pub record PageShown : Type 0 where
  pub heading : Text
  pub pills : List Text
  pub replay_link : Text
  pub footer : List Text
  pub charted : List Charted
  pub rows : Option (List RowShown)
  pub detail : Option TurnShown

pub data Page : Type 0 where
  failure : Text → Page
  loading : Page
  page : PageShown → Page

-- The state of the view, and the `live` of its effect. Nothing selected is null.
pub record View : Type 0 where
  pub envelope : Json
  pub error : Option Text
  pub selected : Option Json
  pub show_table : Bool
  pub live : Bool

abbrev pub mounted : View
mounted = record {
  envelope = Json.null;
  error = none;
  selected = some Json.null;
  show_table = false;
  live = true;
}

-- The reply of `getAnalysis`, the cleanup of the effect, a click on a turn, and the button.
pub data Event : Type 0 where
  replied : Got Json → Event
  unmounted : Event
  clicked : Option Json → Event
  toggled : Event

abbrev pub no_analysis : Text
no_analysis = text "No analysis with that id."

unfoldable pub step : View → Event → View
step view (replied (got envelope)) = if view.live then record view { envelope = envelope } else view
step view (replied (failed cause)) =
    if view.live then record view { error = some no_analysis } else view
step view unmounted = record view { live = false }
step view (clicked turn) = record view { selected = turn }
step view toggled = record view { show_table = not view.show_table }

unfoldable pub run : View → List Event → View
unfolding step
run view [] = view
run view (event ∷ events) = run (step view event) events

unfoldable pub charted_items : Items → Option (List Charted)
charted_items Json.nil = some []
charted_items (Json.cons turn items) = do
  number ← read (text "turn") (some turn)
  probability ← read (text "winProbability") (some turn)
  cost ← read (text "costOfPlayed") (some turn)
  later ← charted_items items
  some (record { turn = number; win_probability = probability; cost_of_played = cost } ∷ later)

-- `EvalCurve` and `CostBars` go through the turns with `for` and `map`.
unfoldable pub charted : Option Json → Option (List Charted)
unfolding charted_items
charted (some (Json.arr items)) = charted_items items
charted _ = none

-- `doc.turns.find((t) => t.turn === selected)`
unfoldable pub find_turn : Option Json → Items → Option (Option Json)
find_turn selected Json.nil = some none
find_turn selected (Json.cons turn items) =
    let later = find_turn selected items in
    read (text "turn") (some turn) >>= λ number.
    if same number selected then some (some turn) else later

abbrev find_in : Option Json → Option Json → Option (Option Json)
find_in selected (some (Json.arr items)) = find_turn selected items
find_in selected _ = none

-- `selectedTurn`
unfoldable pub selected_turn : Option Json → Option Json → Option (Option Json)
unfolding find_turn
selected_turn selected turns =
    let found = find_in selected turns in if is_null selected then some none else found

-- `profileLabel` compares with `===`.
abbrev pub label_of : Option Json → Option Json → Text
label_of (some (Json.num budget)) (some (Json.num samples)) = profile_label budget samples
label_of _ _ = text "custom"

module _ (numbers : Numbers) where
  versus : Option Json → Option Json → Text
  versus a b = rendered numbers.template a ++ (text " vs " ++ rendered numbers.template b)

  -- Two players by index: of an array, of a string, or of an object that has the keys.
  unfoldable pub players_heading : Option Json → Option Json → Option Text
  unfolding versus
  players_heading none replay_id = child numbers replay_id
  players_heading (some Json.null) replay_id = none
  players_heading (some (Json.arr (Json.cons a (Json.cons b Json.nil)))) replay_id =
      some (versus (some a) (some b))
  players_heading (some (Json.str (a ∷ b ∷ []))) replay_id =
      some (versus (some (Json.str (a ∷ []))) (some (Json.str (b ∷ []))))
  players_heading (some (Json.obj fields)) replay_id =
      if same (Json.get (text "length") fields) (some (Json.num 2))
      then some (versus (Json.get (text "0") fields) (Json.get (text "1") fields))
      else child numbers replay_id
  players_heading (some _) replay_id = child numbers replay_id

  unfoldable pub rating_pill : Option Json → Option (List Text)
  rating_pill rating =
      let shown = child numbers rating in
      if is_nullish rating then some [] else shown >>= λ s. some ((text "rating " ++ s) ∷ [])

  abbrev pub table_if : Bool → Option Json → Option (Option (List RowShown))
  table_if false turns = some none
  table_if true turns = table numbers turns >>= λ rows. some (some rows)

  abbrev pub detail_of : Option Json → Option (Option TurnShown)
  detail_of none = some none
  detail_of (some turn) = turn_detail numbers (some turn) >>= λ shown. some (some shown)

  -- The members of `doc.engine` in the pills and in the footer
  unfoldable pub engine_shown : Option Json → Option EngineShown
  engine_shown engine = do
    budget ← read (text "searchBudgetMsPerTurn") engine
    samples ← read (text "opponentSamples") engine
    tag ← read (text "pokeEngineTag") engine >>= child numbers
    samples_shown ← child numbers samples
    budget_shown ← child numbers budget
    some (record {
      label = label_of budget samples;
      tag = tag;
      samples = samples_shown;
      budget = budget_shown;
    })

  -- The pills under the heading, and the engine's numbers in the footer
  unfoldable pub header_shown : Option Json → Option HeaderShown
  unfolding rating_pill engine_shown
  header_shown doc = do
    format ← read (text "format") doc >>= child numbers
    rating ← read (text "rating") doc >>= rating_pill
    perspective ← read (text "perspective") doc >>= child numbers
    engine ← read (text "engine") doc >>= engine_shown
    total ← read (text "totalTurns") doc >>= child numbers
    gradable ← read (text "gradableTurns") doc >>= child numbers
    some (record {
      pills =
          format
          ∷ (rating
              ++ (text "seen from " ++ perspective)
                ∷ engine.label
                ∷ (total ++ (text " turns, " ++ (gradable ++ text " gradable")))
                ∷ (text "poke-engine " ++ engine.tag)
                ∷ []);
      footer = engine.samples ∷ engine.budget ∷ [];
    })

  -- What is returned for a document with its turns
  unfoldable pub document_page : View → Option Json → Option Json → Option PageShown
  unfolding players_heading header_shown
  document_page view doc turns = do
    chosen ← selected_turn view.selected turns
    replay_id ← read (text "replayId") doc
    heading ← read (text "players") doc >>= λ players. players_heading players replay_id
    header ← header_shown doc
    created_at ← read (text "createdAt") (some view.envelope)
    seen ← charted turns
    rows ← table_if view.show_table turns
    detail ← detail_of chosen
    some (record {
      heading = heading;
      pills = header.pills;
      replay_link =
          text "https://replay.pokemonshowdown.com/" ++ rendered numbers.template replay_id;
      footer = numbers.locale_string created_at ∷ header.footer;
      charted = seen;
      rows = rows;
      detail = detail;
    })

  -- `const doc = envelope.document`
  unfoldable pub page_of : View → Option PageShown
  unfolding document_page
  page_of view = do
    doc ← read (text "document") (some view.envelope)
    turns ← read (text "turns") doc
    document_page view doc turns

  abbrev pub page_or : Option Text → View → Option Page
  page_or (some message) view = some (failure message)
  page_or none view =
      let shown = page_of view in
      if is_null (some view.envelope) then some loading else shown >>= λ p. some (page p)

  -- `AnalysisView`
  unfoldable pub render : View → Option Page
  unfolding page_of
  render view = page_or view.error view
