-- ===== src/Web/Recent/Listed.antt =====
-- What web/src/components/recent.tsx renders of a row of the list, and what that is for a row of the
-- API.
use battle_cloud.Common.{
  ℕ, ◌+◌, ◌-◌, ◌/◌, ◌≡◌, ◌↔◌, refl, ap, ◌∙◌, Bool, true, false, not, ◌&&◌, All, ltb, List, [], ◌∷◌,
  ◌++◌, map, Option, none, some, Text, text, text_eq, if◌then◌else◌,
}
use battle_cloud.Json
use battle_cloud.Json.{Json}
use battle_cloud.Platform.{Platform, IsDated, IsLawful}
use battle_cloud.Contract.Key.{perspective_text}
use battle_cloud.Contract.Uri.{decimal}
use battle_cloud.Store.Replays.{Rating, natural, negative}
use battle_cloud.Store.Analyses.{AnalysisSummary}
use battle_cloud.Routes.Wire.{or_null, rating_json, summary_json}
use battle_cloud.Web.App.{analysis_screen, screen, route_of, word, screen_iff}
use battle_cloud.Web.Profiles.{profile_label}
use battle_cloud.Web.Form.{rendered}
use battle_cloud.Web.Recent.{Recent}
use battle_cloud.Web.Analysis.{◌>>=◌, Numbers, read, is_null, child}
use battle_cloud.Web.Analysis.View.{players_heading, label_of}

pub record ListedRow : Type 0 where
  pub hash : Text
  pub route : Text
  pub heading : Text
  pub format : Text
  pub rating : Text
  pub counts : Text
  pub perspective : Text
  pub label : Text
  pub age : Text

-- What the list shows; the button, if there is one, with whether it is disabled and says so.
pub record RecentShown : Type 0 where
  pub error : Option Text
  pub is_empty : Bool
  pub rows : List ListedRow
  pub button : Option Bool

abbrev is_nil : List Json → Bool
is_nil [] = true
is_nil (json ∷ analyses) = false

abbrev is_absent : Option Text → Bool
is_absent none = true
is_absent (some message) = false

-- The list with its rows rendered
abbrev shown_with : Recent → List ListedRow → RecentShown
shown_with view rows = record {
  error = view.error;
  is_empty = is_nil view.analyses && (not view.loading && is_absent view.error);
  rows = rows;
  button = if is_null view.cursor then none else some view.loading;
}

-- A middle dot between spaces
abbrev pub dot : Text
dot = 0x20 ∷ 0xB7 ∷ 0x20 ∷ []

-- `when` of a moment in milliseconds, by the milliseconds since then; none in the future.
unfoldable pub age : ℕ → Text
age ms =
    if ltb ms 90000
    then text "just now"
    else (if ltb ms 3600000
        then decimal ((ms + 30000) / 60000) ++ text "m ago"
        else (if ltb ms 86400000
            then decimal ((ms + 1800000) / 3600000) ++ text "h ago"
            else decimal ((ms + 43200000) / 86400000) ++ text "d ago"))

-- A moment that `Date.parse` does not read is no number.
abbrev pub age_since : ℕ → Option ℕ → Text
age_since now none = text "NaNd ago"
age_since now (some at) = age (now - at)

module _ (numbers : Numbers) where
  -- `a.rating !== null && ...`
  rating_text : Option Json → Text
  rating_text rating = if is_null rating then [] else dot ++ rendered numbers.template rating

  -- Here the length of the players is read whatever they are.
  row_heading : Option Json → Option Json → Option Text
  row_heading none replay_id = none
  row_heading (some players) replay_id = players_heading numbers (some players) replay_id

module _ (p : Platform) (numbers : Numbers) where
  -- `when`; the time is read as a string.
  unfoldable pub when : ℕ → Option Json → Text
  unfolding age
  when now created_at = age_since now (p.date_parse (rendered numbers.template created_at))

  -- One of `analyses.map(...)`
  unfoldable pub list_row : ℕ → Json → Option ListedRow
  unfolding when rating_text row_heading
  list_row now json = do
    id ← read (text "analysisId") (some json)
    replay_id ← read (text "replayId") (some json)
    heading ← read (text "players") (some json) >>= λ players. row_heading numbers players replay_id
    format ← read (text "format") (some json) >>= child numbers
    rating ← read (text "rating") (some json)
    total ← read (text "totalTurns") (some json) >>= child numbers
    gradable ← read (text "gradableTurns") (some json) >>= child numbers
    perspective ← read (text "perspective") (some json) >>= child numbers
    budget ← read (text "searchBudgetMsPerTurn") (some json)
    samples ← read (text "opponentSamples") (some json)
    created_at ← read (text "createdAt") (some json)
    some (record {
      hash = text "#/a/" ++ rendered numbers.template id;
      route = text "/a/" ++ rendered numbers.template id;
      heading = heading;
      format = format;
      rating = rating_text numbers rating;
      counts = total ++ (text " turns, " ++ (gradable ++ text " gradable"));
      perspective = perspective;
      label = label_of budget samples;
      age = when now created_at;
    })

  list_rows : ℕ → List Json → Option (List ListedRow)
  unfolding list_row
  list_rows now [] = some []
  list_rows now (json ∷ analyses) = do
    row ← list_row now json
    rows ← list_rows now analyses
    some (row ∷ rows)

  -- The return of `RecentAnalyses`
  unfoldable pub render : ℕ → Recent → Option RecentShown
  unfolding list_rows
  render now view = do rows ← list_rows now view.analyses; some (shown_with view rows)

-- What a visitor should see of a row of the API.
abbrev pub heading_for : List Text → Text → Text
heading_for (a ∷ b ∷ []) replay_id = a ++ (text " vs " ++ b)
heading_for _ replay_id = replay_id

module _ (numbers : Numbers) where
  abbrev pub rating_for : Option Rating → Text
  rating_for none = []
  rating_for (some rating) = dot ++ numbers.template (some (rating_json rating))

  abbrev pub number : ℕ → Text
  number n = numbers.display (Json.num n)

  abbrev pub listed_for : ℕ → AnalysisSummary → ListedRow
  listed_for now s = record {
    hash = text "#/a/" ++ s.analysis_id;
    route = text "/a/" ++ s.analysis_id;
    heading = heading_for s.players s.replay_id;
    format = s.format;
    rating = rating_for s.rating;
    counts =
        number s.total_turns ++ (text " turns, " ++ (number s.gradable_turns ++ text " gradable"));
    perspective = perspective_text s.perspective;
    label = profile_label s.search_budget_ms_per_turn s.opponent_samples;
    age = age (now - s.created_at);
  }

module _ (numbers : Numbers) where
  row_heading-map :
      (players : List Text) (replay_id : Text)
      → row_heading numbers
          (some (Json.arr (Json.array (map Json.str players))))
          (some (Json.str replay_id))
        ≡ some (heading_for players replay_id)
  unfolding row_heading players_heading
  row_heading-map [] replay_id = refl
  row_heading-map (a ∷ []) replay_id = refl
  row_heading-map (a ∷ b ∷ []) replay_id = refl
  row_heading-map (a ∷ b ∷ c ∷ players) replay_id = refl

  rating_text-or_null :
      (rating : Option Rating)
      → rating_text numbers (some (or_null rating_json rating)) ≡ rating_for numbers rating
  unfolding rating_text
  rating_text-or_null none = refl
  rating_text-or_null (some (natural n)) = refl
  rating_text-or_null (some (negative t)) = refl

-- An id that the routes of the app take: letters, digits, underscores and dashes, at least one.
abbrev pub IsLinkable : AnalysisSummary → Type 0
IsLinkable s = word s.analysis_id ≡ some s.analysis_id

-- Each way of the link of a row leads to the analysis exactly when its id is one that the routes take.
abbrev pub IsLinked : AnalysisSummary → ListedRow → Type 0
IsLinked s row =
    (screen (route_of row.hash) ≡ analysis_screen s.analysis_id ↔ IsLinkable s)
    × (screen row.route ≡ analysis_screen s.analysis_id ↔ IsLinkable s)

module _ (p : Platform) (numbers : Numbers) where
  when-iso :
      (now at : ℕ)
      → IsLawful p
      → IsDated at
      → when p numbers now (some (Json.str (p.to_iso_string at))) ≡ age (now - at)
  unfolding when
  when-iso now at lawful dated = ap (age_since now) (lawful.parse_iso at dated)

  list_row-summary_json :
      (now : ℕ) (s : AnalysisSummary)
      → IsLawful p
      → IsDated s.created_at
      → list_row p numbers now (summary_json p s) ≡ some (listed_for numbers now s)
  unfolding list_row summary_json Json.get text text_eq
  list_row-summary_json now s lawful dated =
      rw
        (
          row_heading-map numbers s.players s.replay_id,
          rating_text-or_null numbers s.rating,
          when-iso now s.created_at lawful dated,
        )
        refl

  list_rows-summary_json :
      (now : ℕ) (summaries : List AnalysisSummary)
      → IsLawful p
      → All (λ s. IsDated s.created_at) summaries
      → list_rows p numbers now (map (summary_json p) summaries)
        ≡ some (map (listed_for numbers now) summaries)
  unfolding list_rows
  list_rows-summary_json now [] lawful dated = refl
  list_rows-summary_json now (s ∷ summaries) lawful (dated, later) =
      rw
        (
          list_row-summary_json now s lawful dated,
          list_rows-summary_json now summaries lawful later,
        )
        refl

  listed_for-IsLinked :
      (now : ℕ) (summaries : List AnalysisSummary)
      → All (λ s. IsLinked s (listed_for numbers now s)) summaries
  unfolding route_of text
  listed_for-IsLinked now [] = tt
  listed_for-IsLinked now (s ∷ summaries) =
      let screens = (screen_iff (text "/a/" ++ s.analysis_id) s.analysis_id).0 in
      let there : screen (text "/a/" ++ s.analysis_id) ≡ analysis_screen s.analysis_id
          ↔ IsLinkable s =
        ((λ h. (screens.0 h).1), (λ h. screens.1 (refl, h))) in
      ((there, there), listed_for-IsLinked now summaries)

  -- On a platform that behaves as documented, a list of rows from before the year 10000 that the API sent is rendered without a
  -- throw, one row for each in order, with its two players or else its replay, its rating if it
  -- has one, its turns, side, profile and age. The link and the route of a row each lead the visitor to its
  -- analysis exactly when its id consists of letters, digits, underscores and dashes, at least one.
  pub render-summary_json :
      (now : ℕ) (view : Recent) (summaries : List AnalysisSummary)
      → IsLawful p
      → view.analyses ≡ map (summary_json p) summaries
      → All (λ s. IsDated s.created_at) summaries
      → (shown : RecentShown) × (render p numbers now view ≡ some shown)
        × (shown.rows ≡ map (listed_for numbers now) summaries)
        × All (λ s. IsLinked s (listed_for numbers now s)) summaries
  unfolding render
  render-summary_json now view summaries lawful same dated = (
    shown_with view (map (listed_for numbers now) summaries),
    ap (λ analyses. list_rows p numbers now analyses >>= λ rows. some (shown_with view rows)) same
        ∙ rw (list_rows-summary_json now summaries lawful dated) refl,
    refl,
    listed_for-IsLinked now summaries,
  )
