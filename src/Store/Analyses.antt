-- ===== src/Store/Analyses.antt =====
-- The statements of api/src/store.ts on the table `analyses`.
pub mod Order
pub mod Cut
use battle_cloud.Common.{
  ℕ, suc, ◌+◌, ◌/◌, ◌*◌, ◌≡◌, refl, Bool, true, false, ◌&&◌, ◌||◌, Option, none, some, List, [],
  ◌∷◌, ◌++◌, map, arith, Text, text_eq, find?, filter, take, ltb, ◌==◌, if◌then◌else◌,
}
use battle_cloud.Json.{Json, Items, Fields}
use battle_cloud.Json
use battle_cloud.Platform.{Platform}
use battle_cloud.Contract.Identity.{AnalysisIdentity, Perspective, same_identity}
use battle_cloud.Store.Replays.{Rating, ReplayRow, find_replay}
use battle_cloud.Store.Jobs.{to_ms}

pub record AnalysisRow : Type 0 where
  pub id : Text
  pub identity : AnalysisIdentity
  pub document : Json
  pub total_turns : ℕ
  pub gradable_turns : ℕ
  pub created_at : ℕ

pub record StoredAnalysis : Type 0 where
  pub id : Text
  pub seed : ℕ
  pub created_at : ℕ
  pub document : Json

unfoldable pub to_analysis : AnalysisRow → StoredAnalysis
to_analysis row = record {
  id = row.id;
  seed = row.identity.seed;
  created_at = to_ms row.created_at;
  document = row.document;
}

abbrev first_analysis : Option AnalysisRow → Option StoredAnalysis
first_analysis none = none
first_analysis (some row) = some (to_analysis row)

-- `analysisByIdentity`
unfoldable pub analysis_by_identity : AnalysisIdentity → List AnalysisRow → Option StoredAnalysis
unfolding to_analysis
analysis_by_identity identity rows =
    first_analysis (find? (λ row. same_identity row.identity identity) rows)

-- `analysisById`
unfoldable pub analysis_by_id : Text → List AnalysisRow → Option StoredAnalysis
unfolding to_analysis
analysis_by_id id rows = first_analysis (find? (λ row. text_eq row.id id) rows)

pub record AnalysisSummary : Type 0 where
  pub analysis_id : Text
  pub replay_id : Text
  pub format : Text
  pub rating : Option Rating
  pub players : List Text
  pub perspective : Perspective
  pub total_turns : ℕ
  pub gradable_turns : ℕ
  pub search_budget_ms_per_turn : ℕ
  pub opponent_samples : ℕ
  pub created_at : ℕ

-- The strings of an array, in order.
strings : Items → List Text
strings Json.nil = []
strings (Json.cons (Json.str s) items) = s ∷ strings items
strings (Json.cons _ items) = strings items

-- Anything that is not a string is dropped; a value that is no array gives no players.
unfoldable pub player_names : Json → List Text
unfolding strings
player_names (Json.arr items) = strings items
player_names _ = []

abbrev pub Joined : Type 0
Joined = AnalysisRow × ReplayRow

unfoldable pub to_summary : Joined → AnalysisSummary
unfolding player_names
to_summary (a, r) = record {
  analysis_id = a.id;
  replay_id = a.identity.replay_id;
  format = r.format;
  rating = r.rating;
  players = player_names r.players;
  perspective = a.identity.perspective;
  total_turns = a.total_turns;
  gradable_turns = a.gradable_turns;
  search_budget_ms_per_turn = a.identity.search_budget_ms_per_turn;
  opponent_samples = a.identity.opponent_samples;
  created_at = to_ms a.created_at;
}

-- JOIN replays r ON r.id = a.replay_id
unfoldable pub join_replays : List AnalysisRow → List ReplayRow → List Joined
unfolding find_replay
join_replays [] replays = []
join_replays (a ∷ rows) replays =
    let rest = join_replays rows replays in
    elim (find_replay a.identity.replay_id replays) [ none ↦ rest | some r ↦ (a, r) ∷ rest ]

-- The sort key, as Postgres has it.
pub record Position : Type 0 where
  pub created_at : ℕ
  pub id : Text

abbrev pub position_of : Joined → Position
position_of (a, r) = record { created_at = a.created_at; id = a.id }

module _ (p : Platform) where
  -- (a.created_at, a.id) < (b.created_at, b.id)
  unfoldable pub position_lt : Position → Position → Bool
  position_lt a b =
      ltb a.created_at b.created_at || (a.created_at == b.created_at && p.uuid_lt a.id b.id)

  -- ORDER BY a.created_at DESC, a.id DESC
  insert_row : Joined → List Joined → List Joined
  unfolding position_lt
  insert_row x [] = x ∷ []
  insert_row x (y ∷ rows) =
      let later = y ∷ insert_row x rows in
      if position_lt (position_of y) (position_of x) then x ∷ y ∷ rows else later

  unfoldable pub newest_first : List Joined → List Joined
  unfolding insert_row
  newest_first [] = []
  newest_first (x ∷ rows) = insert_row x (newest_first rows)

  -- WHERE $2::timestamptz IS NULL OR (a.created_at, a.id) < ($2::timestamptz, $3::uuid)
  unfoldable pub is_after : Option Position → Joined → Bool
  unfolding position_lt
  is_after none x = true
  is_after (some cursor) x = position_lt (position_of x) cursor

  -- `recentAnalyses`
  unfoldable pub recent_analyses :
      ℕ → Option Position → List AnalysisRow → List ReplayRow → List AnalysisSummary
  unfolding newest_first is_after to_summary
  recent_analyses limit cursor rows replays =
      map to_summary
        (take limit (newest_first (filter (is_after cursor) (join_replays rows replays))))
