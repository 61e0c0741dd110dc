-- ===== src/Tests/Paging.antt =====
-- The public list and its cursor.
use battle_cloud.Common.{
  ℕ, ◌≡◌, refl, inl, true, none, some, List, [], ◌∷◌, text_eq, arith, Text, map, All, length, ◌<◌,
  ◌++◌, filter, take, ltb,
}
use battle_cloud.Json
use battle_cloud.Contract.Identity.{p1, AnalysisIdentity}
use battle_cloud.Store.Replays.{ReplayRow}
use battle_cloud.Store.Cursor.{encode_cursor, is_uuid_text}
use battle_cloud.Store.Analyses.{
  AnalysisRow, Joined, join_replays, newest_first, to_summary, position_lt,
}
use battle_cloud.Store.Analyses.Order.{IsDistinct}
use battle_cloud.Store.Analyses.Cut.{IsSeparated}
use battle_cloud.Contract.Schemas.{success}
use battle_cloud.Routes.{sent, page, Api}
use battle_cloud.Routes.Listing.{next_cursor, last, list_analyses, walk}
use battle_cloud.Routes.Listing.Walk.Lost.{is_shown_behind, list_analyses-next_cursor}
use battle_cloud.Routes.Listing.Walk.Pages.{joined, IsKeyed, walk_complete}
use battle_cloud.Tests.Inputs.{plain, plain-IsLawful, empty_api}

-- A uuid that ends in a digit.
abbrev uuid : ℕ → Text
uuid d =
    b'1' ∷ b'1' ∷ b'1' ∷ b'1' ∷ b'1' ∷ b'1' ∷ b'1' ∷ b'1' ∷ b'-' ∷ b'1' ∷ b'1' ∷ b'1' ∷ b'1' ∷ b'-'
    ∷ b'1' ∷ b'1' ∷ b'1' ∷ b'1' ∷ b'-' ∷ b'1' ∷ b'1' ∷ b'1' ∷ b'1' ∷ b'-' ∷ b'1' ∷ b'1' ∷ b'1'
    ∷ b'1' ∷ b'1' ∷ b'1' ∷ b'1' ∷ b'1' ∷ b'1' ∷ b'1' ∷ b'1' ∷ d ∷ []

abbrev identity : AnalysisIdentity
identity = record {
  replay_id = b'a' ∷ [];
  perspective = p1;
  search_budget_ms_per_turn = 200;
  opponent_samples = 2;
  threads = 4;
  usage_stats_cutoff = 1500;
  usage_stats_dataset = [];
  poke_engine_tag = [];
  seed = 0;
}

abbrev row : ℕ → ℕ → AnalysisRow
row d at = record {
  id = uuid d;
  identity = identity;
  document = Json.null;
  total_turns = 3;
  gradable_turns = 2;
  created_at = at;
}

abbrev replay : ReplayRow
replay = record {
  id = b'a' ∷ [];
  format = [];
  rating = none;
  players = Json.null;
  log = [];
  payload_bytes = 0;
}

abbrev pub stocked : Api
stocked = record empty_api { analyses = row b'1' 2500 ∷ row b'2' 4100 ∷ []; replays = replay ∷ [] }

uuid_shape : is_uuid_text (uuid b'1') ≡ true
unfolding is_uuid_text
uuid_shape = refl

-- Three analyses of one millisecond, two of them at one moment.
abbrev tied : Api
tied = record empty_api {
  analyses = row b'1' 2500 ∷ row b'2' 2900 ∷ row b'3' 2900 ∷ [];
  replays = replay ∷ [];
}

-- What the cursor of the newest selects of them.
abbrev tied_behind : List Joined
tied_behind =
    newest_first plain
      (filter (is_shown_behind plain (row b'3' 2900, replay)) (joined plain plain-IsLawful tied))

abbrev raw_cursor : ℕ → Text
raw_cursor d = plain.to_base64url (plain.to_iso_string 2 ++ b'|' ∷ uuid d)

tied-IsKeyed : IsKeyed plain plain-IsLawful (row b'3' 2900, replay)
unfolding is_uuid_text
tied-IsKeyed = (omega arith, refl, refl)

tied_cursor :
    next_cursor plain true (some (to_summary (row b'3' 2900, replay))) ≡ some (raw_cursor b'3')
unfolding next_cursor to_summary encode_cursor
tied_cursor = refl

-- The page behind the newest, which leaves out the two others.
list_analyses-next_cursor_example :
    list_analyses plain (success (record { limit = 2; cursor = some (raw_cursor b'3') })) tied
    ≡ sent 200 [] (
        page (map to_summary (take 2 tied_behind)) (
          next_cursor plain
            (ltb 2 (length tied_behind))
            (last (map to_summary (take 2 tied_behind)))))
list_analyses-next_cursor_example =
    list_analyses-next_cursor plain plain-IsLawful tied (row b'3' 2900, replay) 2 (raw_cursor b'3')
      tied-IsKeyed tied_cursor

tied_lost : tied_behind ≡ []
unfolding newest_first join_replays text_eq
tied_lost = refl

abbrev pub rows : List Joined
rows = (row b'1' 2500, replay) ∷ (row b'2' 4100, replay) ∷ []

rows_joined : joined plain plain-IsLawful stocked ≡ rows
unfolding join_replays text_eq
rows_joined = refl

pub rows-IsDistinct : IsDistinct rows
rows-IsDistinct = (((λ h. ground arith), tt), (tt, tt))

pub rows-IsSeparated : IsSeparated plain plain-IsLawful rows
unfolding position_lt
rows-IsSeparated = (
  ((λ h. ground arith), ((λ h. ground arith), tt)),
  (((λ h. inl (omega arith)), ((λ h. ground arith), tt)), tt),
)

pub rows-IsKeyed : All (IsKeyed plain plain-IsLawful) rows
unfolding is_uuid_text
rows-IsKeyed = ((omega arith, refl, refl), ((omega arith, refl, refl), tt))

pub two_rows : length (newest_first plain rows) < 3
unfolding newest_first
two_rows = omega arith

walk_complete_example :
    walk plain 3 1 none stocked
    ≡ map to_summary (newest_first plain (joined plain plain-IsLawful stocked))
unfolding join_replays text_eq
walk_complete_example =
    walk_complete plain plain-IsLawful stocked 3 1 rows-IsDistinct rows-IsSeparated rows-IsKeyed
      (omega arith) two_rows
