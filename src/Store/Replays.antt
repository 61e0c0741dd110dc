-- ===== src/Store/Replays.antt =====
-- The statements of api/src/store.ts on the table `replays`.
use battle_cloud.Common.{
  ℕ, ◌≡◌, refl, Option, none, some, List, [], ◌∷◌, ◌++◌, arith, Text, text_eq, text_eq_iff, find?,
  if◌then◌else◌,
}
use battle_cloud.Json.{Json}

-- An integer: a natural number, or a negative one by its text.
pub data Rating : Type 0 where
  natural : ℕ → Rating
  negative : Text → Rating

pub record ReplayRow : Type 0 where
  pub id : Text
  pub format : Text
  pub rating : Option Rating
  pub players : Json
  pub log : Text
  pub payload_bytes : ℕ

unfoldable pub find_replay : Text → List ReplayRow → Option ReplayRow
find_replay id rows = find? (λ row. text_eq row.id id) rows

-- `replayLog`
unfoldable pub replay_log : Text → List ReplayRow → Option Text
unfolding find_replay
replay_log id rows = elim (find_replay id rows) [ none ↦ none | some row ↦ some row.log ]

-- `upsertReplay`: a row that is there stays as it is.
unfoldable pub upsert_replay : ReplayRow → List ReplayRow → List ReplayRow
unfolding find_replay
upsert_replay row rows = elim (find_replay row.id rows) [
  | none ↦ rows ++ row ∷ []
  | some old ↦ rows
]

find_replay-snoc :
    (id : Text) (row : ReplayRow) (rows : List ReplayRow)
    → find_replay id (rows ++ row ∷ []) ≡ elim (find_replay id rows) [
      | none ↦ if text_eq row.id id then some row else none
      | some old ↦ some old
    ]
unfolding find_replay
find_replay-snoc id row [] = refl
find_replay-snoc id row (r ∷ rows) = ground (arith, find_replay-snoc id row rows)

-- After an upsert the log of its replay is the first one that was ever stored, and the logs of
-- the other replays are what they were.
pub replay_log-upsert_replay :
    (id : Text) (row : ReplayRow) (rows : List ReplayRow)
    → replay_log id (upsert_replay row rows) ≡ elim (replay_log id rows) [
      | none ↦ if text_eq row.id id then some row.log else none
      | some old ↦ some old
    ]
unfolding replay_log upsert_replay
replay_log-upsert_replay id row rows =
    ground (arith, find_replay-snoc id row rows, text_eq_iff row.id id)
