-- ===== src/Web/Analysis/View/Costs.antt =====
-- The parts of the page that the analysis view shows.
use battle_cloud.Common.{
  ◌≡◌, refl, Bool, true, false, not, ◌&&◌, ◌||◌, Option, none, some, text, arith, Bool-cases, inl,
  inr, if◌then◌else◌,
}
use battle_cloud.Json
use battle_cloud.Json.{Json, Items, Fields}
use battle_cloud.Contract.Checks.{finite, string, enum, nullable, optional, every, array}
use battle_cloud.Contract.Documents.{
  turn_evaluation_schema, engine_configuration_schema, perspectives,
}
use battle_cloud.Web.Analysis.{◌>>=◌, Numbers, same, is_null, child, table, turn_rows, turn_detail}
use battle_cloud.Web.Analysis.View.{
  charted_items, find_turn, selected_turn, engine_shown, rating_pill, players_heading, table_if,
  detail_of,
}
use battle_cloud.Web.Analysis.View.Accepted.{
  is_shown, is_shown-bind, is_shown-bind_all, both, int-is_shown, string-is_shown, has_cost,
  all_costs, is_shown-turn_rows, is_shown-turn_detail,
}

abbrev pub turn_of : Json → Option Json
turn_of (Json.obj fields) = Json.get (text "turn") fields
turn_of _ = none

-- The turn that is selected, if there is one, has its cost.
abbrev pub chosen_cost : Option Json → Items → Bool
chosen_cost selected Json.nil = true
chosen_cost selected (Json.cons turn items) =
    if same (turn_of turn) selected then has_cost turn else chosen_cost selected items

pub is_shown-charted_items :
    (items : Items)
    → every turn_evaluation_schema items ≡ true
    → is_shown (charted_items items) ≡ true
unfolding charted_items turn_evaluation_schema
is_shown-charted_items Json.nil h = refl
is_shown-charted_items (Json.cons (Json.obj fields) items) h =
    is_shown-bind (charted_items items) _ true (is_shown-charted_items items (both _ _ h).1)
      (λ later. refl)
is_shown-charted_items (Json.cons _ items) h = cc h

is_shown-find_turn :
    (selected : Option Json) (items : Items)
    → every turn_evaluation_schema items ≡ true
    → is_shown (find_turn selected items) ≡ true
unfolding find_turn turn_evaluation_schema
is_shown-find_turn selected Json.nil h = refl
is_shown-find_turn selected (Json.cons (Json.obj fields) items) h =
    let later = is_shown-find_turn selected items (both _ _ h).1 in
    elim (Bool-cases (same (Json.get (text "turn") fields) selected)) [
      | inl e ↦ rw e refl
      | inr e ↦ rw e later
    ]
is_shown-find_turn selected (Json.cons _ items) h = cc h

pub is_shown-selected_turn :
    (selected : Option Json) (items : Items)
    → every turn_evaluation_schema items ≡ true
    → is_shown (selected_turn selected (some (Json.arr items))) ≡ true
unfolding selected_turn
is_shown-selected_turn selected items h = elim (Bool-cases (is_null selected)) [
  | inl e ↦ rw e refl
  | inr e ↦ rw e (is_shown-find_turn selected items h)
]

-- A step that does not fail, before a later one that uses what it gave.
pub is_shown-through :
    {A B C : Type 0} (v : Option A) (f : A → Option B) (g : A → Option C) (b : Bool)
    → is_shown v ≡ true
    → ((a : A) → is_shown (f a) ≡ (b && is_shown (g a)))
    → is_shown (v >>= f) ≡ (b && is_shown (v >>= g))
is_shown-through none f g b h k = cc h
is_shown-through (some a) f g b h k = k a

module _ (numbers : Numbers) where
  found_detail :
      (selected : Option Json) (items : Items)
      → every turn_evaluation_schema items ≡ true
      → is_shown (find_turn selected items >>= detail_of numbers) ≡ chosen_cost selected items
  unfolding find_turn turn_evaluation_schema
  found_detail selected Json.nil h = refl
  found_detail selected (Json.cons (Json.obj fields) items) h =
      let (here, later) = both _ _ h in
      elim (Bool-cases (same (Json.get (text "turn") fields) selected)) [
        | inl e ↦ rw e (
            is_shown-bind_all (turn_detail numbers (some (Json.obj fields))) _
              (has_cost (Json.obj fields)) (is_shown-turn_detail numbers (Json.obj fields) here)
              (λ shown. refl))
        | inr e ↦ rw e (found_detail selected items later)
      ]
  found_detail selected (Json.cons _ items) h = cc h

  pub selected_detail :
      (selected : Option Json) (items : Items)
      → every turn_evaluation_schema items ≡ true
      → is_shown (selected_turn selected (some (Json.arr items)) >>= detail_of numbers)
        ≡ (is_null selected || chosen_cost selected items)
  unfolding selected_turn
  selected_detail selected items h = elim (Bool-cases (is_null selected)) [
    | inl e ↦ rw e refl
    | inr e ↦ rw e (found_detail selected items h)
  ]

  pub is_shown-table_if :
      (show : Bool) (items : Items)
      → every turn_evaluation_schema items ≡ true
      → is_shown (table_if numbers show (some (Json.arr items))) ≡ (not show || all_costs items)
  unfolding table
  is_shown-table_if false items h = refl
  is_shown-table_if true items h =
      is_shown-bind_all (turn_rows numbers items) _ (all_costs items)
        (is_shown-turn_rows numbers items h) (λ rows. refl)

  pub is_shown-engine_shown :
      (engine : Option Json)
      → engine_configuration_schema engine ≡ true
      → is_shown (engine_shown numbers engine) ≡ true
  unfolding engine_shown engine_configuration_schema
  is_shown-engine_shown (some (Json.obj fields)) h =
      let (budget, h1) = both _ _ h in
      let (samples, h2) = both _ _ h1 in
      let (threads, h3) = both _ _ h2 in
      let (cutoff, h4) = both _ _ h3 in
      let (tag, h5) = both _ _ h4 in
      is_shown-bind (child numbers (Json.get (text "pokeEngineTag") fields)) _ true
        (string-is_shown numbers (Json.get (text "pokeEngineTag") fields) tag)
        (λ tag_shown.
          is_shown-bind (child numbers (Json.get (text "opponentSamples") fields)) _ true
            (int-is_shown numbers (Json.get (text "opponentSamples") fields) samples)
            (λ samples_shown.
              is_shown-bind (child numbers (Json.get (text "searchBudgetMsPerTurn") fields)) _ true
                (int-is_shown numbers (Json.get (text "searchBudgetMsPerTurn") fields) budget)
                (λ budget_shown. refl)))
  is_shown-engine_shown _ h = cc h

  pub is_shown-rating_pill :
      (rating : Option Json)
      → optional (nullable finite) rating ≡ true
      → is_shown (rating_pill numbers rating) ≡ true
  unfolding rating_pill
  is_shown-rating_pill rating h = ground arith

  pub is_shown-players_heading :
      (players replay_id : Option Json)
      → optional (array string) players ≡ true
      → string replay_id ≡ true
      → is_shown (players_heading numbers players replay_id) ≡ true
  unfolding players_heading
  is_shown-players_heading none replay_id h k = string-is_shown numbers replay_id k
  is_shown-players_heading (some (Json.arr Json.nil)) replay_id h k =
      string-is_shown numbers replay_id k
  is_shown-players_heading (some (Json.arr (Json.cons a Json.nil))) replay_id h k =
      string-is_shown numbers replay_id k
  is_shown-players_heading (some (Json.arr (Json.cons a (Json.cons b Json.nil)))) replay_id h k =
      refl
  is_shown-players_heading (some (Json.arr (Json.cons a (Json.cons b (Json.cons c items)))))
        replay_id h k =
      string-is_shown numbers replay_id k
  is_shown-players_heading (some _) replay_id h k = cc h

  pub is_shown-child_perspective :
      (v : Option Json) → enum perspectives v ≡ true → is_shown (child numbers v) ≡ true
  is_shown-child_perspective v h = ground arith
