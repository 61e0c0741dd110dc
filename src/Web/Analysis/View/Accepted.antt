-- ===== src/Web/Analysis/View/Accepted.antt =====
-- The analysis view over documents that the schema accepts.
use battle_cloud.Common.{
  ◌≡◌, refl, ◌∙◌, Bool, true, false, ◌&&◌, Option, none, some, Text, text, arith,
}
use battle_cloud.Json
use battle_cloud.Json.{Json, Items, Fields}
use battle_cloud.Contract.Checks.{int, finite, string, nullable, optional, every, array}
use battle_cloud.Contract.Documents.{ranked_action_schema, turn_evaluation_schema}
use battle_cloud.Web.Analysis.{
  dash, ◌>>=◌, Numbers, child, child_or, fixed, played_pill, cost_pill, gradable_pill, cost_cell,
  gradable_cell, action_row, action_rows, ranked_rows, turn_detail, turn_row, turn_rows,
}

abbrev pub is_shown {ℓ} : {A : Type ℓ} → Option A → Bool
is_shown none = false
is_shown (some a) = true

module _ {A B C : Type 0} where
  pub is_shown-both :
      (v : Option A) (w : Option B) (f : A → B → C)
      → is_shown (v >>= λ a. w >>= λ b. some (f a b)) ≡ (is_shown v && is_shown w)
  is_shown-both none w f = refl
  is_shown-both (some a) none f = refl
  is_shown-both (some a) (some b) f = refl

module _ {A B : Type 0} where
  pub is_shown-bind :
      (v : Option A) (f : A → Option B) (b : Bool)
      → is_shown v ≡ true
      → ((a : A) → is_shown (f a) ≡ b)
      → is_shown (v >>= f) ≡ b
  is_shown-bind none f b h k = cc h
  is_shown-bind (some a) f b h k = k a

  pub is_shown-bind_all :
      (v : Option A) (f : A → Option B) (b : Bool)
      → is_shown v ≡ b
      → ((a : A) → is_shown (f a) ≡ true)
      → is_shown (v >>= f) ≡ b
  is_shown-bind_all none f b h k = h
  is_shown-bind_all (some a) f b h k = k a ∙ h

-- The key is there, be its value null.
abbrev pub has_cost : Json → Bool
has_cost (Json.obj fields) = is_shown (Json.get (text "costOfPlayed") fields)
has_cost _ = false

-- Every turn has the key.
abbrev pub all_costs : Items → Bool
all_costs Json.nil = true
all_costs (Json.cons turn items) = has_cost turn && all_costs items

pub both : (a b : Bool) → (a && b) ≡ true → (a ≡ true) × (b ≡ true)
both true b h = (refl, h)
both false b h = cc h

-- What the schema asks of the members of a turn that are shown.
pub record IsTurn (fields : Fields) : Type 0 where
  pub turn : int (Json.get (text "turn") fields) ≡ true
  pub reason : optional (nullable string) (Json.get (text "ungradableReason") fields) ≡ true
  pub samples : int (Json.get (text "samplesUsed") fields) ≡ true
  pub played : optional (nullable string) (Json.get (text "playedAction") fields) ≡ true
  pub cost : optional (nullable finite) (Json.get (text "costOfPlayed") fields) ≡ true
  pub actions : array ranked_action_schema (Json.get (text "topActions") fields) ≡ true

pub schema-IsTurn :
    (fields : Fields) → turn_evaluation_schema (some (Json.obj fields)) ≡ true → IsTurn fields
unfolding turn_evaluation_schema
schema-IsTurn fields h =
    let (turn, h1) = both _ _ h in
    let (probability, h2) = both _ _ h1 in
    let (gradable, h3) = both _ _ h2 in
    let (reason, h4) = both _ _ h3 in
    let (samples, h5) = both _ _ h4 in
    let (played, h6) = both _ _ h5 in
    let (value, h7) = both _ _ h6 in
    let (cost, h8) = both _ _ h7 in
    record {
      turn = turn;
      reason = reason;
      samples = samples;
      played = played;
      cost = cost;
      actions = (both _ _ h8).0;
    }

module _ (numbers : Numbers) where
  pub int-is_shown : (v : Option Json) → int v ≡ true → is_shown (child numbers v) ≡ true
  int-is_shown v h = ground arith

  pub string-is_shown : (v : Option Json) → string v ≡ true → is_shown (child numbers v) ≡ true
  string-is_shown v h = ground arith

  is_shown-child_or :
      (fallback : Text) (v : Option Json)
      → optional (nullable string) v ≡ true
      → is_shown (child_or numbers fallback v) ≡ true
  is_shown-child_or fallback v h = ground arith

  is_shown-played_pill :
      (v : Option Json)
      → optional (nullable string) v ≡ true
      → is_shown (played_pill numbers v) ≡ true
  is_shown-played_pill v h = ground arith

  is_shown-cost_pill :
      (v : Option Json)
      → optional (nullable finite) v ≡ true
      → is_shown (cost_pill numbers v) ≡ is_shown v
  unfolding fixed
  is_shown-cost_pill v h = ground arith

  is_shown-cost_cell :
      (v : Option Json)
      → optional (nullable finite) v ≡ true
      → is_shown (cost_cell numbers v) ≡ is_shown v
  unfolding fixed
  is_shown-cost_cell v h = ground arith

  is_shown-gradable_pill :
      (gradable reason : Option Json)
      → optional (nullable string) reason ≡ true
      → is_shown (gradable_pill numbers gradable reason) ≡ true
  is_shown-gradable_pill gradable reason h = ground arith

  is_shown-gradable_cell :
      (gradable reason : Option Json)
      → optional (nullable string) reason ≡ true
      → is_shown (gradable_cell numbers gradable reason) ≡ true
  is_shown-gradable_cell gradable reason h = ground arith

  is_shown-fixed : (v : Option Json) → finite v ≡ true → is_shown (fixed numbers v) ≡ true
  unfolding fixed
  is_shown-fixed v h = ground arith

  is_shown-action_row :
      (played : Option Json) (json : Json)
      → ranked_action_schema (some json) ≡ true
      → is_shown (action_row numbers played (some json)) ≡ true
  unfolding action_row ranked_action_schema
  is_shown-action_row played (Json.obj fields) h =
      is_shown-bind (child numbers (Json.get (text "action") fields)) _ true
        (string-is_shown (Json.get (text "action") fields) (ground arith))
        (λ label.
          is_shown-bind (fixed numbers (Json.get (text "value") fields)) _ true
            (is_shown-fixed (Json.get (text "value") fields) (ground arith)) (λ shown. refl))
  is_shown-action_row played _ h = cc h

  is_shown-action_rows :
      (played : Option Json) (items : Items)
      → every ranked_action_schema items ≡ true
      → is_shown (action_rows numbers played items) ≡ true
  unfolding action_rows
  is_shown-action_rows played Json.nil h = refl
  is_shown-action_rows played (Json.cons json items) h =
      is_shown-bind (action_row numbers played (some json)) _ true
        (is_shown-action_row played json (ground arith))
        (λ row.
          is_shown-bind (action_rows numbers played items) _ true
            (is_shown-action_rows played items (ground arith)) (λ rows. refl))

  is_shown-ranked_rows :
      (played v : Option Json)
      → array ranked_action_schema v ≡ true
      → is_shown (ranked_rows numbers played v) ≡ true
  unfolding ranked_rows
  is_shown-ranked_rows played (some (Json.arr items)) h = is_shown-action_rows played items h
  is_shown-ranked_rows played _ h = cc h

  pub is_shown-turn_detail :
      (json : Json)
      → turn_evaluation_schema (some json) ≡ true
      → is_shown (turn_detail numbers (some json)) ≡ has_cost json
  unfolding turn_detail turn_evaluation_schema
  is_shown-turn_detail (Json.obj fields) h =
      let is_turn = schema-IsTurn fields h in
      let cost = Json.get (text "costOfPlayed") fields in
      let played = Json.get (text "playedAction") fields in
      let gradable = Json.get (text "gradable") fields in
      let reason = Json.get (text "ungradableReason") fields in
      is_shown-bind (child numbers (Json.get (text "turn") fields)) _ (is_shown cost)
        (int-is_shown (Json.get (text "turn") fields) is_turn.turn)
        (λ number.
          is_shown-bind (child numbers (Json.get (text "samplesUsed") fields)) _ (is_shown cost)
            (int-is_shown (Json.get (text "samplesUsed") fields) is_turn.samples)
            (λ samples.
              is_shown-bind (played_pill numbers played) _ (is_shown cost)
                (is_shown-played_pill played is_turn.played)
                (λ played_shown.
                  is_shown-bind_all (cost_pill numbers cost) _ (is_shown cost)
                    (is_shown-cost_pill cost is_turn.cost)
                    (λ cost_shown.
                      is_shown-bind (gradable_pill numbers gradable reason) _ true
                        (is_shown-gradable_pill gradable reason is_turn.reason)
                        (λ gradable_shown.
                          is_shown-bind
                            (ranked_rows numbers played (Json.get (text "topActions") fields)) _
                            true
                            (is_shown-ranked_rows played (Json.get (text "topActions") fields)
                              is_turn.actions)
                            (λ rows. refl))))))
  is_shown-turn_detail _ h = cc h

  is_shown-turn_row :
      (json : Json)
      → turn_evaluation_schema (some json) ≡ true
      → is_shown (turn_row numbers (some json)) ≡ has_cost json
  unfolding turn_row turn_evaluation_schema
  is_shown-turn_row (Json.obj fields) h =
      let is_turn = schema-IsTurn fields h in
      let cost = Json.get (text "costOfPlayed") fields in
      let played = Json.get (text "playedAction") fields in
      let gradable = Json.get (text "gradable") fields in
      let reason = Json.get (text "ungradableReason") fields in
      is_shown-bind (child numbers (Json.get (text "turn") fields)) _ (is_shown cost)
        (int-is_shown (Json.get (text "turn") fields) is_turn.turn)
        (λ number.
          is_shown-bind (child_or numbers dash played) _ (is_shown cost)
            (is_shown-child_or dash played is_turn.played)
            (λ played_shown.
              is_shown-bind_all (cost_cell numbers cost) _ (is_shown cost)
                (is_shown-cost_cell cost is_turn.cost)
                (λ cost_shown.
                  is_shown-bind (gradable_cell numbers gradable reason) _ true
                    (is_shown-gradable_cell gradable reason is_turn.reason) (λ graded. refl))))
  is_shown-turn_row _ h = cc h

  pub is_shown-turn_rows :
      (items : Items)
      → every turn_evaluation_schema items ≡ true
      → is_shown (turn_rows numbers items) ≡ all_costs items
  unfolding turn_rows
  is_shown-turn_rows Json.nil h = refl
  is_shown-turn_rows (Json.cons json items) h =
      let row : is_shown (turn_row numbers (some json)) ≡ has_cost json =
        is_shown-turn_row json (ground arith) in
      let rows : is_shown (turn_rows numbers items) ≡ all_costs items =
        is_shown-turn_rows items (ground arith) in
      is_shown-both (turn_row numbers (some json)) (turn_rows numbers items) _ ∙ rw (row, rows) refl
