-- ===== src/Web/Analysis.antt =====
-- web/src/components/analysis.tsx: what is shown of a document, which the client does not check. A
-- rendering is `none` when it throws, which takes the view away.

pub mod View
use battle_cloud.Common.{
  ℕ, Bool, true, false, not, ◌==◌, List, [], ◌∷◌, ◌++◌, Option, none, some, Text, text, text_eq,
  if◌then◌else◌,
}
use battle_cloud.Json
use battle_cloud.Json.{Json, Items}

infixl 5 ◌>>=◌
abbrev pub ◌>>=◌ : {A B : Type 0} → Option A → (A → Option B) → Option B
none >>= f = none
some a >>= f = f a

-- What JavaScript makes of a number as text and as `toFixed(4)`, and of any value as
-- `(value * 100).toFixed(1)`, in a template, and as `new Date(value).toLocaleString()`.
pub record Numbers : Type 0 where
  pub display : Json → Text
  pub to_fixed : Json → Text
  pub hundredfold : Option Json → Text
  pub template : Option Json → Text
  pub locale_string : Option Json → Text
  pub other_seconds : Option Json → Text

-- `value.key`: undefined and null have no member, which throws; an object has its own keys.
abbrev pub read : Text → Option Json → Option (Option Json)
read key none = none
read key (some Json.null) = none
read key (some (Json.bool b)) = some none
read key (some (Json.num n)) = some none
read key (some (Json.other_num k t)) = some none
read key (some (Json.str s)) = some none
read key (some (Json.arr items)) = some none
read key (some (Json.obj fields)) = some (Json.get key fields)

-- `a === b`; two values that `JSON.parse` made of two places are never the same array or object.
abbrev pub same : Option Json → Option Json → Bool
same none none = true
same (some Json.null) (some Json.null) = true
same (some (Json.bool true)) (some (Json.bool true)) = true
same (some (Json.bool false)) (some (Json.bool false)) = true
same (some (Json.num m)) (some (Json.num n)) = m == n
same (some (Json.other_num k s)) (some (Json.other_num l t)) = text_eq s t
same (some (Json.str s)) (some (Json.str t)) = text_eq s t
same _ _ = false

abbrev pub is_null : Option Json → Bool
is_null (some Json.null) = true
is_null _ = false

abbrev pub is_nullish : Option Json → Bool
is_nullish none = true
is_nullish (some Json.null) = true
is_nullish _ = false

abbrev filled : List ℕ → Bool
filled [] = false
filled (c ∷ s) = true

abbrev pub is_truthy : Option Json → Bool
is_truthy none = false
is_truthy (some Json.null) = false
is_truthy (some (Json.bool b)) = b
is_truthy (some (Json.num n)) = not (n == 0)
is_truthy (some (Json.str s)) = filled s
is_truthy (some json) = true

abbrev pub dash : Text
dash = 0x2014 ∷ []

-- A row of the ranked actions.
pub record ActionShown : Type 0 where
  pub action : Text
  pub is_played : Bool
  pub value : Text
  pub visit_share : Text

pub record TurnShown : Type 0 where
  pub heading : Text
  pub pills : List Text
  pub actions : List ActionShown

-- A row of the table of turns.
pub record RowShown : Type 0 where
  pub turn : Text
  pub win_probability : Text
  pub played : Text
  pub cost : Text
  pub gradable : Text

module _ (numbers : Numbers) where
  -- A value as the child of an element: undefined, null and a Boolean show nothing, an array shows
  -- its elements, and an object throws.
  abbrev mutual
    child_of : Json → Option Text
    child_of Json.null = some []
    child_of (Json.bool b) = some []
    child_of (Json.num n) = some (numbers.display (Json.num n))
    child_of (Json.other_num k t) = some (numbers.display (Json.other_num k t))
    child_of (Json.str s) = some s
    child_of (Json.arr items) = children items
    child_of (Json.obj fields) = none

    children : Items → Option Text
    children Json.nil = some []
    children (Json.cons json items) = do s ← child_of json; t ← children items; some (s ++ t)

  abbrev pub child : Option Json → Option Text
  child none = some []
  child (some json) = child_of json

  -- `value ?? fallback` as a child
  abbrev pub child_or : Text → Option Json → Option Text
  child_or fallback value = if is_nullish value then some fallback else child value

  -- `percent`
  unfoldable pub percent : Option Json → Text
  percent none = dash
  percent (some Json.null) = dash
  percent value = numbers.hundredfold value ++ text "%"

  -- `value.toFixed(4)`, which only a number has.
  unfoldable pub fixed : Option Json → Option Text
  fixed (some (Json.num n)) = some (numbers.to_fixed (Json.num n))
  fixed (some (Json.other_num k t)) = some (numbers.to_fixed (Json.other_num k t))
  fixed _ = none

  -- `turn.playedAction !== null && ...`
  abbrev pub played_pill : Option Json → Option (List Text)
  played_pill played =
      let shown = child played in
      if is_null played then some [] else shown >>= λ s. some ((text "played " ++ s) ∷ [])

  -- `turn.costOfPlayed !== null && ...`
  abbrev pub cost_pill : Option Json → Option (List Text)
  cost_pill cost =
      let shown = fixed cost in
      if is_null cost then some [] else shown >>= λ s. some ((text "cost " ++ s) ∷ [])

  -- `!turn.gradable && ...`
  abbrev pub gradable_pill : Option Json → Option Json → Option (List Text)
  gradable_pill gradable reason =
      let shown = child_or (text "unknown") reason in
      if is_truthy gradable
      then some []
      else shown >>= λ s. some ((text "not gradable: " ++ s) ∷ [])

  -- One of `topActions`
  unfoldable pub action_row : Option Json → Option Json → Option ActionShown
  unfolding fixed
  action_row played ranked = do
    action ← read (text "action") ranked
    label ← child action
    value ← read (text "value") ranked
    shown ← fixed value
    share ← read (text "visitShare") ranked
    some (record {
      action = label;
      is_played = same action played;
      value = shown;
      visit_share = numbers.hundredfold share ++ text "%";
    })

  unfoldable pub action_rows : Option Json → Items → Option (List ActionShown)
  unfolding action_row
  action_rows played Json.nil = some []
  action_rows played (Json.cons ranked items) = do
    row ← action_row played (some ranked)
    rows ← action_rows played items
    some (row ∷ rows)

  -- `turn.topActions.map(...)`, which only an array has.
  unfoldable pub ranked_rows : Option Json → Option Json → Option (List ActionShown)
  unfolding action_rows
  ranked_rows played (some (Json.arr items)) = action_rows played items
  ranked_rows played _ = none

  -- `TurnDetail`
  unfoldable pub turn_detail : Option Json → Option TurnShown
  unfolding percent ranked_rows fixed
  turn_detail turn = do
    number ← read (text "turn") turn >>= child
    probability ← read (text "winProbability") turn
    samples ← read (text "samplesUsed") turn >>= child
    played ← read (text "playedAction") turn
    played_shown ← played_pill played
    cost_shown ← read (text "costOfPlayed") turn >>= cost_pill
    gradable ← read (text "gradable") turn
    reason ← read (text "ungradableReason") turn
    gradable_shown ← gradable_pill gradable reason
    rows ← read (text "topActions") turn >>= ranked_rows played
    some (record {
      heading = text "Turn " ++ number;
      pills =
          (text "win probability " ++ percent probability)
          ∷ (samples ++ text " opponent samples")
          ∷ (played_shown ++ (cost_shown ++ gradable_shown));
      actions = rows;
    })

  -- `turn.costOfPlayed === null ? '—' : turn.costOfPlayed.toFixed(4)`
  abbrev pub cost_cell : Option Json → Option Text
  cost_cell cost = let shown = fixed cost in if is_null cost then some dash else shown

  -- `turn.gradable ? 'yes' : (turn.ungradableReason ?? 'no')`
  abbrev pub gradable_cell : Option Json → Option Json → Option Text
  gradable_cell gradable reason =
      let shown = child_or (text "no") reason in
      if is_truthy gradable then some (text "yes") else shown

  -- A row of the table
  unfoldable pub turn_row : Option Json → Option RowShown
  unfolding percent fixed
  turn_row turn = do
    number ← read (text "turn") turn >>= child
    probability ← read (text "winProbability") turn
    played ← read (text "playedAction") turn >>= child_or dash
    cost ← read (text "costOfPlayed") turn >>= cost_cell
    gradable ← read (text "gradable") turn
    reason ← read (text "ungradableReason") turn
    graded ← gradable_cell gradable reason
    some (record {
      turn = number;
      win_probability = percent probability;
      played = played;
      cost = cost;
      gradable = graded;
    })

  unfoldable pub turn_rows : Items → Option (List RowShown)
  unfolding turn_row
  turn_rows Json.nil = some []
  turn_rows (Json.cons turn items) = do
    row ← turn_row (some turn)
    rows ← turn_rows items
    some (row ∷ rows)

  -- `doc.turns.map(...)`, which only an array has.
  unfoldable pub table : Option Json → Option (List RowShown)
  unfolding turn_rows
  table (some (Json.arr items)) = turn_rows items
  table _ = none
