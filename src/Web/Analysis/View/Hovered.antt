-- ===== src/Web/Analysis/View/Hovered.antt =====
-- The tooltips of web/src/components/charts.tsx and the bars of `CostBars`, over turns that are not
-- checked.
use battle_cloud.Common.{
  ◌≡◌, refl, Bool, true, List, [], ◌∷◌, ◌++◌, Option, none, some, Text, text, arith, Bool-cases,
  inl, inr, if◌then◌else◌,
}
use battle_cloud.Json
use battle_cloud.Json.{Json, Items, Fields}
use battle_cloud.Contract.Checks.{string, nullable, optional, finite, every}
use battle_cloud.Contract.Documents.{turn_evaluation_schema}
use battle_cloud.Web.Form.{rendered}
use battle_cloud.Web.Analysis.{◌>>=◌, Numbers, read, same, is_null, is_nullish, child, fixed}
use battle_cloud.Web.Analysis.View.{find_turn, selected_turn}
use battle_cloud.Web.Analysis.View.Accepted.{
  is_shown, is_shown-bind, both, int-is_shown, schema-IsTurn,
}

pub record Tooltip : Type 0 where
  pub heading : Text
  pub lines : List Text

pub record Bar : Type 0 where
  pub turn : Option Json
  pub cost : Option Json
  pub is_full : Bool

-- `value ?? 'unknown'`
abbrev or_unknown : Option Json → Option Json
or_unknown value = if is_nullish value then some (Json.str (text "unknown")) else value

-- `hovered === null || hovered.turn === turn.turn`, where a hovered turn was found by its number.
abbrev is_lit : Option Json → Option Json → Bool
is_lit none number = true
is_lit (some (Json.obj fields)) number = same (Json.get (text "turn") fields) number
is_lit (some _) number = same none number

-- The bars: none for a turn without a cost.
unfoldable pub bars : Option Json → Items → Option (List Bar)
bars hovered Json.nil = some []
bars hovered (Json.cons turn items) = do
  number ← read (text "turn") (some turn)
  cost ← read (text "costOfPlayed") (some turn)
  later ← bars hovered items
  some (
      if is_nullish cost
      then later
      else record { turn = number; cost = cost; is_full = is_lit hovered number } ∷ later)

module _ (numbers : Numbers) where
  -- `win probability` or why there is none
  abbrev probability_line : Option Json → Option Json → Text
  probability_line probability reason =
      if is_nullish probability
      then text "not evaluated (" ++ (rendered numbers.template (or_unknown reason) ++ text ")")
      else text "win probability " ++ (numbers.hundredfold probability ++ text "%")

  abbrev played_line : Option Json → Option (List Text)
  played_line played =
      let shown = child numbers played in
      if is_null played then some [] else (shown >>= λ s. some ((text "played " ++ s) ∷ []))

  -- The tooltip of `EvalCurve`
  unfoldable pub curve_tooltip : Option Json → Option Tooltip
  curve_tooltip turn = do
    number ← read (text "turn") turn >>= child numbers
    probability ← read (text "winProbability") turn
    reason ← read (text "ungradableReason") turn
    played ← read (text "playedAction") turn >>= played_line
    some (record {
      heading = text "Turn " ++ number;
      lines = probability_line probability reason ∷ played;
    })

  -- Loosely compared with null, and then with 0.
  abbrev cost_line : Option Json → Option Text
  cost_line cost =
      let shown = fixed numbers cost in
      if is_nullish cost
      then some (text "not gradable")
      else (if same cost (some (Json.num 0))
          then some (text "played the engine" ++ (0x2019 ∷ text "s top action"))
          else (shown >>= λ s. some (text "cost " ++ s)))

  -- The tooltip of `CostBars`
  unfoldable pub cost_tooltip : Option Json → Option Tooltip
  cost_tooltip turn = do
    number ← read (text "turn") turn >>= child numbers
    line ← read (text "costOfPlayed") turn >>= cost_line
    some (record { heading = text "Turn " ++ number; lines = line ∷ [] })

  abbrev if_hovered : (Option Json → Option Tooltip) → Option Json → Option (Option Tooltip)
  if_hovered tooltip none = some none
  if_hovered tooltip (some turn) = tooltip (some turn) >>= λ shown. some (some shown)

  -- The bars and both tooltips with the hovered turn, if there is one
  unfoldable pub charts_at :
      Items → Option Json → Option (List Bar × (Option Tooltip × Option Tooltip))
  unfolding bars curve_tooltip cost_tooltip
  charts_at items hovered = do
    drawn ← bars hovered items
    curve ← if_hovered curve_tooltip hovered
    cost ← if_hovered cost_tooltip hovered
    some (drawn, (curve, cost))

  -- What depends on the mouse in both charts; no hover is null.
  unfoldable pub charts :
      Option Json → Items → Option (List Bar × (Option Tooltip × Option Tooltip))
  unfolding charts_at
  charts hover items = do
    hovered ← selected_turn hover (some (Json.arr items))
    charts_at items hovered

  is_shown-played_line :
      (v : Option Json) → optional (nullable string) v ≡ true → is_shown (played_line v) ≡ true
  is_shown-played_line v h = ground arith

  is_shown-cost_line :
      (v : Option Json) → optional (nullable finite) v ≡ true → is_shown (cost_line v) ≡ true
  unfolding fixed
  is_shown-cost_line v h = ground arith

  is_shown-curve_tooltip :
      (json : Json)
      → turn_evaluation_schema (some json) ≡ true
      → is_shown (curve_tooltip (some json)) ≡ true
  unfolding curve_tooltip turn_evaluation_schema
  is_shown-curve_tooltip (Json.obj fields) h =
      let is_turn = schema-IsTurn fields h in
      is_shown-bind (child numbers (Json.get (text "turn") fields)) _ true
        (int-is_shown numbers (Json.get (text "turn") fields) is_turn.turn)
        (λ number.
          is_shown-bind (played_line (Json.get (text "playedAction") fields)) _ true
            (is_shown-played_line (Json.get (text "playedAction") fields) is_turn.played)
            (λ played. refl))
  is_shown-curve_tooltip _ h = cc h

  is_shown-cost_tooltip :
      (json : Json)
      → turn_evaluation_schema (some json) ≡ true
      → is_shown (cost_tooltip (some json)) ≡ true
  unfolding cost_tooltip turn_evaluation_schema
  is_shown-cost_tooltip (Json.obj fields) h =
      let is_turn = schema-IsTurn fields h in
      is_shown-bind (child numbers (Json.get (text "turn") fields)) _ true
        (int-is_shown numbers (Json.get (text "turn") fields) is_turn.turn)
        (λ number.
          is_shown-bind (cost_line (Json.get (text "costOfPlayed") fields)) _ true
            (is_shown-cost_line (Json.get (text "costOfPlayed") fields) is_turn.cost)
            (λ line. refl))
  is_shown-cost_tooltip _ h = cc h

-- A turn that is found is one that the schema has accepted.
is_shown-found :
    {B : Type 0} (f : Option Json → Option B) (selected : Option Json) (items : Items)
    → is_shown (f none) ≡ true
    → ((json : Json) → turn_evaluation_schema (some json) ≡ true → is_shown (f (some json)) ≡ true)
    → every turn_evaluation_schema items ≡ true
    → is_shown (find_turn selected items >>= f) ≡ true
unfolding find_turn turn_evaluation_schema
is_shown-found f selected Json.nil h k accepted = h
is_shown-found f selected (Json.cons (Json.obj fields) items) h k accepted =
    let (here, later) = both _ _ accepted in
    elim (Bool-cases (same (Json.get (text "turn") fields) selected)) [
      | inl e ↦ rw e (k (Json.obj fields) here)
      | inr e ↦ rw e (is_shown-found f selected items h k later)
    ]
is_shown-found f selected (Json.cons _ items) h k accepted = cc accepted

is_shown-bars :
    (hovered : Option Json) (items : Items)
    → every turn_evaluation_schema items ≡ true
    → is_shown (bars hovered items) ≡ true
unfolding bars turn_evaluation_schema
is_shown-bars hovered Json.nil h = refl
is_shown-bars hovered (Json.cons (Json.obj fields) items) h =
    is_shown-bind (bars hovered items) _ true (is_shown-bars hovered items (both _ _ h).1)
      (λ later. refl)
is_shown-bars hovered (Json.cons _ items) h = cc h

module _ (numbers : Numbers) where
  is_shown-if_hovered :
      (tooltip : Option Json → Option Tooltip) (json : Json)
      → is_shown (tooltip (some json)) ≡ true
      → is_shown (if_hovered numbers tooltip (some json)) ≡ true
  is_shown-if_hovered tooltip json h = is_shown-bind (tooltip (some json)) _ true h (λ shown. refl)

  -- The parts behind the hovered turn.
  is_shown-tooltips :
      (hovered : Option Json) (items : Items)
      → every turn_evaluation_schema items ≡ true
      → is_shown (if_hovered numbers (curve_tooltip numbers) hovered) ≡ true
      → is_shown (if_hovered numbers (cost_tooltip numbers) hovered) ≡ true
      → is_shown (charts_at numbers items hovered) ≡ true
  unfolding charts_at
  is_shown-tooltips hovered items h curve cost =
      is_shown-bind (bars hovered items) _ true (is_shown-bars hovered items h) (λ drawn.
        is_shown-bind (if_hovered numbers (curve_tooltip numbers) hovered) _ true curve (λ shown.
          is_shown-bind (if_hovered numbers (cost_tooltip numbers) hovered) _ true cost
            (λ line. refl)))

  -- Over turns that the schema accepts, both charts are rendered without a throw whatever turn is
  -- hovered, or none: the bars, and the two tooltips, also where the turn has no cost or no
  -- probability, as null or as an absent key.
  pub is_shown-charts :
      (hover : Option Json) (items : Items)
      → every turn_evaluation_schema items ≡ true
      → is_shown (charts numbers hover items) ≡ true
  unfolding charts selected_turn
  is_shown-charts hover items h = elim (Bool-cases (is_null hover)) [
    | inl e ↦ rw e (is_shown-tooltips none items h refl refl)
    | inr e ↦ rw e (
        is_shown-found (charts_at numbers items) hover items
          (is_shown-tooltips none items h refl refl)
          (λ json accepted.
            is_shown-tooltips (some json) items h
              (is_shown-if_hovered (curve_tooltip numbers) json
                (is_shown-curve_tooltip numbers json accepted))
              (is_shown-if_hovered (cost_tooltip numbers) json
                (is_shown-cost_tooltip numbers json accepted)))
          h)
  ]
