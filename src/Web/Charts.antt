-- ===== src/Web/Charts.antt =====
-- web/src/components/charts.tsx, as far as it decides what is drawn; the coordinates are floating
-- point. Turns are natural numbers, as the engine counts them.
pub mod Axis
pub mod Curve
pub mod Hover
use battle_cloud.Common.{
  ℕ, zero, suc, ◌+◌, ◌-◌, ◌/◌, Bool, false, leb, ◌==◌, List, [], ◌∷◌, ◌++◌, Option, none, some,
  if◌then◌else◌,
}

-- A turn as the curve reads it: its number and its win probability, if there is one.
pub record Turn {ℓ} (A : Type ℓ) : Type ℓ where
  pub turn : ℕ
  pub win_probability : Option A

-- `turns[0]?.turn ?? 1`
abbrev pub first_turn {ℓ} : {A : Type ℓ} → List (Turn A) → ℕ
first_turn [] = 1
first_turn (t ∷ turns) = t.turn

-- `turns[turns.length - 1]?.turn ?? 1`
abbrev pub last_turn {ℓ} : {A : Type ℓ} → List (Turn A) → ℕ
last_turn [] = 1
last_turn (t ∷ []) = t.turn
last_turn (t ∷ u ∷ turns) = last_turn (u ∷ turns)

-- `Math.max(1, Math.ceil((last - first) / 12))`
unfoldable pub tick_step : ℕ → ℕ → ℕ
tick_step first last =
    let ceiling = (last - first + 11) / 12 in if leb 1 ceiling then ceiling else 1

-- The loop that pushes the ticks, with fuel for its rounds.
unfoldable pub ticks_from : ℕ → ℕ → ℕ → ℕ → List ℕ
ticks_from zero step t last = []
ticks_from (suc fuel) step t last =
    let rest = ticks_from fuel step (t + step) last in if leb t last then t ∷ rest else []

-- `ticks[ticks.length - 1] !== last`
abbrev pub ends_with : ℕ → List ℕ → Bool
ends_with last [] = false
ends_with last (t ∷ []) = t == last
ends_with last (t ∷ u ∷ ticks) = ends_with last (u ∷ ticks)

unfoldable pub closed : ℕ → List ℕ → List ℕ
closed last ticks = if ends_with last ticks then ticks else ticks ++ last ∷ []

-- `TurnAxis`; the loop has at most one round for each turn, and the round that ends it.
unfoldable pub axis_ticks : ℕ → ℕ → List ℕ
unfolding tick_step ticks_from closed
axis_ticks first last =
    closed last (ticks_from (suc (last - first)) (tick_step first last) first last)

-- `M` and `L` of a path: move the pen, or draw from where it is.
pub data Command : Type 0 where
  move line : Command

pub record Point {ℓ} (A : Type ℓ) : Type ℓ where
  pub command : Command
  pub turn : ℕ
  pub probability : A

module _ {ℓ} {A : Type ℓ} where
  -- `current.length === 0 ? 'M' : 'L'`
  abbrev pub command_after : List (Point A) → Command
  command_after [] = move
  command_after (q ∷ current) = line

  -- `if (current.length > 1) segments.push(current.join(' '))`, with the points of a path for its text.
  unfoldable pub pushed : List (List (Point A)) → List (Point A) → List (List (Point A))
  pushed segments [] = segments
  pushed segments (q ∷ []) = segments
  pushed segments (q ∷ r ∷ current) = segments ++ (q ∷ r ∷ current) ∷ []

  unfoldable pub segment_loop :
      List (List (Point A)) → List (Point A) → List (Turn A) → List (List (Point A))
  unfolding pushed
  segment_loop segments current [] = pushed segments current
  segment_loop segments current (t ∷ turns) = elim t.win_probability [
    | none ↦ segment_loop (pushed segments current) [] turns
    | some p ↦
        segment_loop segments
          (current
            ++ record { command = command_after current; turn = t.turn; probability = p } ∷ [])
          turns
  ]

  -- The paths of `EvalCurve`
  unfoldable pub eval_segments : List (Turn A) → List (List (Point A))
  unfolding segment_loop
  eval_segments turns = segment_loop [] [] turns

-- The axis under the curve.
unfoldable pub turn_axis {ℓ} : {A : Type ℓ} → List (Turn A) → List ℕ
unfolding axis_ticks
turn_axis turns = axis_ticks (first_turn turns) (last_turn turns)
