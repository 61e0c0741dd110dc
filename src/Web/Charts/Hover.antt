-- ===== src/Web/Charts/Hover.antt =====
-- `useTurnHover` of web/src/components/charts.tsx, and what a click in a chart selects. The pointed
-- turn is `Math.round(first + ratio * span)` of the mouse's position; one below zero, which the
-- first turn lifts, stands as 0.
use battle_cloud.Common.{
  ℕ, ◌+◌, ◌≤◌, ◌≡◌, refl, leb, ◌==◌, List, [], ◌∷◌, Option, none, some, find?, All, arith,
  if◌then◌else◌, Bool-cases, inl, inr,
}
use battle_cloud.Web.Charts.{Turn, first_turn, last_turn}

abbrev math_max : ℕ → ℕ → ℕ
math_max a b = if leb a b then b else a

abbrev math_min : ℕ → ℕ → ℕ
math_min a b = if leb a b then a else b

-- What the mouse does over a chart.
pub data Mouse : Type 0 where
  moved : ℕ → Mouse
  left : Mouse
  clicked : Mouse

-- The hovered turn, and the turns that were selected.
pub record Chart : Type 0 where
  pub hover : Option ℕ
  pub selections : List ℕ

abbrev pub select : Option ℕ → List ℕ → List ℕ
select none selections = selections
select (some turn) selections = turn ∷ selections

module _ {ℓ} {A : Type ℓ} (turns : List (Turn A)) where
  -- `onMove`
  unfoldable pub clamped : ℕ → ℕ
  clamped pointed = math_min (last_turn turns) (math_max (first_turn turns) pointed)

  unfoldable pub step : Chart → Mouse → Chart
  unfolding clamped
  step chart (moved pointed) = record chart { hover = some (clamped pointed) }
  step chart left = record chart { hover = none }
  step chart clicked = record chart { selections = select chart.hover chart.selections }

  unfoldable pub run : Chart → List Mouse → Chart
  unfolding step
  run chart [] = chart
  run chart (event ∷ events) = run (step chart event) events

-- `turns.find((t) => t.turn === selected)`
unfoldable pub turn_at {ℓ} : {A : Type ℓ} → ℕ → List (Turn A) → Option (Turn A)
turn_at selected turns = find? (λ t. t.turn == selected) turns

-- Each turn is one behind the turn before it.
abbrev pub IsConsecutive {ℓ} : {A : Type ℓ} → List (Turn A) → Type 0
IsConsecutive [] = Unit
IsConsecutive (t ∷ []) = Unit
IsConsecutive (t ∷ u ∷ turns) = (u.turn ≡ t.turn + 1) × IsConsecutive (u ∷ turns)

module _ {ℓ} {A : Type ℓ} where
  last_turn-first :
      (t : Turn A) (turns : List (Turn A))
      → IsConsecutive (t ∷ turns)
      → t.turn ≤ last_turn (t ∷ turns)
  last_turn-first t [] h = omega arith
  last_turn-first t (u ∷ turns) (e, h) = let ih = last_turn-first u turns h in omega arith

  -- Between the first and the last, every number is the number of a turn.
  turn_at-between :
      (t : Turn A) (turns : List (Turn A)) (n : ℕ)
      → IsConsecutive (t ∷ turns)
      → t.turn ≤ n
      → n ≤ last_turn (t ∷ turns)
      → (found : Turn A) × (turn_at n (t ∷ turns) ≡ some found) × (found.turn ≡ n)
  unfolding turn_at
  turn_at-between t [] n h low high = (t, ground arith, omega arith)
  turn_at-between t (u ∷ turns) n (e, h) low high = elim (Bool-cases (t.turn == n)) [
    | inl here ↦ (t, rw here refl, ground arith)
    | inr past ↦
        let (found, there, same) = turn_at-between u turns n h (ground arith) high in
        (found, rw past there, same)
  ]

  -- The number is the number of a turn.
  abbrev pub IsTurn : List (Turn A) → ℕ → Type ℓ
  IsTurn turns n = (found : Turn A) × (turn_at n turns ≡ some found) × (found.turn ≡ n)

  abbrev IsTurnIf : List (Turn A) → Option ℕ → Type ℓ
  IsTurnIf turns none = Unit
  IsTurnIf turns (some n) = IsTurn turns n

  clamped-IsTurn :
      (t : Turn A) (turns : List (Turn A)) (pointed : ℕ)
      → IsConsecutive (t ∷ turns)
      → IsTurn (t ∷ turns) (clamped (t ∷ turns) pointed)
  unfolding clamped
  clamped-IsTurn t turns pointed h =
      let ordered = last_turn-first t turns h in
      turn_at-between t turns (clamped (t ∷ turns) pointed) h (ground arith) (ground arith)

  -- What is hovered and what was selected are turns.
  record IsOnTurns (turns : List (Turn A)) (chart : Chart) : Type ℓ where
    hover : IsTurnIf turns chart.hover
    selections : All (IsTurn turns) chart.selections

  select-All :
      (turns : List (Turn A)) (hover : Option ℕ) (selections : List ℕ)
      → IsTurnIf turns hover
      → All (IsTurn turns) selections
      → All (IsTurn turns) (select hover selections)
  select-All turns none selections h k = k
  select-All turns (some n) selections h k = (h, k)

  step-IsOnTurns :
      (t : Turn A) (turns : List (Turn A)) (chart : Chart) (event : Mouse)
      → IsConsecutive (t ∷ turns)
      → IsOnTurns (t ∷ turns) chart
      → IsOnTurns (t ∷ turns) (step (t ∷ turns) chart event)
  unfolding step
  step-IsOnTurns t turns chart (moved pointed) h on = record {
    hover = clamped-IsTurn t turns pointed h;
    selections = on.selections;
  }
  step-IsOnTurns t turns chart left h on = record { hover = tt; selections = on.selections }
  step-IsOnTurns t turns chart clicked h on = record {
    hover = on.hover;
    selections = select-All (t ∷ turns) chart.hover chart.selections on.hover on.selections;
  }

  run-IsOnTurns :
      (t : Turn A) (turns : List (Turn A)) (chart : Chart) (events : List Mouse)
      → IsConsecutive (t ∷ turns)
      → IsOnTurns (t ∷ turns) chart
      → IsOnTurns (t ∷ turns) (run (t ∷ turns) chart events)
  unfolding run
  run-IsOnTurns t turns chart [] h on = on
  run-IsOnTurns t turns chart (event ∷ events) h on =
      run-IsOnTurns t turns (step (t ∷ turns) chart event) events h
        (step-IsOnTurns t turns chart event h on)

  -- Over a battle whose turns are numbered one after the other, whatever the mouse does in a chart:
  -- every number that a click hands to the view is the number of a turn of the battle, so the view
  -- finds it.
  pub run-selections :
      (t : Turn A) (turns : List (Turn A)) (events : List Mouse)
      → IsConsecutive (t ∷ turns)
      → All
          (IsTurn (t ∷ turns))
          (run (t ∷ turns) (record { hover = none; selections = [] }) events).selections
  run-selections t turns events h =
      (run-IsOnTurns t turns (record { hover = none; selections = [] }) events h
        (record { hover = tt; selections = tt })).selections
