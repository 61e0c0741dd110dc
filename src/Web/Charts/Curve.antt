-- ===== src/Web/Charts/Curve.antt =====
-- What the paths of the curve draw.
use battle_cloud.Common.{ℕ, ◌≡◌, refl, sym, ap, ◌∙◌, List, [], ◌∷◌, ◌++◌, Option, none, some}
use mathlib.Core.List.{append-nil, append_assoc}
use battle_cloud.Web.Charts.{
  Turn, Command, move, line, Point, command_after, pushed, segment_loop, eval_segments,
}

-- A straight line between two evaluated turns.
pub record Stroke {ℓ} (A : Type ℓ) : Type ℓ where
  pub from_turn : ℕ
  pub from_probability : A
  pub to_turn : ℕ
  pub to_probability : A

module _ {ℓ} {A : Type ℓ} where
  abbrev pub between : Option (ℕ × A) → ℕ → A → List (Stroke A)
  between none turn p = []
  between (some q) turn p =
      record { from_turn = q.0; from_probability = q.1; to_turn = turn; to_probability = p } ∷ []

  abbrev ink : Command → Option (ℕ × A) → ℕ → A → List (Stroke A)
  ink move pen turn p = []
  ink line pen turn p = between pen turn p

  -- A path as a browser draws it, from where the pen stands.
  abbrev pub strokes : Option (ℕ × A) → List (Point A) → List (Stroke A)
  strokes pen [] = []
  strokes pen (q ∷ path) =
      ink q.command pen q.turn q.probability ++ strokes (some (q.turn, q.probability)) path

  abbrev pub drawn : List (List (Point A)) → List (Stroke A)
  drawn [] = []
  drawn (path ∷ paths) = strokes none path ++ drawn paths

  -- The lines that the battle has: from each evaluated turn to the next in the list, if that is
  -- evaluated too.
  abbrev line_to : Option (ℕ × A) → ℕ → Option A → List (Stroke A)
  line_to previous turn none = []
  line_to previous turn (some p) = between previous turn p

  abbrev evaluated : ℕ → Option A → Option (ℕ × A)
  evaluated turn none = none
  evaluated turn (some p) = some (turn, p)

  abbrev pub lines_from : Option (ℕ × A) → List (Turn A) → List (Stroke A)
  lines_from previous [] = []
  lines_from previous (t ∷ turns) =
      line_to previous t.turn t.win_probability
      ++ lines_from (evaluated t.turn t.win_probability) turns

  abbrev pen_after : Option (ℕ × A) → List (Point A) → Option (ℕ × A)
  pen_after pen [] = pen
  pen_after pen (q ∷ path) = pen_after (some (q.turn, q.probability)) path

  strokes-append :
      (pen : Option (ℕ × A)) (path more : List (Point A))
      → strokes pen (path ++ more) ≡ strokes pen path ++ strokes (pen_after pen path) more
  strokes-append pen [] more = refl
  strokes-append pen (q ∷ path) more =
      rw (strokes-append (some (q.turn, q.probability)) path more)
        (sym (append_assoc (ink q.command pen q.turn q.probability) _ _))

  pen_after-append :
      (pen : Option (ℕ × A)) (path : List (Point A)) (q : Point A)
      → pen_after pen (path ++ q ∷ []) ≡ some (q.turn, q.probability)
  pen_after-append pen [] q = refl
  pen_after-append pen (r ∷ path) q = pen_after-append (some (r.turn, r.probability)) path q

  drawn-append :
      (paths more : List (List (Point A))) → drawn (paths ++ more) ≡ drawn paths ++ drawn more
  drawn-append [] more = refl
  drawn-append (path ∷ paths) more =
      rw (drawn-append paths more) (sym (append_assoc (strokes none path) _ _))

  ink-none : (c : Command) (turn : ℕ) (p : A) → ink c none turn p ≡ []
  ink-none move turn p = refl
  ink-none line turn p = refl

  strokes-one : (q : Point A) → strokes none (q ∷ []) ≡ []
  strokes-one q =
      append-nil (ink q.command none q.turn q.probability) ∙ ink-none q.command q.turn q.probability

  drawn-pushed :
      (segments : List (List (Point A))) (current : List (Point A))
      → drawn (pushed segments current) ≡ drawn segments ++ strokes none current
  unfolding pushed
  drawn-pushed segments [] = sym (append-nil (drawn segments))
  drawn-pushed segments (q ∷ []) = rw (strokes-one q) (sym (append-nil (drawn segments)))
  drawn-pushed segments (q ∷ r ∷ current) =
      drawn-append segments _
      ∙ ap (λ s. drawn segments ++ s) (append-nil (strokes none (q ∷ r ∷ current)))

  -- The next point of a path draws the line from the one before it.
  strokes-next :
      (current : List (Point A)) (turn : ℕ) (p : A)
      → strokes
          (pen_after none current)
          (record { command = command_after current; turn = turn; probability = p } ∷ [])
        ≡ between (pen_after none current) turn p
  strokes-next [] turn p = refl
  strokes-next (q ∷ current) turn p = append-nil (between (pen_after none (q ∷ current)) turn p)

  abbrev IsDrawn : List (Turn A) → Type ℓ
  IsDrawn turns =
      (segments : List (List (Point A))) (current : List (Point A))
      → drawn (segment_loop segments current turns)
        ≡ drawn segments ++ (strokes none current ++ lines_from (pen_after none current) turns)

  segment_loop-round :
      (turn : ℕ) (p : Option A) (turns : List (Turn A))
      → IsDrawn turns
      → IsDrawn (record { turn = turn; win_probability = p } ∷ turns)
  unfolding segment_loop
  segment_loop-round turn none turns rest segments current =
      rw (rest (pushed segments current) [], drawn-pushed segments current)
        (append_assoc (drawn segments) _ _)
  segment_loop-round turn (some p) turns rest segments current =
      let next : Point A = record {
        command = command_after current;
        turn = turn;
        probability = p;
      } in
      rw
        (
          rest segments (current ++ next ∷ []),
          pen_after-append none current next,
          strokes-append none current (next ∷ []),
          strokes-next current turn p,
          append_assoc (strokes none current) (between (pen_after none current) turn p)
              (lines_from (some (turn, p)) turns),
        )
        refl

  IsDrawn-segment_loop : (turns : List (Turn A)) → IsDrawn turns
  unfolding segment_loop
  IsDrawn-segment_loop [] segments current =
      drawn-pushed segments current
      ∙ ap (λ s. drawn segments ++ s) (sym (append-nil (strokes none current)))
  IsDrawn-segment_loop (t ∷ turns) segments current =
      segment_loop-round t.turn t.win_probability turns (IsDrawn-segment_loop turns) segments
        current

  -- The paths draw exactly the lines between turns that stand next to each other and are both
  -- evaluated, in order: none across a turn without a probability, and none is missing.
  pub eval_segments-drawn :
      (turns : List (Turn A)) → drawn (eval_segments turns) ≡ lines_from none turns
  unfolding eval_segments
  eval_segments-drawn turns = IsDrawn-segment_loop turns [] []
