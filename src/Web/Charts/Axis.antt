-- ===== src/Web/Charts/Axis.antt =====
-- The ticks of the turn axis.
use battle_cloud.Common.{
  ℕ, zero, suc, ◌+◌, ◌-◌, ◌*◌, ◌≤◌, ◌<◌, ◌≡◌, refl, ap, leb, List, [], ◌∷◌, arith, length,
  Bool-cases, inl, inr,
}
use battle_cloud.Web.Charts.{
  Turn, first_turn, last_turn, turn_axis, tick_step, ticks_from, closed, axis_ticks,
}

-- From the first number up to the last, each above the one before.
abbrev pub Ascends : ℕ → ℕ → List ℕ → Type 0
Ascends first last [] = first ≡ suc first
Ascends first last (t ∷ []) = (t ≡ first) × (t ≡ last)
Ascends first last (t ∷ u ∷ ticks) = (t ≡ first) × (t < u) × Ascends u last (u ∷ ticks)

closed-cons :
    (last t u : ℕ) (ticks : List ℕ) → closed last (t ∷ u ∷ ticks) ≡ t ∷ closed last (u ∷ ticks)
unfolding closed
closed-cons last t u ticks = ground arith

closed-one : (last t : ℕ) → t ≤ last → Ascends t last (closed last (t ∷ []))
unfolding closed
closed-one last t h = ground arith

Ascends-cons :
    (t u last : ℕ) (ticks : List ℕ) → t < u → Ascends u last ticks → Ascends t last (t ∷ ticks)
Ascends-cons t u last [] h a = absurd (omega arith)
Ascends-cons t u last (v ∷ []) h a = (refl, omega (arith, a.0), (refl, a.1))
Ascends-cons t u last (v ∷ w ∷ ticks) h a = (refl, omega (arith, a.0), (refl, a.1, a.2))

tick_step_pos : (first last : ℕ) → 1 ≤ tick_step first last
unfolding tick_step
tick_step_pos first last = ground arith

tick_step_le : (first last : ℕ) → last ≤ first + 12 * tick_step first last
unfolding tick_step
tick_step_le first last = ground arith

ticks_from-past : (fuel step t last : ℕ) → last < t → ticks_from fuel step t last ≡ []
unfolding ticks_from
ticks_from-past zero step t last h = refl
ticks_from-past (suc fuel) step t last h = ground arith

ticks_from-next :
    (fuel step t last : ℕ)
    → t ≤ last
    → ticks_from (suc fuel) step t last ≡ t ∷ ticks_from fuel step (t + step) last
unfolding ticks_from
ticks_from-next fuel step t last h = ground arith

-- One round of the loop with more to come.
closed-next :
    (fuel step t last : ℕ)
    → t + step ≤ last
    → closed last (ticks_from (suc (suc fuel)) step t last)
      ≡ t ∷ closed last (ticks_from (suc fuel) step (t + step) last)
closed-next fuel step t last h =
    rw
      (
        ticks_from-next (suc fuel) step t last (omega arith),
        ticks_from-next fuel step (t + step) last h,
      )
      (closed-cons last t (t + step) (ticks_from fuel step (t + step + step) last))

-- The last round.
closed-end :
    (fuel step t last : ℕ)
    → t ≤ last
    → last < t + step
    → closed last (ticks_from (suc fuel) step t last) ≡ closed last (t ∷ [])
closed-end fuel step t last h k =
    rw (ticks_from-next fuel step t last h, ticks_from-past fuel step (t + step) last k) refl

closed-Ascends :
    (fuel step t last : ℕ)
    → 1 ≤ step
    → t ≤ last
    → last < t + fuel
    → Ascends t last (closed last (ticks_from fuel step t last))
closed-Ascends zero step t last pos h k = absurd (omega arith)
closed-Ascends (suc zero) step t last pos h k =
    rw (closed-end 0 step t last h (omega arith)) (closed-one last t h)
closed-Ascends (suc (suc fuel)) step t last pos h k = elim (Bool-cases (leb (t + step) last)) [
  | inl e ↦ rw (closed-next fuel step t last (ground arith)) (
      Ascends-cons t (t + step) last (closed last (ticks_from (suc fuel) step (t + step) last))
        (omega arith)
        (closed-Ascends (suc fuel) step (t + step) last pos (ground arith) (omega arith)))
  | inr e ↦ rw (closed-end (suc fuel) step t last h (ground arith)) (closed-one last t h)
]

length-closed :
    (rounds fuel step t last : ℕ)
    → 1 ≤ step
    → t ≤ last
    → last < t + fuel
    → last ≤ t + rounds * step
    → length (closed last (ticks_from fuel step t last)) ≤ suc rounds
length-closed rounds zero step t last pos h k b = absurd (omega arith)
length-closed zero (suc fuel) step t last pos h k b =
    rw (closed-end fuel step t last h (omega arith)) (unfold closed in ground arith)
length-closed (suc rounds) (suc zero) step t last pos h k b =
    rw (closed-end 0 step t last h (omega arith)) (unfold closed in ground arith)
length-closed (suc rounds) (suc (suc fuel)) step t last pos h k b =
    elim (Bool-cases (leb (t + step) last)) [
      | inl e ↦ rw (closed-next fuel step t last (ground arith)) (
          omega (
            arith,
            length-closed rounds (suc fuel) step (t + step) last pos (ground arith) (omega arith)
                (omega arith),
          ))
      | inr e ↦
          rw (closed-end (suc fuel) step t last h (ground arith)) (unfold closed in ground arith)
    ]

-- Where the last turn of a battle is not before its first, the ticks of the axis go up from the
-- first turn, which has one, to the last, which has one too, and there are at most thirteen.
pub turn_axis-Ascends {ℓ} :
    {A : Type ℓ} (turns : List (Turn A))
    → first_turn turns ≤ last_turn turns
    → Ascends (first_turn turns) (last_turn turns) (turn_axis turns) × length (turn_axis turns) ≤ 13
unfolding turn_axis axis_ticks
turn_axis-Ascends turns h =
    let first = first_turn turns in
    let last = last_turn turns in
    let step = tick_step first last in
    (
      closed-Ascends (suc (last - first)) step first last (tick_step_pos first last) h
          (omega arith),
      length-closed 12 (suc (last - first)) step first last (tick_step_pos first last) h
          (omega arith) (tick_step_le first last),
    )

zero_add : (n : ℕ) → 0 + n ≡ n
zero_add n = omega arith

suc_add : (m n : ℕ) → suc m + n ≡ suc (m + n)
suc_add m n = omega arith

ticks_from-fuel :
    (fuel more step t last : ℕ)
    → 1 ≤ step
    → last < t + fuel
    → ticks_from (fuel + more) step t last ≡ ticks_from fuel step t last
unfolding ticks_from
ticks_from-fuel zero more step t last pos h =
    rw (zero_add more) (ticks_from-past more step t last (omega arith))
ticks_from-fuel (suc fuel) more step t last pos h =
    rw (suc_add fuel more) (ground (arith, ticks_from-fuel fuel more step (t + step) last))

-- The loop over the ticks ends of itself: with any more rounds than the model gives it, it pushes the
-- same ticks.
pub axis_ticks-fuel :
    (first last more : ℕ)
    → closed last (ticks_from (suc (last - first) + more) (tick_step first last) first last)
      ≡ axis_ticks first last
unfolding axis_ticks
axis_ticks-fuel first last more = ap (closed last) (
    ticks_from-fuel (suc (last - first)) more (tick_step first last) first last
      (tick_step_pos first last) (omega arith))
