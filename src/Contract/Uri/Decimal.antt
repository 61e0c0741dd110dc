-- ===== src/Contract/Uri/Decimal.antt =====
-- No two numbers print alike.
use battle_cloud.Common.{
  ℕ, zero, suc, ◌+◌, ◌-◌, ◌*◌, ◌/◌, ◌%◌, ◌<◌, ◌≡◌, refl, sym, ap, ◌∙◌, [], ◌∷◌, ◌++◌, arith, Text,
  All-append, ltb, inl, inr, Bool-cases,
}
use battle_cloud.Contract.Uri.{digits_within, decimal}
use battle_cloud.Contract.Uri.Utf8.{IsUtf16}

-- The number that a run of digits stands for, behind an accumulator.
value_from : ℕ → Text → ℕ
value_from acc [] = acc
value_from acc (c ∷ s) = value_from (acc * 10 + (c - b'0')) s

value_from-append :
    (acc : ℕ) (s : Text) (c : ℕ) → value_from acc (s ++ c ∷ []) ≡ value_from acc s * 10 + (c - b'0')
unfolding value_from
value_from-append acc [] c = refl
value_from-append acc (d ∷ s) c = value_from-append (acc * 10 + (d - b'0')) s c

value_from-digits_within : (f n : ℕ) → n < f → value_from 0 (digits_within f n) ≡ n
unfolding digits_within
value_from-digits_within zero n h = absurd (omega arith)
value_from-digits_within (suc f) n h = elim (Bool-cases (ltb n 10)) [
  | inl small ↦ rw small (unfold value_from in omega arith)
  | inr big ↦
      rw
        (
          big,
          value_from-append 0 (digits_within f (n / 10)) (b'0' + n % 10),
          value_from-digits_within f (n / 10) (ground arith),
        )
        (omega arith)
]

-- Two numbers that print alike are equal.
pub decimal_injective : (a b : ℕ) → decimal a ≡ decimal b → a ≡ b
unfolding decimal
decimal_injective a b h =
    sym (value_from-digits_within (suc a) a (omega arith))
    ∙ ap (value_from 0) h
    ∙ value_from-digits_within (suc b) b (omega arith)

digits_within-IsUtf16 : (f n : ℕ) → IsUtf16 (digits_within f n)
unfolding digits_within
digits_within-IsUtf16 zero n = tt
digits_within-IsUtf16 (suc f) n = elim (Bool-cases (ltb n 10)) [
  | inl small ↦ rw small (ground arith, tt)
  | inr big ↦ rw big (
      All-append (λ u. u < 65536) (digits_within f (n / 10)) _ (digits_within-IsUtf16 f (n / 10))
        (omega arith, tt))
]

pub decimal-IsUtf16 : (n : ℕ) → IsUtf16 (decimal n)
unfolding decimal
decimal-IsUtf16 n = digits_within-IsUtf16 (suc n) n
