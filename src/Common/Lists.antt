-- ===== src/Common/Lists.antt =====
-- Lists measured by native numbers, and the array methods of the source over Boolean tests.
use Prim.Native.Nat.{ℕ, zero, suc, ◌+◌, ◌≤◌}
use mathlib.Core.Path.{◌≡◌, refl}
use mathlib.Core.Bool.{Bool, true, ◌&&◌}
use mathlib.Core.List.{List, [], ◌∷◌, ◌++◌}
use mathlib.Core.Option.{Option, none, some}
use native.Mathlib.Omega.{arith}
use battle_cloud.Common.Tests.{if◌then◌else◌}

module _ {ℓ} {A : Type ℓ} where
  abbrev pub length : List A → ℕ
  length [] = 0
  length (x ∷ xs) = suc (length xs)

  abbrev pub take : ℕ → List A → List A
  take zero xs = []
  take (suc n) [] = []
  take (suc n) (x ∷ xs) = x ∷ take n xs

  -- `xs.every(p)`
  abbrev pub all : (A → Bool) → List A → Bool
  all p [] = true
  all p (x ∷ xs) = p x && all p xs

  -- `xs.filter(p)`
  abbrev pub filter : (A → Bool) → List A → List A
  filter p [] = []
  filter p (x ∷ xs) = let rest = filter p xs in if p x then x ∷ rest else rest

  -- the first element that passes
  abbrev pub find? : (A → Bool) → List A → Option A
  find? p [] = none
  find? p (x ∷ xs) = if p x then some x else find? p xs

  -- how many elements pass
  abbrev pub count_if : (A → Bool) → List A → ℕ
  count_if p [] = 0
  count_if p (x ∷ xs) = (if p x then 1 else 0) + count_if p xs

  pub length-append : (xs ys : List A) → length (xs ++ ys) ≡ length xs + length ys
  length-append [] ys = omega arith
  length-append (x ∷ xs) ys = omega (arith, length-append xs ys)

module _ {ℓ κ} {A : Type ℓ} where
  abbrev pub All : (A → Type κ) → List A → Type κ
  All P [] = Unit
  All P (x ∷ xs) = P x × All P xs

  pub All-append : (P : A → Type κ) (xs ys : List A) → All P xs → All P ys → All P (xs ++ ys)
  All-append P [] ys hx hy = hy
  All-append P (x ∷ xs) ys hx hy = (hx.0, All-append P xs ys hx.1 hy)

module _ {ℓ} {A : Type ℓ} where
  pub count_if-append :
      (p : A → Bool) (xs ys : List A) → count_if p (xs ++ ys) ≡ count_if p xs + count_if p ys
  count_if-append p [] ys = omega arith
  count_if-append p (x ∷ xs) ys = omega (arith, count_if-append p xs ys)

  pub count_if-find? : (p : A → Bool) (xs : List A) → find? p xs ≡ none → count_if p xs ≡ 0
  count_if-find? p [] h = refl
  count_if-find? p (x ∷ xs) h = ground (arith, count_if-find? p xs)

  pub find?_sound : (p : A → Bool) (xs : List A) (x : A) → find? p xs ≡ some x → p x ≡ true
  find?_sound p [] x h = cc
  find?_sound p (y ∷ ys) x h = ground (arith, find?_sound p ys x)

  pub find?-append :
      (p : A → Bool) (xs ys : List A)
      → find? p (xs ++ ys) ≡ elim (find? p xs) [ none ↦ find? p ys | some x ↦ some x ]
  find?-append p [] ys = refl
  find?-append p (x ∷ xs) ys = ground (arith, find?-append p xs ys)

  pub one_le_count_if :
      (p q : A → Bool) (xs : List A) (x : A) → find? p xs ≡ some x → q x ≡ true → 1 ≤ count_if q xs
  one_le_count_if p q [] x h k = cc
  one_le_count_if p q (y ∷ ys) x h k = ground (arith, one_le_count_if p q ys x)

  -- Where a test passes once, it finds each element that passes it.
  pub find?_unique :
      (p q : A → Bool) (xs : List A) (x : A)
      → find? p xs ≡ some x
      → q x ≡ true
      → count_if q xs ≤ 1
      → find? q xs ≡ some x
  find?_unique p q [] x h k l = cc
  find?_unique p q (y ∷ ys) x h k l =
      ground (arith, find?_unique p q ys x, one_le_count_if p q ys x)

  pub find?-none_of_count_if : (p : A → Bool) (xs : List A) → count_if p xs ≡ 0 → find? p xs ≡ none
  find?-none_of_count_if p [] h = refl
  find?-none_of_count_if p (x ∷ xs) h = ground (arith, find?-none_of_count_if p xs)
