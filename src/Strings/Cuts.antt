-- ===== src/Strings/Cuts.antt =====
-- What the cuts leave of a text that is put together from parts.
use battle_cloud.Common.{
  ℕ, ◌≡◌, ◌≢◌, refl, ap, ◌∙◌, Bool, true, false, [], ◌∷◌, ◌++◌, arith, Text, All,
}
use battle_cloud.Strings.{split, drop_start, drop_end}

abbrev pub Passes : (ℕ → Bool) → Text → Type 0
Passes q s = All (λ c. q c ≡ true) s

-- The text is empty or its first unit fails the test.
abbrev pub Starts : (ℕ → Bool) → Text → Type 0
Starts q [] = Unit
Starts q (c ∷ s) = q c ≡ false

pub drop_start-Passes :
    (q : ℕ → Bool) (xs s : Text) → Passes q xs → Starts q s → drop_start q (xs ++ s) ≡ s
unfolding drop_start
drop_start-Passes q [] [] h k = refl
drop_start-Passes q [] (c ∷ s) h k = rw k
drop_start-Passes q (c ∷ xs) s (h, hs) k = rw h (drop_start-Passes q xs s hs k)

pub drop_end-Passes : (q : ℕ → Bool) (s : Text) → Passes q s → drop_end q s ≡ []
unfolding drop_end
drop_end-Passes q [] h = refl
drop_end-Passes q (c ∷ s) (h, hs) = rw (drop_end-Passes q s hs, h)

pub drop_end-first :
    (q : ℕ → Bool) (c : ℕ) (rest : Text) → q c ≡ false → drop_end q (c ∷ rest) ≡ c ∷ drop_end q rest
unfolding drop_end
drop_end-first q c rest h = ground arith

drop_end-cons :
    (q : ℕ → Bool) (d c : ℕ) (s kept : Text)
    → drop_end q s ≡ c ∷ kept
    → drop_end q (d ∷ s) ≡ d ∷ c ∷ kept
unfolding drop_end
drop_end-cons q d c s kept h = rw h

-- A unit that fails the test keeps all before it.
pub drop_end-append :
    (q : ℕ → Bool) (s : Text) (c : ℕ) (rest : Text)
    → q c ≡ false
    → drop_end q (s ++ c ∷ rest) ≡ s ++ c ∷ drop_end q rest
drop_end-append q [] c rest h = drop_end-first q c rest h
drop_end-append q (d ∷ []) c rest h =
    drop_end-cons q d c (c ∷ rest) (drop_end q rest) (drop_end-first q c rest h)
drop_end-append q (d ∷ e ∷ s) c rest h =
    drop_end-cons q d e (e ∷ (s ++ c ∷ rest)) (s ++ c ∷ drop_end q rest)
      (drop_end-append q (e ∷ s) c rest h)

-- `split` gives back a text without the separator, and cuts at the first one.
abbrev pub IsWithout : ℕ → Text → Type 0
IsWithout separator s = All (λ c. c ≢ separator) s

pub split_without : (separator : ℕ) (s : Text) → IsWithout separator s → split separator s ≡ s ∷ []
unfolding split
split_without separator [] h = refl
split_without separator (c ∷ s) (h, hs) = ground (arith, split_without separator s hs)

pub split-append :
    (separator : ℕ) (s rest : Text)
    → IsWithout separator s
    → split separator (s ++ separator ∷ rest) ≡ s ∷ split separator rest
unfolding split
split-append separator [] rest h = ground arith
split-append separator (c ∷ s) rest (h, hs) = ground (arith, split-append separator s rest hs)

pub drop_end-kept :
    (q : ℕ → Bool) (s rest : Text)
    → All (λ c. q c ≡ false) s
    → drop_end q (s ++ rest) ≡ s ++ drop_end q rest
drop_end-kept q [] rest h = refl
drop_end-kept q (c ∷ s) rest (h, hs) =
    drop_end-first q c (s ++ rest) h ∙ ap (λ t. c ∷ t) (drop_end-kept q s rest hs)
