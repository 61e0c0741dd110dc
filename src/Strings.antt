-- ===== src/Strings.antt =====
-- Methods of JavaScript strings that several files of the source use.
pub mod Cuts
use battle_cloud.Common.{ℕ, Bool, ◌&&◌, ◌||◌, List, [], ◌∷◌, Text, leb, ◌==◌, if◌then◌else◌}

abbrev cons_head : ℕ → List Text → List Text
cons_head c [] = (c ∷ []) ∷ []
cons_head c (l ∷ ls) = (c ∷ l) ∷ ls

-- `split(separator)` at one code unit
unfoldable pub split : ℕ → Text → List Text
split separator [] = [] ∷ []
split separator (c ∷ s) =
    let rest = split separator s in if c == separator then [] ∷ rest else cons_head c rest

-- The white space that `trim` removes.
unfoldable pub is_space : ℕ → Bool
is_space c =
    (leb 9 c && leb c 13)
    || c == 32
    || c == 0xA0
    || c == 0x1680
    || (leb 0x2000 c && leb c 0x200A)
    || c == 0x2028
    || c == 0x2029
    || c == 0x202F
    || c == 0x205F
    || c == 0x3000
    || c == 0xFEFF

-- The text from the first unit that fails the test on.
unfoldable pub drop_start : (ℕ → Bool) → Text → Text
drop_start q [] = []
drop_start q (c ∷ s) = let rest = drop_start q s in if q c then rest else c ∷ s

-- The text up to the last unit that fails the test.
unfoldable pub drop_end : (ℕ → Bool) → Text → Text
drop_end q [] = []
drop_end q (c ∷ s) = elim (drop_end q s) [
  | [] ↦ if q c then [] else c ∷ []
  | d ∷ rest ↦ c ∷ d ∷ rest
]

-- `s.trim()`
unfoldable pub trim : Text → Text
unfolding is_space drop_start drop_end
trim s = drop_end is_space (drop_start is_space s)
