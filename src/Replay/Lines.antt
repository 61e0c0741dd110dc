-- ===== src/Replay/Lines.antt =====
-- The text methods that the estimate uses: line endings and the test of a turn line.
use battle_cloud.Strings.{split}
use battle_cloud.Common.{
  ℕ, ◌≤◌, ◌≡◌, ◌≢◌, Bool, true, ◌&&◌, [], ◌∷◌, ◌++◌, arith, Text, text, starts_with, all, All,
  length, leb, ◌==◌, if◌then◌else◌,
}

abbrev pub lf : ℕ
lf = 10

abbrev pub cr : ℕ
cr = 13

-- `replace(/\r\n/g, '\n')`
unfoldable pub crlf_to_lf : Text → Text
crlf_to_lf [] = []
crlf_to_lf (c ∷ []) = c ∷ []
crlf_to_lf (c ∷ d ∷ rest) =
    let pair = lf ∷ crlf_to_lf rest in
    let single = c ∷ crlf_to_lf (d ∷ rest) in if c == cr && d == lf then pair else single

-- `replace(/\r/g, '\n')`
unfoldable pub cr_to_lf : Text → Text
cr_to_lf [] = []
cr_to_lf (c ∷ s) = (if c == cr then lf else c) ∷ cr_to_lf s

-- \d
abbrev pub is_digit : ℕ → Bool
is_digit c = leb b'0' c && leb c b'9'

abbrev pub drop_turn : Text → Text
drop_turn (_ ∷ _ ∷ _ ∷ _ ∷ _ ∷ _ ∷ rest) = rest
drop_turn _ = []

-- /^\|turn\|\d+$/
unfoldable pub is_turn_line : Text → Bool
unfolding text
is_turn_line line =
    starts_with (text "|turn|") line
    && leb 1 (length (drop_turn line))
    && all is_digit (drop_turn line)

-- A line with no terminator in it.
abbrev pub IsClean : Text → Type 0
IsClean line = All (λ c. (c ≢ cr) × (c ≢ lf)) line

abbrev pub normalize : Text → Text
normalize log = cr_to_lf (crlf_to_lf log)

pub normalize-cons : (c : ℕ) (s : Text) → c ≢ cr → normalize (c ∷ s) ≡ c ∷ normalize s
unfolding crlf_to_lf cr_to_lf
normalize-cons c [] h = ground arith
normalize-cons c (d ∷ s) h = ground arith

pub normalize_crlf : (s : Text) → normalize (cr ∷ lf ∷ s) ≡ lf ∷ normalize s
unfolding crlf_to_lf cr_to_lf
normalize_crlf s = ground arith

pub normalize-cr : (d : ℕ) (s : Text) → d ≢ lf → normalize (cr ∷ d ∷ s) ≡ lf ∷ normalize (d ∷ s)
unfolding crlf_to_lf cr_to_lf
normalize-cr d s h = ground arith

pub normalize-append_clean :
    (line s : Text) → IsClean line → normalize (line ++ s) ≡ line ++ normalize s
normalize-append_clean [] s h = ground arith
normalize-append_clean (c ∷ line) s ((h, _), hs) =
    ground (arith, normalize-cons c (line ++ s) h, normalize-append_clean line s hs)

-- Up to the first separator, `split` gives the text back.
pub split-append_clean :
    (line x : Text) → IsClean line → split lf (line ++ lf ∷ x) ≡ line ∷ split lf x
unfolding split
split-append_clean [] x h = ground arith
split-append_clean (c ∷ line) x ((_, h), hs) = ground (arith, split-append_clean line x hs)

pub length-crlf_to_lf : (s : Text) → length (crlf_to_lf s) ≤ length s
unfolding crlf_to_lf
length-crlf_to_lf [] = omega arith
length-crlf_to_lf (c ∷ []) = omega arith
length-crlf_to_lf (c ∷ d ∷ rest) =
    ground (arith, length-crlf_to_lf rest, length-crlf_to_lf (d ∷ rest))

pub length-cr_to_lf : (s : Text) → length (cr_to_lf s) ≡ length s
unfolding cr_to_lf
length-cr_to_lf [] = omega arith
length-cr_to_lf (c ∷ s) = omega (arith, length-cr_to_lf s)

pub is_turn_line-length : (line : Text) → is_turn_line line ≡ true → 7 ≤ length line
unfolding is_turn_line
is_turn_line-length [] h = ground arith
is_turn_line-length (a ∷ []) h = ground arith
is_turn_line-length (a ∷ b ∷ []) h = ground arith
is_turn_line-length (a ∷ b ∷ c ∷ []) h = ground arith
is_turn_line-length (a ∷ b ∷ c ∷ d ∷ []) h = ground arith
is_turn_line-length (a ∷ b ∷ c ∷ d ∷ e ∷ []) h = ground arith
is_turn_line-length (a ∷ b ∷ c ∷ d ∷ e ∷ f ∷ rest) h = ground arith
