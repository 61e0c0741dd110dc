-- ===== src/Replay/Estimate.antt =====
-- api/src/replay/estimate.ts: the turn count of a log, and the search time that it stands for.
use battle_cloud.Common.{
  ℕ, ◌+◌, ◌*◌, ◌^◌, ◌<◌, ◌≤◌, ◌≡◌, refl, sym, subst, ◌∙◌, inl, inr, Bool, List, [], ◌∷◌, ◌++◌,
  arith, Text, length, count_if, All, Bool-cases, ==_iff, ◌==◌, if◌then◌else◌,
}
use battle_cloud.Contract.Profiles.{Profile, ladder_parity, quick, search_time_ms}
use battle_cloud.Strings.{split}
use battle_cloud.Replay.Lines.{
  lf, cr, crlf_to_lf, cr_to_lf, is_turn_line, IsClean, normalize, normalize-cons, normalize_crlf,
  normalize-cr, normalize-append_clean, split-append_clean, length-crlf_to_lf, length-cr_to_lf,
  is_turn_line-length,
}

-- The loop over the lines.
count_turns : ℕ → List Text → ℕ
count_turns count [] = count
count_turns count (line ∷ lines) =
    count_turns (if is_turn_line line then count + 1 else count) lines

unfoldable pub estimate_turns : Text → ℕ
unfolding count_turns
estimate_turns log = count_turns 0 (split lf (normalize log))

unfoldable pub estimate_duration : ℕ → Profile → ℕ
unfolding search_time_ms
estimate_duration turns profile = search_time_ms turns profile

count_turns-eq : (n : ℕ) (lines : List Text) → count_turns n lines ≡ n + count_if is_turn_line lines
unfolding count_turns
count_turns-eq n [] = omega arith
count_turns-eq n (line ∷ lines) =
    ground (arith, count_turns-eq (n + 1) lines, count_turns-eq n lines)

abbrev turn_count : Text → ℕ
turn_count x = count_if is_turn_line (split lf x)

estimate_turns-eq : (log : Text) → estimate_turns log ≡ turn_count (normalize log)
unfolding estimate_turns
estimate_turns-eq log = omega (arith, count_turns-eq 0 (split lf (normalize log)))

turn_count-lf : (x : Text) → turn_count (lf ∷ x) ≡ turn_count x
unfolding split is_turn_line
turn_count-lf x = ground arith

-- How a line may end.
pub data Ending : Type 0 where
  unix windows old_mac : Ending

abbrev pub ending_text : Ending → Text
ending_text unix = lf ∷ []
ending_text windows = cr ∷ lf ∷ []
ending_text old_mac = cr ∷ []

-- A log, as its lines with their endings and an unterminated last line.
abbrev pub assemble : List (Text × Ending) → Text → Text
assemble [] last = last
assemble ((line, ending) ∷ lines) last = line ++ (ending_text ending ++ assemble lines last)

-- An ending becomes one line feed, or is absorbed by the empty line behind it.
abbrev Starts : Text → Text → Type 0
Starts whole rest =
    (x : Text) × (normalize whole ≡ lf ∷ x) × (turn_count x ≡ turn_count (normalize rest))

Starts-crlf : (r : Text) → Starts (cr ∷ lf ∷ r) (lf ∷ r)
Starts-crlf r = (
  normalize r,
  normalize_crlf r,
  rw (normalize-cons lf r (omega arith)) (sym (turn_count-lf (normalize r))),
)

Starts-old_mac : (s : Text) → Starts (cr ∷ s) s
unfolding crlf_to_lf cr_to_lf
Starts-old_mac [] = ([], refl, refl)
Starts-old_mac (d ∷ r) = elim (Bool-cases (d == lf)) [
  | inl e ↦ subst (λ c. Starts (cr ∷ c ∷ r) (c ∷ r)) (sym ((==_iff d lf).0 e)) (Starts-crlf r)
  | inr e ↦ (normalize (d ∷ r), normalize-cr d r (ground arith), refl)
]

Starts-ending : (e : Ending) (s : Text) → Starts (ending_text e ++ s) s
Starts-ending unix s = (normalize s, normalize-cons lf s (omega arith), refl)
Starts-ending windows s = (normalize s, normalize_crlf s, refl)
Starts-ending old_mac s = Starts-old_mac s

abbrev pub one_if : Bool → ℕ
one_if b = if b then 1 else 0

turn_count-clean :
    (line x : Text)
    → IsClean line
    → turn_count (line ++ lf ∷ x) ≡ one_if (is_turn_line line) + turn_count x
turn_count-clean line x h = rw (split-append_clean line x h)

turn_count-line :
    (line : Text) (e : Ending) (s : Text)
    → IsClean line
    → turn_count (normalize (line ++ (ending_text e ++ s)))
      ≡ one_if (is_turn_line line) + turn_count (normalize s)
turn_count-line line e s h =
    let (x, starts, same) = Starts-ending e s in
    rw (normalize-append_clean line (ending_text e ++ s) h, starts, turn_count-clean line x h, same)

split_clean : (line : Text) → IsClean line → split lf line ≡ line ∷ []
unfolding split
split_clean [] h = refl
split_clean (c ∷ line) ((_, h), hs) = ground (arith, split_clean line hs)

normalize_clean : (line : Text) → IsClean line → normalize line ≡ line
unfolding crlf_to_lf cr_to_lf
normalize_clean [] h = refl
normalize_clean (c ∷ line) ((h, _), hs) =
    ground (arith, normalize-cons c line h, normalize_clean line hs)

turn_count-assemble :
    (lines : List (Text × Ending)) (last : Text)
    → All (λ l. IsClean l.0) lines
    → IsClean last
    → turn_count (normalize (assemble lines last))
      ≡ count_if (λ l. is_turn_line l.0) lines + one_if (is_turn_line last)
turn_count-assemble [] last h k = rw (normalize_clean last k, split_clean last k) (omega arith)
turn_count-assemble ((line, e) ∷ lines) last (h, hs) k =
    omega
      (arith, turn_count-line line e (assemble lines last) h, turn_count-assemble lines last hs k)

-- For a log of lines with no terminator inside, each ended by a line feed, a carriage return or
-- both, the estimate is the number of turn lines: how the lines end makes no difference.
pub estimate_turns-assemble :
    (lines : List (Text × Ending)) (last : Text)
    → All (λ l. IsClean l.0) lines
    → IsClean last
    → estimate_turns (assemble lines last)
      ≡ count_if (λ l. is_turn_line l.0) lines + one_if (is_turn_line last)
estimate_turns-assemble lines last h k =
    estimate_turns-eq (assemble lines last) ∙ turn_count-assemble lines last h k

abbrev turn_weight : List Text → ℕ
turn_weight lines = 8 * count_if is_turn_line lines

abbrev total_length : List Text → ℕ
total_length [] = 0
total_length (line ∷ lines) = length line + 1 + total_length lines

turn_weight-le : (lines : List Text) → turn_weight lines ≤ total_length lines
turn_weight-le [] = omega arith
turn_weight-le (line ∷ lines) = ground (arith, turn_weight-le lines, is_turn_line-length line)

split-length : (x : Text) → total_length (split lf x) ≡ length x + 1
unfolding split
split-length [] = omega arith
split-length (c ∷ x) = ground (arith, split-length x)

-- A turn line takes at least eight code units with its terminator, so the estimate is bounded by
-- the length of the log.
pub estimate_turns-le : (log : Text) → 8 * estimate_turns log ≤ length log + 1
estimate_turns-le log = omega (
  arith,
  estimate_turns-eq log,
  turn_weight-le (split lf (normalize log)),
  split-length (normalize log),
  length-cr_to_lf (crlf_to_lf log),
  length-crlf_to_lf log,
)

-- For a log of at most 5 * 1024 * 1024 code units, both estimates fit the 32-bit columns that store them.
pub estimate_fits :
    (log : Text) (profile : Profile)
    → length log ≤ 5 * 1024 * 1024
    → (estimate_turns log < 2 ^ 31) × (estimate_duration (estimate_turns log) profile < 2 ^ 31)
unfolding estimate_duration
estimate_fits log ladder_parity h = omega (arith, estimate_turns-le log)
estimate_fits log quick h = omega (arith, estimate_turns-le log)
