-- ===== src/Web/ReplayId.antt =====
-- `parseReplayId` of web/src/api.ts.
pub mod Chars
pub mod Pasted
use battle_cloud.Common.{
  ℕ, ◌≡◌, ◌≢◌, ◌↔◌, refl, sym, ap, ◌∙◌, Bool, true, false, ◌&&◌, ◌||◌, inl, inr, List, [], ◌∷◌,
  ◌++◌, Option, none, some, arith, Text, text, All, All-append, all, length, leb, includes,
  Bool-cases, ◌==◌, if◌then◌else◌,
}
use battle_cloud.Strings.{split, is_space, drop_start, drop_end, trim}
use battle_cloud.Strings.Cuts.{
  Passes, Starts, drop_start-Passes, drop_end-Passes, drop_end-append, IsWithout, split_without,
  split-append,
}
use battle_cloud.Contract.Identity.{is_alnum, is_id_char, safe_replay_id, is_safe_replay_id}

-- `xs[0] ?? fallback`
abbrev pub first_or : Text → List Text → Text
first_or fallback [] = fallback
first_or fallback (s ∷ parts) = s

-- `xs.pop() ?? ''`
abbrev pub last_part : List Text → Text
last_part [] = []
last_part (s ∷ []) = s
last_part (s ∷ t ∷ parts) = last_part (t ∷ parts)

abbrev pub is_slash : ℕ → Bool
is_slash c = c == b'/'

-- The pattern is anchored at the end of the text: the run of slashes there is removed.
unfoldable pub parse_replay_id : Text → Text
unfolding split trim drop_end
parse_replay_id input =
    let trimmed = trim input in
    let without_query = first_or trimmed (split b'?' trimmed) in
    last_part (split b'/' (drop_end is_slash without_query))
