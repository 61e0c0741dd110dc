-- ===== src/Web/App.antt =====
-- The hash routes of web/src/app.tsx.
use battle_cloud.Common.{
  ℕ, ◌≡◌, ◌↔◌, refl, sym, subst, Bool, not, ◌&&◌, ◌||◌, ◌==◌, [], ◌∷◌, ◌++◌, Option, none, some,
  Text, text, all, arith, Bool-cases, inl, inr, if◌then◌else◌,
}
use battle_cloud.Contract.Identity.{is_alnum}

-- What the app shows.
pub data Screen : Type 0 where
  analysis_screen : Text → Screen
  job_screen : Text → Screen
  home_screen : Screen

-- `[\w-]`
abbrev pub is_word_char : ℕ → Bool
is_word_char c = is_alnum c || c == b'_' || c == b'-'

-- `hash.replace(/^#/, '') || '/'`
unfoldable pub route_of : Text → Text
route_of [] = text "/"
route_of (c ∷ hash) =
    if not (c == b'#') then c ∷ hash else elim hash [ [] ↦ text "/" | d ∷ route ↦ d ∷ route ]

abbrev pub word : Text → Option Text
word [] = none
word (c ∷ id) = if all is_word_char (c ∷ id) then some (c ∷ id) else none

-- `/^\/a\/([\w-]+)$/.exec(route)` and the same for `j`, with the group.
unfoldable pub matched : ℕ → Text → Option Text
matched letter (c ∷ d ∷ e ∷ id) = if c == b'/' && (d == letter && e == b'/') then word id else none
matched letter _ = none

abbrev pub job_or_home : Option Text → Screen
job_or_home none = home_screen
job_or_home (some id) = job_screen id

abbrev pub screen_of : Option Text → Option Text → Screen
screen_of none job = job_or_home job
screen_of (some id) job = analysis_screen id

-- `App`
unfoldable pub screen : Text → Screen
unfolding matched
screen route = screen_of (matched b'a' route) (matched b'j' route)

word_sound : (s id : Text) → word s ≡ some id → s ≡ id
word_sound [] id h = cc
word_sound (c ∷ s) id h = ground arith

matched_sound :
    (letter : ℕ) (route id : Text)
    → matched letter route ≡ some id
    → (route ≡ b'/' ∷ letter ∷ b'/' ∷ id) × word id ≡ some id
unfolding matched
matched_sound letter [] id h = cc
matched_sound letter (c ∷ []) id h = cc
matched_sound letter (c ∷ d ∷ []) id h = cc
matched_sound letter (c ∷ d ∷ e ∷ s) id h =
    elim (Bool-cases (c == b'/' && (d == letter && e == b'/'))) [
      | inl k ↦
          let same : word s ≡ some id = cc (h, k) in
          let whole : s ≡ id = word_sound s id same in
          let first : (c ≡ b'/') × (d ≡ letter) × (e ≡ b'/') = ground arith in
          (rw (first.0, first.1, first.2, whole) refl, subst (λ t. word t ≡ some id) whole same)
      | inr k ↦ cc (h, k)
    ]

matched-of :
    (letter : ℕ) (id : Text)
    → word id ≡ some id
    → matched letter (b'/' ∷ letter ∷ b'/' ∷ id) ≡ some id
unfolding matched
matched-of letter id h = ground arith

screen-analysis : (a j : Option Text) (id : Text) → screen_of a j ≡ analysis_screen id → a ≡ some id
screen-analysis none none id h = cc
screen-analysis none (some b) id h = cc
screen-analysis (some b) j id h = cc h

screen-job : (a j : Option Text) (id : Text) → screen_of a j ≡ job_screen id → j ≡ some id
screen-job none none id h = cc
screen-job none (some b) id h = cc h
screen-job (some b) j id h = cc

-- An analysis is shown exactly at the route `/a/` with its id, a job exactly at `/j/` with its id,
-- where the id has at least one letter, digit, underscore or dash and nothing else.
pub screen_iff :
    (route id : Text)
    → (screen route ≡ analysis_screen id ↔ ((route ≡ text "/a/" ++ id) × word id ≡ some id))
      × (screen route ≡ job_screen id ↔ ((route ≡ text "/j/" ++ id) × word id ≡ some id))
unfolding screen text
screen_iff route id = (
  (
    (λ h.
        matched_sound b'a' route id
          (screen-analysis (matched b'a' route) (matched b'j' route) id h)),
    (λ h.
        subst (λ r. screen r ≡ analysis_screen id) (sym (h.0))
          (rw (matched-of b'a' id (h.1)) refl)),
  ),
  (
    (λ h. matched_sound b'j' route id (screen-job (matched b'a' route) (matched b'j' route) id h)),
    (λ h.
        subst (λ r. screen r ≡ job_screen id) (sym (h.0))
          (rw (matched-of b'j' id (h.1)) (unfold matched in refl))),
  ),
)
