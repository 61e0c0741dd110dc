-- ===== src/Web/Profiles.antt =====
-- `PROFILES` and `profileLabel` of web/src/api.ts.
use battle_cloud.Common.{ℕ, ◌≡◌, ◌↔◌, ◌&&◌, List, [], ◌∷◌, arith, Text, text, ◌==◌, if◌then◌else◌}
use battle_cloud.Contract.Profiles.{Profile, ladder_parity, quick, profile_name, profiles}

pub record Shown : Type 0 where
  pub name : Profile
  pub search_budget_ms_per_turn : ℕ
  pub opponent_samples : ℕ

-- `Object.entries(PROFILES)`: the client's own copy of the parameters.
unfoldable pub shown_profiles : List Shown
shown_profiles =
    record { name = ladder_parity; search_budget_ms_per_turn = 1000; opponent_samples = 8 }
    ∷ record { name = quick; search_budget_ms_per_turn = 200; opponent_samples = 2 }
    ∷ []

label_in : List Shown → ℕ → ℕ → Text
label_in [] budget samples = text "custom"
label_in (s ∷ shown) budget samples =
    let later = label_in shown budget samples in
    if s.search_budget_ms_per_turn == budget && s.opponent_samples == samples
    then profile_name s.name
    else later

unfoldable pub profile_label : ℕ → ℕ → Text
unfolding label_in shown_profiles
profile_label budget samples = label_in shown_profiles budget samples

-- The client's copy of the profiles agrees with the API's: parameters are labelled with the name of
-- a profile exactly when the API expands that profile to them.
pub profile_label_iff :
    (profile : Profile) (budget samples : ℕ)
    → (profile_label budget samples ≡ profile_name profile) ↔ (
        ((profiles profile).search_budget_ms_per_turn ≡ budget)
        × ((profiles profile).opponent_samples ≡ samples))
unfolding profile_label profiles text
profile_label_iff ladder_parity budget samples = ground arith
profile_label_iff quick budget samples = ground arith
