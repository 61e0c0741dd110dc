-- ===== src/Store/Analyses/Cut.antt =====
-- What the condition of the list's statement cuts off the sorted rows.
use battle_cloud.Common.{
  ◌*◌, ◌%◌, ◌<◌, ◌≡◌, refl, Bool, true, false, Option, none, some, List, [], ◌∷◌, ◌++◌, arith,
  filter, if◌then◌else◌, All, Bool-cases, ◌⊎◌, inl, inr,
}
use battle_cloud.Platform.{Platform, IsLawful}
use battle_cloud.Store.Jobs.{to_ms}
use battle_cloud.Store.Analyses.{
  Joined, Position, position_of, position_lt, insert_row, newest_first, is_after,
}
use battle_cloud.Store.Analyses.Order.{
  shown_position, IsDistinct, lt, lt_trans, lt_irrefl, lt_shown, IsBelow, IsDescending,
  newest_first-IsDescending,
}

filter-All :
    (q : Joined → Bool) (rows : List Joined) → All (λ y. q y ≡ true) rows → filter q rows ≡ rows
filter-All q [] h = refl
filter-All q (x ∷ rows) (h, hs) = rw (h, filter-All q rows hs)

filter_none :
    (q : Joined → Bool) (rows : List Joined) → All (λ y. q y ≡ false) rows → filter q rows ≡ []
filter_none q [] h = refl
filter_none q (x ∷ rows) (h, hs) = rw (h, filter_none q rows hs)

filter-append :
    (q : Joined → Bool) (xs ys : List Joined) → filter q (xs ++ ys) ≡ filter q xs ++ filter q ys
filter-append q [] ys = refl
filter-append q (x ∷ xs) ys = ground (arith, filter-append q xs ys)

pub All-at :
    (P : Joined → Type 0) (above : List Joined) (b : Joined) (below : List Joined)
    → All P (above ++ b ∷ below)
    → P b
All-at P [] b below h = h.0
All-at P (a ∷ above) b below h = All-at P above b below h.1

module _ (p : Platform) (lawful : IsLawful p) where
  after_closed :
      (c : Option Position) (x y : Joined)
      → is_after p c x ≡ true
      → IsBelow p lawful y x
      → is_after p c y ≡ true
  unfolding is_after
  after_closed none x y h k = refl
  after_closed (some c) x y h k = lt_trans p lawful (position_of y) (position_of x) c k h

  after-All :
      (c : Option Position) (x : Joined) (rows : List Joined)
      → is_after p c x ≡ true
      → All (λ y. IsBelow p lawful y x) rows
      → All (λ y. is_after p c y ≡ true) rows
  after-All c x [] h k = tt
  after-All c x (y ∷ rows) h (k, ks) = (after_closed c x y h k, after-All c x rows h ks)

  filter-insert_row :
      (c : Option Position) (x : Joined) (rows : List Joined)
      → IsDescending p lawful rows
      → filter (is_after p c) (insert_row p x rows) ≡ (
          if is_after p c x
          then insert_row p x (filter (is_after p c) rows)
          else filter (is_after p c) rows)
  unfolding insert_row
  filter-insert_row c x [] d = refl
  filter-insert_row c x (y ∷ rows) (below, d) =
      elim (Bool-cases (position_lt p (position_of y) (position_of x))) [
        | inl e ↦ elim (Bool-cases (is_after p c x)) [
          | inl h ↦
              let hy = after_closed c x y h e in
              let rest = filter-All (is_after p c) rows (after-All c y rows hy below) in
              rw (e, insert_row, h, hy, rest, insert_row, e)
          | inr h ↦ rw (e, insert_row, h)
        ]
        | inr e ↦ ground (arith, filter-insert_row c x rows d)
      ]

  -- Selecting before sorting is selecting after sorting.
  pub newest_first-filter :
      (c : Option Position) (rows : List Joined)
      → IsDistinct rows
      → newest_first p (filter (is_after p c) rows) ≡ filter (is_after p c) (newest_first p rows)
  unfolding newest_first
  newest_first-filter c [] d = refl
  newest_first-filter c (x ∷ rows) (ne, d) =
      let sorted = newest_first-IsDescending p lawful rows d in
      ground
        (arith, newest_first-filter c rows d, filter-insert_row c x (newest_first p rows) sorted)

  -- A row that the cursor of `b` would pass over though it comes behind `b`: the two rows share a
  -- millisecond.
  abbrev pub IsApart : Joined → Joined → Type 0
  IsApart b a =
      IsBelow p lawful a b
      → (to_ms a.0.created_at < to_ms b.0.created_at) ⊎ (b.0.created_at % 1000 ≡ 0)

  -- Of any two rows, the older lies in an earlier millisecond, or the newer at a whole one.
  abbrev pub IsSeparated : List Joined → Type 0
  IsSeparated rows = All (λ b. All (λ a. IsApart b a) rows) rows

  apart_shown :
      (b a : Joined)
      → IsApart b a
      → IsBelow p lawful a b
      → is_after p (some (shown_position b)) a ≡ true
  unfolding is_after position_lt
  apart_shown b a h k = elim (h k) [
    | inl earlier ↦ ground arith
    | inr whole ↦ let same : to_ms b.0.created_at * 1000 ≡ b.0.created_at = omega arith in rw same k
  ]

  not_after :
      (b a : Joined)
      → lt p lawful (position_of b) (position_of a) ≡ true
      → is_after p (some (shown_position b)) a ≡ false
  unfolding is_after
  not_after b a h = elim (Bool-cases (lt p lawful (position_of a) (shown_position b))) [
    | inr e ↦ e
    | inl e ↦ cc (
      lt_irrefl p lawful (position_of a),
      lt_trans p lawful (position_of a) (position_of b) (position_of a)
          (lt_shown p lawful (position_of a) b e) h,
    )
  ]

  not_after_self : (b : Joined) → is_after p (some (shown_position b)) b ≡ false
  unfolding is_after
  not_after_self b = elim (Bool-cases (lt p lawful (position_of b) (shown_position b))) [
    | inr e ↦ e
    | inl e ↦ cc (lt_irrefl p lawful (position_of b), lt_shown p lawful (position_of b) b e)
  ]

  drop_above :
      (above : List Joined) (b : Joined) (below : List Joined)
      → IsDescending p lawful (above ++ b ∷ below)
      → All (λ a. is_after p (some (shown_position b)) a ≡ false) above
  drop_above [] b below d = tt
  drop_above (a ∷ above) b below (h, d) = (
    not_after b a (All-at (λ y. IsBelow p lawful y a) above b below h),
    drop_above above b below d,
  )

  descending-IsBelow :
      (above : List Joined) (b : Joined) (below : List Joined)
      → IsDescending p lawful (above ++ b ∷ below)
      → All (λ a. IsBelow p lawful a b) below
  descending-IsBelow [] b below d = d.0
  descending-IsBelow (a ∷ above) b below d = descending-IsBelow above b below d.1

  keep_below :
      (b : Joined) (below : List Joined)
      → All (λ a. IsApart b a) below
      → All (λ a. IsBelow p lawful a b) below
      → All (λ a. is_after p (some (shown_position b)) a ≡ true) below
  keep_below b [] h k = tt
  keep_below b (a ∷ below) (h, hs) (k, ks) = (apart_shown b a h k, keep_below b below hs ks)

  -- In a sorted list of separated rows, the cursor of a row cuts off that row and all before it.
  pub filter_cut :
      (above : List Joined) (b : Joined) (below : List Joined)
      → IsDescending p lawful (above ++ b ∷ below)
      → All (λ a. IsApart b a) below
      → filter (is_after p (some (shown_position b))) (above ++ b ∷ below) ≡ below
  filter_cut above b below d h =
      let after = is_after p (some (shown_position b)) in
      let kept =
        filter-All after below (keep_below b below h (descending-IsBelow above b below d)) in
      let dropped = filter_none after above (drop_above above b below d) in
      rw (filter-append after above (b ∷ below), dropped, not_after_self b, kept)
