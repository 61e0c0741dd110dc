-- ===== src/Store/Analyses/Order.antt =====
-- The order of the public list, and what a cursor cuts off it.
use battle_cloud.Common.{
  ◌*◌, ◌≡◌, ◌≢◌, Bool, true, false, List, [], ◌∷◌, arith, All, Bool-cases, inl, inr,
}
use battle_cloud.Platform.{Platform, IsLawful}
use battle_cloud.Store.Jobs.{to_ms}
use battle_cloud.Store.Analyses.{
  Joined, Position, position_of, position_lt, insert_row, newest_first,
}

-- The position that a cursor made from a row stands for, once it is encoded, sent back, decoded and cast:
-- its moment without the microseconds, which `toISOString` leaves out.
abbrev pub shown_position : Joined → Position
shown_position (a, r) = record { created_at = to_ms a.created_at * 1000; id = a.id }

abbrev pub IsDistinct : List Joined → Type 0
IsDistinct [] = Unit
IsDistinct (x ∷ rows) = All (λ y. y.0.id ≢ x.0.id) rows × IsDistinct rows

module _ (p : Platform) (lawful : IsLawful p) where
  abbrev pub lt : Position → Position → Bool
  lt = position_lt p

  pub lt_trans : (a b c : Position) → lt a b ≡ true → lt b c ≡ true → lt a c ≡ true
  unfolding position_lt
  lt_trans a b c h k = ground (arith, lawful.uuid_trans a.id b.id c.id)

  pub lt_irrefl : (a : Position) → lt a a ≡ false
  unfolding position_lt
  lt_irrefl a = ground (arith, lawful.uuid_irrefl a.id)

  lt_total : (a b : Position) → a.id ≢ b.id → lt a b ≡ false → lt b a ≡ true
  unfolding position_lt
  lt_total a b h k = ground (arith, lawful.uuid_total a.id b.id)

  -- Before the position that a row's cursor stands for is before the row.
  pub lt_shown :
      (a : Position) (x : Joined) → lt a (shown_position x) ≡ true → lt a (position_of x) ≡ true
  unfolding position_lt
  lt_shown a x h = ground arith

  abbrev pub IsBelow : Joined → Joined → Type 0
  IsBelow y x = lt (position_of y) (position_of x) ≡ true

  abbrev pub IsDescending : List Joined → Type 0
  IsDescending [] = Unit
  IsDescending (x ∷ rows) = All (λ y. IsBelow y x) rows × IsDescending rows

  All-insert_row :
      (P : Joined → Type 0) (x : Joined) (rows : List Joined)
      → P x
      → All P rows
      → All P (insert_row p x rows)
  unfolding insert_row
  All-insert_row P x [] h hs = (h, tt)
  All-insert_row P x (y ∷ rows) h (k, ks) = elim (Bool-cases (lt (position_of y) (position_of x))) [
    | inl e ↦ rw e (h, (k, ks))
    | inr e ↦ rw e (k, All-insert_row P x rows h ks)
  ]

  pub All-newest_first :
      (P : Joined → Type 0) (rows : List Joined) → All P rows → All P (newest_first p rows)
  unfolding newest_first
  All-newest_first P [] h = tt
  All-newest_first P (x ∷ rows) (h, hs) = All-insert_row P x _ h (All-newest_first P rows hs)

  IsBelow-trans :
      (x y : Joined) (rows : List Joined)
      → IsBelow y x
      → All (λ z. IsBelow z y) rows
      → All (λ z. IsBelow z x) rows
  IsBelow-trans x y [] h hs = tt
  IsBelow-trans x y (z ∷ rows) h (k, ks) =
      (lt_trans (position_of z) (position_of y) (position_of x) k h, IsBelow-trans x y rows h ks)

  insert_row-IsDescending :
      (x : Joined) (rows : List Joined)
      → All (λ y. y.0.id ≢ x.0.id) rows
      → IsDescending rows
      → IsDescending (insert_row p x rows)
  unfolding insert_row
  insert_row-IsDescending x [] d h = (tt, tt)
  insert_row-IsDescending x (y ∷ rows) (ne, d) (below, h) =
      elim (Bool-cases (lt (position_of y) (position_of x))) [
        | inl e ↦ rw e ((e, IsBelow-trans x y rows e below), (below, h))
        | inr e ↦
            let up = lt_total (position_of y) (position_of x) ne e in
            rw e (
              All-insert_row (λ z. IsBelow z y) x rows up below,
              insert_row-IsDescending x rows d h,
            )
      ]

  -- The list is strictly descending, newest first.
  pub newest_first-IsDescending :
      (rows : List Joined) → IsDistinct rows → IsDescending (newest_first p rows)
  unfolding newest_first
  newest_first-IsDescending [] d = tt
  newest_first-IsDescending (x ∷ rows) (d, ds) =
      insert_row-IsDescending x (newest_first p rows)
        (All-newest_first (λ y. y.0.id ≢ x.0.id) rows d) (newest_first-IsDescending rows ds)
