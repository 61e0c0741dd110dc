-- ===== src/Routes/Listing/Walk.antt =====
-- The pages of the public list together.
pub mod Pages
pub mod Lost
use battle_cloud.Common.{
  ℕ, zero, suc, ◌+◌, ◌*◌, ◌≤◌, ◌<◌, ◌≡◌, refl, sym, ap, ◌∙◌, Bool, true, false, List, [], ◌∷◌, ◌++◌,
  map, Option, none, some, arith, length, length-append, take, ltb, Bool-cases, inl, inr,
  if◌then◌else◌,
}
use battle_cloud.Store.Analyses.{AnalysisSummary, Joined, to_summary}
use battle_cloud.Routes.Listing.{last}

pub take-map-take :
    (n : ℕ) (rows : List Joined)
    → take n (map to_summary (take (suc n) rows)) ≡ map to_summary (take n rows)
take-map-take zero rows = refl
take-map-take (suc n) [] = refl
take-map-take (suc n) (x ∷ rows) = ap (λ s. to_summary x ∷ s) (take-map-take n rows)

pub ltb-take :
    (n : ℕ) (rows : List Joined)
    → ltb n (length (map to_summary (take (suc n) rows))) ≡ ltb n (length rows)
ltb-take zero [] = refl
ltb-take zero (x ∷ rows) = ground arith
ltb-take (suc n) [] = refl
ltb-take (suc n) (x ∷ rows) = ground (arith, ltb-take n rows)

pub take_all : (n : ℕ) (rows : List Joined) → length rows ≤ n → take n rows ≡ rows
take_all zero [] h = refl
take_all zero (x ∷ rows) h = absurd (omega arith)
take_all (suc n) [] h = refl
take_all (suc n) (x ∷ rows) h = ap (λ s. x ∷ s) (take_all n rows (omega arith))

-- A page that is full, with its last row and the rows behind it.
pub record IsSplit (n : ℕ) (rows : List Joined) : Type 0 where
  pub init : List Joined
  pub end : Joined
  pub behind : List Joined
  pub whole : rows ≡ init ++ end ∷ behind
  pub taken : take (suc n) rows ≡ init ++ end ∷ []

pub IsSplit-page : (n : ℕ) (rows : List Joined) → n < length rows → IsSplit n rows
IsSplit-page n [] h = absurd (omega arith)
IsSplit-page zero (x ∷ rows) h = record {
  init = [];
  end = x;
  behind = rows;
  whole = refl;
  taken = refl;
}
IsSplit-page (suc n) (x ∷ rows) h =
    let s = IsSplit-page n rows (omega arith) in
    record {
      init = x ∷ s.init;
      end = s.end;
      behind = s.behind;
      whole = ap (λ r. x ∷ r) s.whole;
      taken = ap (λ r. x ∷ r) s.taken;
    }

pub last_map :
    (init : List Joined) (x : Joined) → last (map to_summary (init ++ x ∷ [])) ≡ some (to_summary x)
last_map [] x = refl
last_map (y ∷ []) x = refl
last_map (y ∷ z ∷ init) x = last_map (z ∷ init) x

pub map-append :
    (xs ys : List Joined) → map to_summary (xs ++ ys) ≡ map to_summary xs ++ map to_summary ys
map-append [] ys = refl
map-append (x ∷ xs) ys = ap (λ s. to_summary x ∷ s) (map-append xs ys)

pub append_assoc : (xs ys zs : List Joined) → (xs ++ ys) ++ zs ≡ xs ++ (ys ++ zs)
append_assoc [] ys zs = refl
append_assoc (x ∷ xs) ys zs = ap (λ s. x ∷ s) (append_assoc xs ys zs)
