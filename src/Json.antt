-- ===== src/Json.antt =====
-- JSON values, as `JSON.parse` returns them; the keys of an object are in order and distinct.
-- A number that is no natural number stands as its kind, a negative integer, a fraction or an infinity,
-- and its text; `JSON.parse` reads a literal that is too large as infinity.
use battle_cloud.Common.{ℕ, Bool, List, [], ◌∷◌, Option, none, some, Text, text_eq, if◌then◌else◌}

pub data NumberKind : Type 0 where
  negative fraction infinite : NumberKind

mutual
  pub data Json : Type 0 where
    null : Json
    bool : Bool → Json
    num : ℕ → Json
    other_num : NumberKind → Text → Json
    str : Text → Json
    arr : Items → Json
    obj : Fields → Json

  pub data Items : Type 0 where
    nil : Items
    cons : Json → Items → Items

  pub data Fields : Type 0 where
    end : Fields
    field : Text → Json → Fields → Fields

-- No infinity stands in it, which `JSON.stringify` would write as null.
abbrev mutual
  pub IsFinite : Json → Type 0
  IsFinite null = Unit
  IsFinite (bool b) = Unit
  IsFinite (num n) = Unit
  IsFinite (other_num negative raw) = Unit
  IsFinite (other_num fraction raw) = Unit
  IsFinite (other_num infinite raw) = ⊥
  IsFinite (str s) = Unit
  IsFinite (arr items) = IsFiniteItems items
  IsFinite (obj fields) = IsFiniteFields fields

  pub IsFiniteItems : Items → Type 0
  IsFiniteItems nil = Unit
  IsFiniteItems (cons json items) = IsFinite json × IsFiniteItems items

  pub IsFiniteFields : Fields → Type 0
  IsFiniteFields end = Unit
  IsFiniteFields (field key json fields) = IsFinite json × IsFiniteFields fields

-- `raw[key]`; `none` is `undefined`.
unfoldable pub get : Text → Fields → Option Json
get key end = none
get key (field k v fields) = if text_eq k key then some v else get key fields

abbrev pub object : List (Text × Json) → Fields
object [] = end
object ((key, value) ∷ entries) = field key value (object entries)

abbrev pub array : List Json → Items
array [] = nil
array (json ∷ items) = cons json (array items)
