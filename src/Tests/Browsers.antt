-- ===== src/Tests/Browsers.antt =====
-- A browser for the tests: JSON as a program for a stack machine, which reads it back.
use battle_cloud.Common.{
  ℕ, ◌≡◌, refl, ◌∙◌, true, false, List, [], ◌∷◌, Option, none, some, Text, ◌==◌, if◌then◌else◌,
}
use battle_cloud.Json
use battle_cloud.Json.{Json, NumberKind, negative, fraction, infinite, Items, Fields}
use battle_cloud.Web.Client.{Browser}
use battle_cloud.Web.Client.Served.{IsLawful}

pub data Value : Type 0 where
  json : Json → Value
  items : Items → Value
  fields : Fields → Value
  chars : Text → Value

pub data Op : Type 0 where
  op_null op_bool op_num op_str op_empty op_unit op_other op_arr op_nil op_cons op_obj op_end
        op_field :
      Op

abbrev op_of : ℕ → Op
op_of n =
    if n == 0
    then op_null
    else if n == 1
    then op_bool
    else if n == 2
    then op_num
    else if n == 3
    then op_str
    else if n == 4
    then op_empty
    else if n == 5
    then op_unit
    else if n == 6
    then op_other
    else if n == 7
    then op_arr
    else if n == 8
    then op_nil
    else if n == 9
    then op_cons
    else if n == 10
    then op_obj
    else if n == 11
    then op_end
    else op_field

abbrev kind_code : NumberKind → ℕ
kind_code negative = 0
kind_code fraction = 1
kind_code infinite = 2

abbrev kind_of : ℕ → NumberKind
kind_of n = if n == 0 then negative else if n == 1 then fraction else infinite

-- Every instruction is a code and a number.
abbrev put_text : Text → Text → Text
put_text [] rest = 4 ∷ 0 ∷ rest
put_text (c ∷ s) rest = put_text s (5 ∷ c ∷ rest)

abbrev mutual
  put_json : Json → Text → Text
  put_json Json.null rest = 0 ∷ 0 ∷ rest
  put_json (Json.bool true) rest = 1 ∷ 1 ∷ rest
  put_json (Json.bool false) rest = 1 ∷ 0 ∷ rest
  put_json (Json.num n) rest = 2 ∷ n ∷ rest
  put_json (Json.str s) rest = put_text s (3 ∷ 0 ∷ rest)
  put_json (Json.other_num k s) rest = put_text s (6 ∷ kind_code k ∷ rest)
  put_json (Json.arr a) rest = put_items a (7 ∷ 0 ∷ rest)
  put_json (Json.obj o) rest = put_fields o (10 ∷ 0 ∷ rest)

  put_items : Items → Text → Text
  put_items Json.nil rest = 8 ∷ 0 ∷ rest
  put_items (Json.cons j a) rest = put_json j (put_items a (9 ∷ 0 ∷ rest))

  put_fields : Fields → Text → Text
  put_fields Json.end rest = 11 ∷ 0 ∷ rest
  put_fields (Json.field k j o) rest = put_text k (put_json j (put_fields o (12 ∷ 0 ∷ rest)))

abbrev exec : Op → ℕ → List Value → List Value
exec op_null n stack = json Json.null ∷ stack
exec op_bool n stack = json (Json.bool (n == 1)) ∷ stack
exec op_num n stack = json (Json.num n) ∷ stack
exec op_str n (chars s ∷ stack) = json (Json.str s) ∷ stack
exec op_empty n stack = chars [] ∷ stack
exec op_unit n (chars s ∷ stack) = chars (n ∷ s) ∷ stack
exec op_other n (chars s ∷ stack) = json (Json.other_num (kind_of n) s) ∷ stack
exec op_arr n (items a ∷ stack) = json (Json.arr a) ∷ stack
exec op_nil n stack = items Json.nil ∷ stack
exec op_cons n (items a ∷ json j ∷ stack) = items (Json.cons j a) ∷ stack
exec op_obj n (fields o ∷ stack) = json (Json.obj o) ∷ stack
exec op_end n stack = fields Json.end ∷ stack
exec op_field n (fields o ∷ json j ∷ chars k ∷ stack) = fields (Json.field k j o) ∷ stack
exec _ n stack = []

abbrev only : List Value → Option Json
only (json j ∷ []) = some j
only _ = none

abbrev taken : Text → List Value → Option Json
taken [] stack = only stack
taken (code ∷ []) stack = none
taken (code ∷ n ∷ rest) stack = taken rest (exec (op_of code) n stack)

taken-text :
    (s rest : Text) (stack : List Value)
    → taken (put_text s rest) stack ≡ taken rest (chars s ∷ stack)
taken-text [] rest stack = refl
taken-text (c ∷ s) rest stack = taken-text s (5 ∷ c ∷ rest) stack

mutual
  taken-json :
      (j : Json) (rest : Text) (stack : List Value)
      → taken (put_json j rest) stack ≡ taken rest (json j ∷ stack)
  taken-json Json.null rest stack = refl
  taken-json (Json.bool true) rest stack = refl
  taken-json (Json.bool false) rest stack = refl
  taken-json (Json.num n) rest stack = refl
  taken-json (Json.str s) rest stack = taken-text s (3 ∷ 0 ∷ rest) stack
  taken-json (Json.other_num negative s) rest stack = taken-text s (6 ∷ 0 ∷ rest) stack
  taken-json (Json.other_num fraction s) rest stack = taken-text s (6 ∷ 1 ∷ rest) stack
  taken-json (Json.other_num infinite s) rest stack = taken-text s (6 ∷ 2 ∷ rest) stack
  taken-json (Json.arr a) rest stack = taken-items a (7 ∷ 0 ∷ rest) stack
  taken-json (Json.obj o) rest stack = taken-fields o (10 ∷ 0 ∷ rest) stack

  taken-items :
      (a : Items) (rest : Text) (stack : List Value)
      → taken (put_items a rest) stack ≡ taken rest (items a ∷ stack)
  taken-items Json.nil rest stack = refl
  taken-items (Json.cons j a) rest stack =
      taken-json j (put_items a (9 ∷ 0 ∷ rest)) stack
      ∙ taken-items a (9 ∷ 0 ∷ rest) (json j ∷ stack)

  taken-fields :
      (o : Fields) (rest : Text) (stack : List Value)
      → taken (put_fields o rest) stack ≡ taken rest (fields o ∷ stack)
  taken-fields Json.end rest stack = refl
  taken-fields (Json.field k j o) rest stack =
      taken-text k (put_json j (put_fields o (12 ∷ 0 ∷ rest))) stack
      ∙ taken-json j (put_fields o (12 ∷ 0 ∷ rest)) (chars k ∷ stack)
      ∙ taken-fields o (12 ∷ 0 ∷ rest) (json j ∷ chars k ∷ stack)

abbrev pub browser : Browser
browser = record { stringify = λ j. put_json j []; parse = λ s. taken s []; form_encode = λ s. s }

pub browser-IsLawful : IsLawful browser
browser-IsLawful = record { round = λ j h. taken-json j [] []; empty = refl }
