-- ===== src/Contract/Checks.antt =====
-- What api/src/contract/schemas.ts takes from Zod: a schema as the test whether it accepts, of a value
-- or, for a key that may be absent, of `undefined`.
use battle_cloud.Common.{
  Bool, true, false, ◌&&◌, ◌||◌, List, [], ◌∷◌, Option, none, some, Text, text_eq,
}
use battle_cloud.Json
use battle_cloud.Json.{Json, NumberKind, negative, fraction, infinite, Items, Fields}

abbrev pub Check : Type 0
Check = Option Json → Bool

-- `z.number().int()`
abbrev pub int : Check
int (some (Json.num n)) = true
int (some (Json.other_num negative raw)) = true
int _ = false

-- `z.number().finite()`
abbrev pub finite : Check
finite (some (Json.num n)) = true
finite (some (Json.other_num negative raw)) = true
finite (some (Json.other_num fraction raw)) = true
finite _ = false

-- `z.string()`
abbrev pub string : Check
string (some (Json.str s)) = true
string _ = false

-- `z.boolean()`
abbrev pub boolean : Check
boolean (some (Json.bool b)) = true
boolean _ = false

-- `z.unknown()`
abbrev pub unknown : Check
unknown json = true

abbrev pub is_among : List Text → Text → Bool
is_among [] s = false
is_among (name ∷ names) s = text_eq s name || is_among names s

-- `z.enum(names)`
abbrev pub enum : List Text → Check
enum names (some (Json.str s)) = is_among names s
enum names _ = false

-- `.nullable()`
abbrev pub nullable : Check → Check
nullable check (some Json.null) = true
nullable check json = check json

-- `.optional()`
abbrev pub optional : Check → Check
optional check none = true
optional check (some json) = check (some json)

abbrev pub every : Check → Items → Bool
every check Json.nil = true
every check (Json.cons json items) = check (some json) && every check items

-- `z.array(check)`
abbrev pub array : Check → Check
array check (some (Json.arr items)) = every check items
array check _ = false

abbrev pub shaped : List (Text × Check) → Fields → Bool
shaped [] fields = true
shaped ((key, check) ∷ shape) fields = check (Json.get key fields) && shaped shape fields

abbrev pub is_key : List (Text × Check) → Text → Bool
is_key [] key = false
is_key ((known, check) ∷ shape) key = text_eq key known || is_key shape key

abbrev pub known : List (Text × Check) → Fields → Bool
known shape Json.end = true
known shape (Json.field key json fields) = is_key shape key && known shape fields

-- `z.object(shape).passthrough()`
abbrev pub passthrough : List (Text × Check) → Check
passthrough shape (some (Json.obj fields)) = shaped shape fields
passthrough shape _ = false

-- `z.object(shape).strict()`
abbrev pub strict : List (Text × Check) → Check
strict shape (some (Json.obj fields)) = shaped shape fields && known shape fields
strict shape _ = false
