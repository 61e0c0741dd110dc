-- ===== src/Contract/Uri.antt =====
-- `encodeURIComponent` and `String(n)`, which api/src/contract/identity.ts builds keys with.
pub mod Utf8
pub mod Injective
pub mod Decimal
pub mod Separator
use battle_cloud.Common.{
  ℕ, zero, suc, ◌+◌, ◌-◌, ◌*◌, ◌/◌, ◌%◌, ◌^◌, ◌≤◌, ◌<◌, ◌≡◌, ◌≢◌, refl, sym, ap, Bool, true, false,
  ◌&&◌, ◌||◌, Option, none, some, List, [], ◌∷◌, ◌++◌, arith, Text, All, leb, ltb, ◌==◌,
  if◌then◌else◌,
}
use battle_cloud.Contract.Identity.{is_alnum}

-- A surrogate is half of a code point above the basic plane.
abbrev is_high : ℕ → Bool
is_high u = leb 0xD800 u && leb u 0xDBFF

abbrev is_low : ℕ → Bool
is_low u = leb 0xDC00 u && leb u 0xDFFF

abbrev prepend : ℕ → Option (List ℕ) → Option (List ℕ)
prepend c none = none
prepend c (some cs) = some (c ∷ cs)

abbrev lone : ℕ → Option (List ℕ) → Option (List ℕ)
lone u rest = if is_low u then none else prepend u rest

-- The code points of a string; `none` is the `URIError` of a surrogate without its other half.
unfoldable pub code_points : Text → Option (List ℕ)
code_points [] = some []
code_points (u ∷ []) = if is_high u then none else lone u (some [])
code_points (u ∷ v ∷ rest) =
    let pair = prepend ((u - 0xD800) * 1024 + (v - 0xDC00) + 0x10000) (code_points rest) in
    let single = lone u (code_points (v ∷ rest)) in
    if is_high u then (if is_low v then pair else none) else single

-- The bytes of a code point.
unfoldable pub utf8 : ℕ → List ℕ
utf8 c =
    if ltb c 0x80
    then c ∷ []
    else if ltb c 0x800
    then (0xC0 + c / 64) ∷ (0x80 + c % 64) ∷ []
    else if ltb c 0x10000
    then (0xE0 + c / 4096) ∷ (0x80 + c / 64 % 64) ∷ (0x80 + c % 64) ∷ []
    else (0xF0 + c / 262144) ∷ (0x80 + c / 4096 % 64) ∷ (0x80 + c / 64 % 64) ∷ (0x80 + c % 64) ∷ []

unfoldable pub hex : ℕ → ℕ
hex d = if ltb d 10 then b'0' + d else b'A' + (d - 10)

unfoldable pub percent : List ℕ → Text
unfolding hex
percent [] = []
percent (b ∷ bytes) = b'%' ∷ hex (b / 16) ∷ hex (b % 16) ∷ percent bytes

-- A-Z a-z 0-9 - _ . ! ~ * ' ( )
unfoldable pub is_unreserved : ℕ → Bool
unfolding is_alnum
is_unreserved c =
    is_alnum c
    || c == b'-'
    || c == b'_'
    || c == b'.'
    || c == b'!'
    || c == b'~'
    || c == b'*'
    || c == 39
    || c == b'('
    || c == b')'

unfoldable pub encode_point : ℕ → Text
unfolding is_unreserved percent utf8
encode_point c = if is_unreserved c then c ∷ [] else percent (utf8 c)

unfoldable pub encode_points : List ℕ → Text
unfolding encode_point
encode_points [] = []
encode_points (c ∷ cs) = encode_point c ++ encode_points cs

-- `encodeURIComponent(s)`, and `none` where it throws
unfoldable pub encode_uri_component : Text → Option Text
unfolding code_points encode_points
encode_uri_component s = elim (code_points s) [ none ↦ none | some cs ↦ some (encode_points cs) ]

digits_within : ℕ → ℕ → Text
digits_within zero n = []
digits_within (suc f) n =
    let more = digits_within f (n / 10) in
    if ltb n 10 then (b'0' + n) ∷ [] else more ++ (b'0' + n % 10) ∷ []

-- `String(n)` of a natural number; `suc n` rounds are enough, since each divides by ten.
unfoldable pub decimal : ℕ → Text
unfolding digits_within
decimal n = digits_within (suc n) n
