-- ===== src/Platform.antt =====
-- What the code takes from Node and from Postgres and does not implement. A moment is a number:
-- of milliseconds where JavaScript has a `Date`, of microseconds in a `timestamptz`.
use battle_cloud.Common.{
  ℕ, ◌*◌, ◌≡◌, ◌≢◌, ◌<◌, ◌≤◌, Bool, true, false, Option, some, Text, All, ◌⊎◌,
}

pub record Platform : Type 0 where
  -- `new Date(ms).toISOString()`, and `Date.parse`, where `none` is NaN
  pub to_iso_string : ℕ → Text
  pub date_parse : Text → Option ℕ
  -- `Buffer.from(s, 'utf8').toString('base64url')` and `Buffer.from(s, 'base64url').toString('utf8')`
  pub to_base64url : Text → Text
  pub from_base64url : Text → Text
  -- Postgres: the casts of a text to `timestamptz` and to `uuid`, which may fail; a `uuid` is its
  -- text in lower case. And the order of two `uuid` values.
  pub timestamptz : Text → Option ℕ
  pub uuid : Text → Option Text
  pub uuid_lt : Text → Text → Bool

abbrev pub IsAscii : Text → Type 0
IsAscii s = All (λ c. c < 128) s

-- A moment from 1970 to the end of the year 9999, which `toISOString` prints with four digits for the year.
abbrev pub IsDated : ℕ → Type 0
IsDated ms = ms ≤ 253402300799999

-- The documented behaviour that the theorems rely on.
pub record IsLawful (p : Platform) : Type 0 where
  pub parse_iso : (ms : ℕ) → IsDated ms → p.date_parse (p.to_iso_string ms) ≡ some ms
  pub cast_iso : (ms : ℕ) → IsDated ms → p.timestamptz (p.to_iso_string ms) ≡ some (ms * 1000)
  pub iso_ascii : (ms : ℕ) → IsDated ms → IsAscii (p.to_iso_string ms)
  pub iso_no_bar : (ms : ℕ) → IsDated ms → All (λ c. c ≢ b'|') (p.to_iso_string ms)
  pub base64_ascii : (s : Text) → IsAscii s → p.from_base64url (p.to_base64url s) ≡ s
  pub uuid_irrefl : (a : Text) → p.uuid_lt a a ≡ false
  pub uuid_trans :
      (a b c : Text) → p.uuid_lt a b ≡ true → p.uuid_lt b c ≡ true → p.uuid_lt a c ≡ true
  pub uuid_total : (a b : Text) → (p.uuid_lt a b ≡ true) ⊎ ((a ≡ b) ⊎ (p.uuid_lt b a ≡ true))
