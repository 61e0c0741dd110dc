-- ===== src/Store/Cursor.antt =====
-- The pagination cursor of api/src/store.ts.
use battle_cloud.Common.{
  ℕ, ◌<◌, ◌≡◌, ◌≢◌, refl, Bool, true, not, ◌&&◌, ◌||◌, Option, none, some, [], ◌∷◌, ◌++◌, arith,
  Text, text, all, All, All-append, length, leb, ◌==◌, if◌then◌else◌,
}
use battle_cloud.Platform.{Platform, IsAscii, IsDated, IsLawful}

pub record AnalysisCursor : Type 0 where
  pub created_at : Text
  pub id : Text

-- `CursorError` with its message, or the cursor.
pub data Decoded : Type 0 where
  ok : AnalysisCursor → Decoded
  cursor_error : Text → Decoded

-- `decoded.indexOf('|')`, as the two slices around the first bar
unfoldable pub split_at_bar : Text → Option (Text × Text)
split_at_bar [] = none
split_at_bar (c ∷ s) =
    let later = split_at_bar s in
    if c == b'|' then some ([], s) else elim later [ none ↦ none | some (a, b) ↦ some (c ∷ a, b) ]

-- [0-9a-fA-F-]
is_uuid_char : ℕ → Bool
is_uuid_char c =
    (leb b'0' c && leb c b'9')
    || (leb b'a' c && leb c b'f')
    || (leb b'A' c && leb c b'F')
    || c == b'-'

-- /^[0-9a-fA-F-]{36}$/
unfoldable pub is_uuid_text : Text → Bool
unfolding is_uuid_char
is_uuid_text id = all is_uuid_char id && length id == 36

module _ (p : Platform) where
  unfoldable pub encode_cursor : AnalysisCursor → Text
  encode_cursor cursor = p.to_base64url (cursor.created_at ++ b'|' ∷ cursor.id)

  checked_cursor : Option (Text × Text) → Decoded
  unfolding is_uuid_text
  checked_cursor none = cursor_error (text "cursor is not a valid pagination cursor")
  checked_cursor (some (created_at, id)) = elim (p.date_parse created_at) [
    | none ↦ cursor_error (text "cursor carries an invalid timestamp")
    | some at ↦
        if not (is_uuid_text id)
        then cursor_error (text "cursor carries an invalid id")
        else ok (record { created_at = created_at; id = id })
  ]

  unfoldable pub decode_cursor : Text → Decoded
  unfolding checked_cursor split_at_bar
  decode_cursor raw = checked_cursor (split_at_bar (p.from_base64url raw))

split_at_bar-append :
    (a b : Text) → All (λ c. c ≢ b'|') a → split_at_bar (a ++ b'|' ∷ b) ≡ some (a, b)
unfolding split_at_bar
split_at_bar-append [] b h = refl
split_at_bar-append (c ∷ a) b (h, hs) = ground (arith, split_at_bar-append a b hs)

uuid-IsAscii : (id : Text) → all is_uuid_char id ≡ true → IsAscii id
unfolding is_uuid_char
uuid-IsAscii [] h = tt
uuid-IsAscii (c ∷ id) h = (ground arith, uuid-IsAscii id (ground arith))

module _ (p : Platform) (lawful : IsLawful p) where
  -- On a platform that behaves as documented, a cursor whose timestamp is the text of a date before the year 10000 and
  -- whose id has the shape of a uuid comes back from its encoding.
  pub decode_cursor-encode_cursor :
      (ms : ℕ) (id : Text)
      → IsDated ms
      → is_uuid_text id ≡ true
      → let cursor : AnalysisCursor = record { created_at = p.to_iso_string ms; id = id } in
        decode_cursor p (encode_cursor p cursor) ≡ ok cursor
  unfolding decode_cursor encode_cursor
  decode_cursor-encode_cursor ms id dated h =
      let ascii = uuid-IsAscii id (unfold is_uuid_text in ground arith) in
      let back = lawful.base64_ascii (p.to_iso_string ms ++ b'|' ∷ id) (
        All-append (λ c. c < 128) (p.to_iso_string ms) (b'|' ∷ id) (lawful.iso_ascii ms dated)
          (omega arith, ascii)) in
      rw (
        back,
        split_at_bar-append (p.to_iso_string ms) id (lawful.iso_no_bar ms dated),
        checked_cursor,
        lawful.parse_iso ms dated,
        h,
      )
