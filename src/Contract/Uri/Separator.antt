-- ===== src/Contract/Uri/Separator.antt =====
-- An encoding never holds the separator of a key.
use battle_cloud.Common.{
  ℕ, ◌/◌, ◌%◌, ◌<◌, ◌≡◌, ◌≢◌, subst, some, List, [], ◌∷◌, arith, Text, All, All-append, inl, inr,
  Bool-cases,
}
use battle_cloud.Contract.Uri.{
  utf8, hex, percent, is_unreserved, encode_point, encode_points, encode_uri_component,
}
use battle_cloud.Contract.Uri.Utf8.{Bytes, Points, IsUtf16, utf8-Bytes}
use battle_cloud.Contract.Uri.Injective.{code_points-utf16s, encode-inv}

-- The separator of a key.
abbrev pub NoAmp : Text → Type 0
NoAmp s = All (λ c. c ≢ b'&') s

hex_ne_amp : (d : ℕ) → d < 16 → hex d ≢ b'&'
unfolding hex
hex_ne_amp d h e = ground arith

percent-NoAmp : (bs : List ℕ) → Bytes bs → NoAmp (percent bs)
unfolding percent
percent-NoAmp [] h = tt
percent-NoAmp (b ∷ bs) (h, hs) = (
  omega arith,
  (hex_ne_amp (b / 16) (omega arith), (hex_ne_amp (b % 16) (omega arith), percent-NoAmp bs hs)),
)

encode_point-NoAmp : (c : ℕ) → c < 0x110000 → NoAmp (encode_point c)
unfolding encode_point
encode_point-NoAmp c h = elim (Bool-cases (is_unreserved c)) [
  | inl u ↦ rw u (unfold is_unreserved in ground arith, tt)
  | inr u ↦ rw u (percent-NoAmp (utf8 c) (utf8-Bytes c h))
]

encode_points-NoAmp : (cs : List ℕ) → Points cs → NoAmp (encode_points cs)
unfolding encode_points
encode_points-NoAmp [] h = tt
encode_points-NoAmp (c ∷ cs) (h, hs) =
    All-append (λ c. c ≢ b'&') (encode_point c) (encode_points cs) (encode_point-NoAmp c h)
      (encode_points-NoAmp cs hs)

-- An encoding holds no ampersand.
pub encode_uri_component-NoAmp :
    (s e : Text) → IsUtf16 s → encode_uri_component s ≡ some e → NoAmp e
encode_uri_component-NoAmp s e h k =
    let (cs, hs, es) = encode-inv s e k in
    subst NoAmp es (encode_points-NoAmp cs (code_points-utf16s s cs h hs).1)
