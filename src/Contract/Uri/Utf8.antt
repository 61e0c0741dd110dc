-- ===== src/Contract/Uri/Utf8.antt =====
-- The escaped bytes of code points can be read back in one way only.
use battle_cloud.Common.{
  ℕ, ◌/◌, ◌%◌, ◌<◌, ◌≡◌, ◌≢◌, refl, sym, subst, true, List, [], ◌∷◌, ◌++◌, arith, Text, All, length,
  ◌⊎◌, inl, inr, Bool-cases,
}
use battle_cloud.Contract.Uri.{utf8, hex, percent, is_unreserved, encode_point, encode_points}

hex_injective : (a b : ℕ) → a < 16 → b < 16 → hex a ≡ hex b → a ≡ b
unfolding hex
hex_injective a b p q h = ground arith

abbrev pub Bytes : List ℕ → Type 0
Bytes bs = All (λ b. b < 256) bs

-- The escape of a byte is three code units, and gives the byte back.
percent-cons_injective :
    (a b : ℕ) (as' bs : List ℕ) (x y : Text)
    → a < 256
    → b < 256
    → percent (a ∷ as') ++ x ≡ percent (b ∷ bs) ++ y
    → (a ≡ b) × (percent as' ++ x ≡ percent bs ++ y)
unfolding percent
percent-cons_injective a b as' bs x y p q h =
    ground (arith, hex_injective (a / 16) (b / 16), hex_injective (a % 16) (b % 16))

percent_injective :
    (as' bs : List ℕ) (x y : Text)
    → Bytes as'
    → Bytes bs
    → length as' ≡ length bs
    → percent as' ++ x ≡ percent bs ++ y
    → (as' ≡ bs) × (x ≡ y)
percent_injective [] [] x y p q e h = (refl, unfold percent in h)
percent_injective [] (b ∷ bs) x y p q e h = absurd (omega arith)
percent_injective (a ∷ as') [] x y p q e h = absurd (omega arith)
percent_injective (a ∷ as') (b ∷ bs) x y (p, ps) (q, qs) e h =
    let (same, more) = percent-cons_injective a b as' bs x y p q h in
    let (sames, rest) = percent_injective as' bs x y ps qs (omega arith) more in
    (cc (same, sames), rest)

pub utf8-Bytes : (c : ℕ) → c < 0x110000 → Bytes (utf8 c)
unfolding utf8
utf8-Bytes c h = ground arith

utf8_injective : (c d : ℕ) → utf8 c ≡ utf8 d → c ≡ d
unfolding utf8
utf8_injective c d h = ground arith

-- The first byte says how many follow.
utf8-length :
    (c d a : ℕ) (as' bs : List ℕ)
    → c < 0x110000
    → d < 0x110000
    → utf8 c ≡ a ∷ as'
    → utf8 d ≡ a ∷ bs
    → length as' ≡ length bs
unfolding utf8
utf8-length c d a as' bs p q h k = ground arith

List-cases : (l : List ℕ) → (l ≡ []) ⊎ ((a : ℕ) × (as' : List ℕ) × (l ≡ a ∷ as'))
List-cases [] = inl refl
List-cases (a ∷ as') = inr (a, as', refl)

utf8_ne_nil : (c : ℕ) → utf8 c ≢ []
unfolding utf8
utf8_ne_nil c h = ground arith

utf8_cons : (c : ℕ) → (a : ℕ) × (as' : List ℕ) × (utf8 c ≡ a ∷ as')
utf8_cons c = elim (List-cases (utf8 c)) [ inl e ↦ absurd (utf8_ne_nil c e) | inr t ↦ t ]

percent-utf8_injective :
    (c d : ℕ) (x y : Text)
    → c < 0x110000
    → d < 0x110000
    → percent (utf8 c) ++ x ≡ percent (utf8 d) ++ y
    → (c ≡ d) × (x ≡ y)
percent-utf8_injective c d x y p q h =
    let (a, as', ec) = utf8_cons c in
    let (b, bs, ed) = utf8_cons d in
    let pc = subst Bytes ec (utf8-Bytes c p) in
    let pd = subst Bytes ed (utf8-Bytes d q) in
    let h' : percent (a ∷ as') ++ x ≡ percent (b ∷ bs) ++ y = rw (← ec, ← ed) h in
    let (same, _) = percent-cons_injective a b as' bs x y pc.0 pd.0 h' in
    let ed' : utf8 d ≡ a ∷ bs = cc (ed, same) in
    let lengths : length (a ∷ as') ≡ length (b ∷ bs) =
      omega (arith, utf8-length c d a as' bs p q ec ed') in
    let (sames, rest) = percent_injective (a ∷ as') (b ∷ bs) x y pc pd lengths h' in
    (utf8_injective c d (cc (ec, ed, sames)), rest)

-- A literal character is no percent sign.
plain_ne_percent-cons :
    (c a : ℕ) (as' : List ℕ) (x y : Text) → is_unreserved c ≡ true → c ∷ x ≢ percent (a ∷ as') ++ y
unfolding is_unreserved percent
plain_ne_percent-cons c a as' x y h e = ground arith

plain_ne_percent : (c d : ℕ) (x y : Text) → is_unreserved c ≡ true → c ∷ x ≢ percent (utf8 d) ++ y
plain_ne_percent c d x y h e =
    let (a, as', ed) = utf8_cons d in
    plain_ne_percent-cons c a as' x y h (subst (λ bs. c ∷ x ≡ percent bs ++ y) ed e)

encode_point_injective :
    (c d : ℕ) (x y : Text)
    → c < 0x110000
    → d < 0x110000
    → encode_point c ++ x ≡ encode_point d ++ y
    → (c ≡ d) × (x ≡ y)
unfolding encode_point
encode_point_injective c d x y p q h = elim (Bool-cases (is_unreserved c)) [
  | inl u ↦ elim (Bool-cases (is_unreserved d)) [
    | inl v ↦ let h' : c ∷ x ≡ d ∷ y = rw (u, v) at h in (ground arith, ground arith)
    | inr v ↦ absurd (plain_ne_percent c d x y u (rw (u, v) at h))
  ]
  | inr u ↦ elim (Bool-cases (is_unreserved d)) [
    | inl v ↦ absurd (plain_ne_percent d c y x v (sym (rw (u, v) at h)))
    | inr v ↦ percent-utf8_injective c d x y p q (rw (u, v) at h)
  ]
]

abbrev pub Points : List ℕ → Type 0
Points cs = All (λ c. c < 0x110000) cs

encode_point_ne_nil : (c : ℕ) (x : Text) → encode_point c ++ x ≢ []
unfolding encode_point percent
encode_point_ne_nil c x h =
    let (a, as', e) = utf8_cons c in
    elim (Bool-cases (is_unreserved c)) [ inl u ↦ ground arith | inr u ↦ ground arith ]

pub encode_points_injective :
    (cs ds : List ℕ) → Points cs → Points ds → encode_points cs ≡ encode_points ds → cs ≡ ds
unfolding encode_points
encode_points_injective [] [] p q h = refl
encode_points_injective [] (d ∷ ds) p q h = absurd (encode_point_ne_nil d _ (sym h))
encode_points_injective (c ∷ cs) [] p q h = absurd (encode_point_ne_nil c _ h)
encode_points_injective (c ∷ cs) (d ∷ ds) (p, ps) (q, qs) h =
    let (same, rest) = encode_point_injective c d _ _ p q h in
    cc (same, encode_points_injective cs ds ps qs rest)

-- Every unit of a string is a 16-bit number.
abbrev pub IsUtf16 : Text → Type 0
IsUtf16 s = All (λ u. u < 65536) s
