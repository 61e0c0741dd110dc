-- ===== src/Contract/Uri/Injective.antt =====
-- No two strings have the same encoding.
use battle_cloud.Common.{
  ℕ, ◌+◌, ◌-◌, ◌*◌, ◌/◌, ◌%◌, ◌<◌, ◌≡◌, ◌≢◌, refl, sym, subst, ◌∙◌, true, Option, none, some, List,
  [], ◌∷◌, arith, Text, ltb, if◌then◌else◌, ◌⊎◌, inl, inr, Bool-cases, Option-cases,
}
use battle_cloud.Contract.Uri.{
  is_high, is_low, prepend, code_points, encode_points, encode_uri_component,
}
use battle_cloud.Contract.Uri.Utf8.{Points, IsUtf16, encode_points_injective}

-- The code units of a code point, and of many.
utf16 : ℕ → Text → Text
utf16 c rest =
    if ltb c 0x10000
    then c ∷ rest
    else (0xD800 + (c - 0x10000) / 1024) ∷ (0xDC00 + (c - 0x10000) % 1024) ∷ rest

pub utf16s : List ℕ → Text
unfolding utf16
utf16s [] = []
utf16s (c ∷ cs) = utf16 c (utf16s cs)

prepend-inv :
    (c d : ℕ) (o : Option (List ℕ)) (ds : List ℕ)
    → prepend c o ≡ some (d ∷ ds)
    → (c ≡ d) × (o ≡ some ds)
prepend-inv c d none ds h = cc
prepend-inv c d (some cs) ds h = (ground arith, ground arith)

prepend_ne_nil : (c : ℕ) (o : Option (List ℕ)) → prepend c o ≢ some []
prepend_ne_nil c none h = cc
prepend_ne_nil c (some cs) h = ground arith

abbrev pair_point : ℕ → ℕ → ℕ
pair_point u v = (u - 0xD800) * 1024 + (v - 0xDC00) + 0x10000

-- The two ways in which a string of two units and more can start.
code_points-cases :
    (u v : ℕ) (rest : Text) {cs : List ℕ}
    → code_points (u ∷ v ∷ rest) ≡ some cs
    → ((is_high u ≡ true)
        × (is_low v ≡ true)
        × (prepend (pair_point u v) (code_points rest) ≡ some cs))
      ⊎ (prepend u (code_points (v ∷ rest)) ≡ some cs)
unfolding code_points
code_points-cases u v rest h = elim (Bool-cases (is_high u)) [
  | inl p ↦ elim (Bool-cases (is_low v)) [
    | inl q ↦ inl (p, q, rw (p, q, code_points) at h)
    | inr q ↦ cc (rw (p, q, code_points) at h)
  ]
  | inr p ↦ elim (Bool-cases (is_low u)) [
    | inl q ↦ cc (rw (p, q, code_points) at h)
    | inr q ↦ inr (rw (p, q, code_points) at h)
  ]
]

utf16_pair :
    (u v : ℕ) (x : Text)
    → is_high u ≡ true
    → is_low v ≡ true
    → (utf16 (pair_point u v) x ≡ u ∷ v ∷ x) × (pair_point u v < 0x110000)
unfolding utf16
utf16_pair u v x p q = ground arith

utf16_single : (u : ℕ) (x : Text) → u < 65536 → utf16 u x ≡ u ∷ x
unfolding utf16
utf16_single u x p = ground arith

pub code_points-utf16s :
    (s : Text) (cs : List ℕ) → IsUtf16 s → code_points s ≡ some cs → (utf16s cs ≡ s) × Points cs
unfolding utf16s
code_points-utf16s [] cs p h = let e : cs ≡ [] = unfold code_points in cc in rw e (refl, tt)
code_points-utf16s (u ∷ []) [] p h = unfold code_points in ground arith
code_points-utf16s (u ∷ []) (c ∷ cs) p h = unfold code_points in ground arith
code_points-utf16s (u ∷ v ∷ rest) [] p h = elim (code_points-cases u v rest h) [
  | inl (_, _, e) ↦ absurd (prepend_ne_nil _ _ e)
  | inr e ↦ absurd (prepend_ne_nil _ _ e)
]
code_points-utf16s (u ∷ v ∷ rest) (c ∷ cs) (p, q) h = elim (code_points-cases u v rest h) [
  | inl (hi, lo, e) ↦
      let (same, e') = prepend-inv _ c _ cs e in
      let (ih, ps) = code_points-utf16s rest cs q.1 e' in
      let (whole, small) = utf16_pair u v (utf16s cs) hi lo in
      (cc (whole, ih, same), (rw (← same) small, ps))
  | inr e ↦
      let (same, e') = prepend-inv _ c _ cs e in
      let (ih, ps) = code_points-utf16s (v ∷ rest) cs q e' in
      (cc (utf16_single u (utf16s cs) p, ih, same), (omega arith, ps))
]

code_points_injective :
    (s t : Text) (cs : List ℕ)
    → IsUtf16 s
    → IsUtf16 t
    → code_points s ≡ some cs
    → code_points t ≡ some cs
    → s ≡ t
code_points_injective s t cs p q h k =
    sym (code_points-utf16s s cs p h).0 ∙ (code_points-utf16s t cs q k).0

pub encode-inv :
    (s e : Text)
    → encode_uri_component s ≡ some e
    → (cs : List ℕ) × (code_points s ≡ some cs) × (encode_points cs ≡ e)
unfolding encode_uri_component
encode-inv s e h = elim (Option-cases (code_points s)) [
  | inl k ↦
      cc (subst (λ o. elim o [ none ↦ none | some cs ↦ some (encode_points cs) ] ≡ some e) k h)
  | inr (cs, k) ↦ (cs, k, ground arith)
]

-- Two strings of 16-bit units with one encoding are the same string.
pub encode_uri_component_injective :
    (s t e : Text)
    → IsUtf16 s
    → IsUtf16 t
    → encode_uri_component s ≡ some e
    → encode_uri_component t ≡ some e
    → s ≡ t
encode_uri_component_injective s t e p q h k =
    let (cs, hs, es) = encode-inv s e h in
    let (ds, ks, et) = encode-inv t e k in
    let same =
      encode_points_injective cs ds (code_points-utf16s s cs p hs).1
        (code_points-utf16s t ds q ks).1 (es ∙ sym et) in
    code_points_injective s t cs p q hs (cc (ks, same))
