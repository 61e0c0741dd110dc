-- ===== src/Contract/Key/Injective.antt =====
-- Different identities have different keys.
use mathlib.Core.List.{append_cancel_left}
use battle_cloud.Common.{
  suc, ◌≡◌, ◌≢◌, refl, sym, ap, subst, ◌∙◌, some, List, [], ◌∷◌, ◌++◌, arith, Text, text, All,
  All-append, length, inl, inr, Option-cases,
}
use battle_cloud.Contract.Identity.{Perspective, p1, p2, AnalysisIdentity}
use battle_cloud.Contract.Uri.{encode_uri_component}
use battle_cloud.Contract.Uri.Utf8.{IsUtf16}
use battle_cloud.Contract.Uri.Injective.{encode_uri_component_injective}
use battle_cloud.Contract.Uri.Decimal.{decimal_injective, decimal-IsUtf16}
use battle_cloud.Contract.Uri.Separator.{NoAmp, encode_uri_component-NoAmp}
use battle_cloud.Contract.Key.{
  Field, replay_id, perspective, search_budget_ms_per_turn, opponent_samples, threads,
  usage_stats_cutoff, usage_stats_dataset, poke_engine_tag, seed, identity_fields, field_name,
  field_value, perspective_text, key_part, key_parts, join_amp, identity_key, ◌>>=◌,
}

-- The strings of an identity are strings of 16-bit units.
pub record IsWellFormed (i : AnalysisIdentity) : Type 0 where
  pub replay_id : IsUtf16 i.replay_id
  pub usage_stats_dataset : IsUtf16 i.usage_stats_dataset
  pub poke_engine_tag : IsUtf16 i.poke_engine_tag

field_value-IsUtf16 :
    (i : AnalysisIdentity) (f : Field) → IsWellFormed i → IsUtf16 (field_value i f)
unfolding field_value text
field_value-IsUtf16 i replay_id h = h.replay_id
field_value-IsUtf16 i perspective h = perspective_utf16 i.perspective
  where
    perspective_utf16 : (p : Perspective) → IsUtf16 (perspective_text p)
    perspective_utf16 p1 = omega arith
    perspective_utf16 p2 = omega arith
field_value-IsUtf16 i search_budget_ms_per_turn h = decimal-IsUtf16 i.search_budget_ms_per_turn
field_value-IsUtf16 i opponent_samples h = decimal-IsUtf16 i.opponent_samples
field_value-IsUtf16 i threads h = decimal-IsUtf16 i.threads
field_value-IsUtf16 i usage_stats_cutoff h = decimal-IsUtf16 i.usage_stats_cutoff
field_value-IsUtf16 i usage_stats_dataset h = h.usage_stats_dataset
field_value-IsUtf16 i poke_engine_tag h = h.poke_engine_tag
field_value-IsUtf16 i seed h = decimal-IsUtf16 i.seed

field_name-NoAmp : (f : Field) → NoAmp (field_name f)
unfolding field_name
field_name-NoAmp replay_id = omega arith
field_name-NoAmp _ = omega arith

key_part-inv :
    (i : AnalysisIdentity) (f : Field) (part : Text)
    → key_part i f ≡ some part
    → (v : Text) × (encode_uri_component (field_value i f) ≡ some v)
      × (part ≡ field_name f ++ b'=' ∷ v)
unfolding key_part
key_part-inv i f part h = elim (Option-cases (encode_uri_component (field_value i f))) [
  | inl e ↦ cc (rw (e, ◌>>=◌) at h)
  | inr (v, e) ↦ (v, e, ground arith)
]

key_part-NoAmp :
    (i : AnalysisIdentity) (f : Field) (part : Text)
    → IsWellFormed i
    → key_part i f ≡ some part
    → NoAmp part
key_part-NoAmp i f part w h =
    let (v, e, same) = key_part-inv i f part h in
    subst NoAmp (sym same) (
      All-append (λ c. c ≢ b'&') (field_name f) (b'=' ∷ v) (field_name-NoAmp f)
        (omega arith, encode_uri_component-NoAmp _ v (field_value-IsUtf16 i f w) e))

key_part_injective :
    (a b : AnalysisIdentity) (f : Field) (part : Text)
    → IsWellFormed a
    → IsWellFormed b
    → key_part a f ≡ some part
    → key_part b f ≡ some part
    → field_value a f ≡ field_value b f
key_part_injective a b f part wa wb h k =
    let (v, ea, sa) = key_part-inv a f part h in
    let (w, eb, sb) = key_part-inv b f part k in
    let cut : b'=' ∷ v ≡ b'=' ∷ w = append_cancel_left (field_name f) _ _ (sym sa ∙ sb) in
    let same : v ≡ w = cc in
    encode_uri_component_injective _ _ w (field_value-IsUtf16 a f wa) (field_value-IsUtf16 b f wb)
      (cc (ea, same)) eb

-- The text before the first separator is determined.
cut_at_amp :
    (x y s t : Text) → NoAmp x → NoAmp y → x ++ b'&' ∷ s ≡ y ++ b'&' ∷ t → (x ≡ y) × (s ≡ t)
cut_at_amp [] [] s t p q h = (refl, ground arith)
cut_at_amp [] (d ∷ y) s t p (q, qs) h = absurd (ground arith)
cut_at_amp (c ∷ x) [] s t (p, ps) q h = absurd (ground arith)
cut_at_amp (c ∷ x) (d ∷ y) s t (p, ps) (q, qs) h =
    let (same, rest) = cut_at_amp x y s t ps qs (ground arith) in (ground arith, rest)

join_amp_injective :
    (ps qs : List Text)
    → All NoAmp ps
    → All NoAmp qs
    → length ps ≡ length qs
    → join_amp ps ≡ join_amp qs
    → ps ≡ qs
unfolding join_amp
join_amp_injective [] [] hp hq l h = refl
join_amp_injective [] (q ∷ qs) hp hq l h = absurd (omega arith)
join_amp_injective (p ∷ ps) [] hp hq l h = absurd (omega arith)
join_amp_injective (p ∷ []) (q ∷ []) hp hq l h = cc
join_amp_injective (p ∷ []) (q ∷ q' ∷ qs) hp hq l h = absurd (omega arith)
join_amp_injective (p ∷ p' ∷ ps) (q ∷ []) hp hq l h = absurd (omega arith)
join_amp_injective (p ∷ p' ∷ ps) (q ∷ q' ∷ qs) hp hq l h =
    let (same, rest) = cut_at_amp p q _ _ hp.0 hq.0 h in
    cc (same, join_amp_injective (p' ∷ ps) (q' ∷ qs) hp.1 hq.1 (omega arith) rest)

key_parts-inv :
    (i : AnalysisIdentity) (f : Field) (fs : List Field) (parts : List Text)
    → key_parts i (f ∷ fs) ≡ some parts
    → (p : Text) × (ps : List Text) × (key_part i f ≡ some p)
      × (key_parts i fs ≡ some ps)
      × (parts ≡ p ∷ ps)
unfolding key_parts
key_parts-inv i f fs parts h = elim (Option-cases (key_part i f)) [
  | inl e ↦ cc (rw (e, ◌>>=◌) at h)
  | inr (p, e) ↦ elim (Option-cases (key_parts i fs)) [
    | inl e' ↦ cc (rw (e, ◌>>=◌, e') at h)
    | inr (ps, e') ↦ (p, ps, e, e', ground arith)
  ]
]

key_parts-NoAmp :
    (i : AnalysisIdentity) (fs : List Field) (parts : List Text)
    → IsWellFormed i
    → key_parts i fs ≡ some parts
    → All NoAmp parts × (length parts ≡ length fs)
key_parts-NoAmp i [] [] w h = (tt, refl)
key_parts-NoAmp i [] (p ∷ ps) w h = absurd (unfold key_parts in ground arith)
key_parts-NoAmp i (f ∷ fs) parts w h =
    let (p, ps, e, e', same) = key_parts-inv i f fs parts h in
    let (clean, lengths) = key_parts-NoAmp i fs ps w e' in
    rw same ((key_part-NoAmp i f p w e, clean), ap suc lengths)

key_parts_injective :
    (a b : AnalysisIdentity) (fs : List Field) (parts : List Text)
    → IsWellFormed a
    → IsWellFormed b
    → key_parts a fs ≡ some parts
    → key_parts b fs ≡ some parts
    → All (λ f. field_value a f ≡ field_value b f) fs
key_parts_injective a b [] parts wa wb h k = tt
key_parts_injective a b (f ∷ fs) parts wa wb h k =
    let (p, ps, ea, ra, sa) = key_parts-inv a f fs parts h in
    let (q, qs, eb, rb, sb) = key_parts-inv b f fs parts k in
    let heads : q ≡ p = ground arith in
    let tails : qs ≡ ps = ground arith in
    (
      key_part_injective a b f p wa wb ea (cc (eb, heads)),
      key_parts_injective a b fs ps wa wb ra (cc (rb, tails)),
    )

perspective_text_injective : (p q : Perspective) → perspective_text p ≡ perspective_text q → p ≡ q
unfolding perspective_text
perspective_text_injective p1 p1 h = refl
perspective_text_injective p1 p2 h = ground arith
perspective_text_injective p2 p1 h = ground arith
perspective_text_injective p2 p2 h = refl

fields_determine :
    (a b : AnalysisIdentity) → All (λ f. field_value a f ≡ field_value b f) identity_fields → a ≡ b
unfolding identity_fields field_value
fields_determine a b
      (id, (side, (budget, (samples, (lanes, (cutoff, (dataset, (tag, (start, _))))))))) =
    cc (
      id,
      perspective_text_injective a.perspective b.perspective side,
      decimal_injective a.search_budget_ms_per_turn b.search_budget_ms_per_turn budget,
      decimal_injective a.opponent_samples b.opponent_samples samples,
      decimal_injective a.threads b.threads lanes,
      decimal_injective a.usage_stats_cutoff b.usage_stats_cutoff cutoff,
      dataset,
      tag,
      decimal_injective a.seed b.seed start,
    )

identity_key-inv :
    (i : AnalysisIdentity) (key : Text)
    → identity_key i ≡ some key
    → (parts : List Text) × (key_parts i identity_fields ≡ some parts) × (join_amp parts ≡ key)
unfolding identity_key
identity_key-inv i key h = elim (Option-cases (key_parts i identity_fields)) [
  | inl e ↦ cc (rw (e, ◌>>=◌) at h)
  | inr (parts, e) ↦ (parts, e, ground arith)
]

-- Two identities whose strings consist of 16-bit units and that have the same key are the same
-- identity: escaping keeps a separator inside a value from making two keys collide.
pub identity_key_injective :
    (a b : AnalysisIdentity) (key : Text)
    → IsWellFormed a
    → IsWellFormed b
    → identity_key a ≡ some key
    → identity_key b ≡ some key
    → a ≡ b
identity_key_injective a b key wa wb h k =
    let (ps, ea, ja) = identity_key-inv a key h in
    let (qs, eb, jb) = identity_key-inv b key k in
    let (clean_a, length_a) = key_parts-NoAmp a identity_fields ps wa ea in
    let (clean_b, length_b) = key_parts-NoAmp b identity_fields qs wb eb in
    let same = join_amp_injective ps qs clean_a clean_b (length_a ∙ sym length_b) (ja ∙ sym jb) in
    fields_determine a b (key_parts_injective a b identity_fields qs wa wb (cc (ea, same)) eb)
