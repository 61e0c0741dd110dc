-- ===== src/Web/ReplayId/Pasted.antt =====
-- A replay id comes back out of what a person pastes.
use mathlib.Core.List.{append-nil, append_assoc}
use battle_cloud.Common.{
  ℕ, ◌≡◌, ◌≢◌, refl, sym, ap, ◌∙◌, Bool, true, false, inl, inr, List, [], ◌∷◌, ◌++◌, Option, none,
  some, arith, Text, All, All-append, Bool-cases, ◌==◌,
}
use battle_cloud.Strings.{split, is_space, drop_end, trim}
use battle_cloud.Strings.Cuts.{
  Passes, Starts, drop_start-Passes, drop_end-Passes, drop_end-append, drop_end-kept, IsWithout,
  split_without, split-append,
}
use battle_cloud.Contract.Identity.{safe_replay_id, is_safe_replay_id}
use battle_cloud.Web.ReplayId.{first_or, last_part, is_slash, parse_replay_id}
use battle_cloud.Web.ReplayId.Chars.{
  safe_text, id_space, id_slash, id_question, no_slash, slash_space, slash_question,
}

-- Where a replay stands: nothing, or a path that ends in a slash.
abbrev pub folder_text : Option Text → Text
folder_text none = []
folder_text (some path) = path ++ b'/' ∷ []

-- What may follow the id.
abbrev pub query_text : Option Text → Text
query_text none = []
query_text (some query) = b'?' ∷ query

-- The last part behind the last slash.
record IsCut (whole id : Text) : Type 0 where
  head : Text
  next : Text
  parts : List Text
  same : split b'/' whole ≡ head ∷ next ∷ parts
  end : last_part (next ∷ parts) ≡ id

IsCut-last : (path id : Text) → IsWithout b'/' id → IsCut (path ++ b'/' ∷ id) id
unfolding split
IsCut-last [] id h = record {
  head = [];
  next = id;
  parts = [];
  same = rw (split_without b'/' id h);
  end = refl;
}
IsCut-last (c ∷ path) id h =
    let rest = IsCut-last path id h in
    elim (Bool-cases (c == b'/')) [
      | inl e ↦ record {
        head = [];
        next = rest.head;
        parts = rest.next ∷ rest.parts;
        same = rw (e, rest.same);
        end = rest.end;
      }
      | inr e ↦ record {
        head = c ∷ rest.head;
        next = rest.next;
        parts = rest.parts;
        same = rw (e, rest.same);
        end = rest.end;
      }
    ]

Starts-append :
    (q : ℕ → Bool) (front : Text) (c : ℕ) (rest : Text)
    → Starts q front
    → q c ≡ false
    → Starts q (front ++ c ∷ rest)
Starts-append q [] c rest h k = k
Starts-append q (d ∷ front) c rest h k = h

-- The end is cut behind a unit that stays and more of them.
cut_behind :
    (q : ℕ → Bool) (front : Text) (c : ℕ) (id rest : Text)
    → q c ≡ false
    → All (λ d. q d ≡ false) id
    → drop_end q (front ++ c ∷ (id ++ rest)) ≡ front ++ c ∷ (id ++ drop_end q rest)
cut_behind q front c id rest h hs =
    drop_end-append q front c (id ++ rest) h ∙ ap (λ t. front ++ c ∷ t) (drop_end-kept q id rest hs)

cut_folder :
    (folder : Option Text) (id : Text)
    → IsWithout b'/' id
    → last_part (split b'/' (folder_text folder ++ id)) ≡ id
cut_folder none id h = rw (split_without b'/' id h)
cut_folder (some path) id h =
    let cut = IsCut-last path id h in rw (append_assoc path (b'/' ∷ []) id, cut.same, cut.end)

-- What `trim` leaves behind the id.
trimmed_query :
    (query : Option Text) (after : Text)
    → Passes is_space after
    → (q : Option Text) × (drop_end is_space (query_text query ++ after) ≡ query_text q)
trimmed_query none after h = (none, drop_end-Passes is_space after h)
trimmed_query (some query) after h = (
  some (drop_end is_space (query ++ after)),
  drop_end-append is_space [] b'?' (query ++ after) (unfold is_space in refl),
)

cut_query :
    (whole : Text) (query : Option Text) (fallback : Text)
    → IsWithout b'?' whole
    → first_or fallback (split b'?' (whole ++ query_text query)) ≡ whole
cut_query whole none fallback h = rw (append-nil, split_without b'?' whole h)
cut_query whole (some query) fallback h = rw (split-append b'?' whole query h)

-- A safe id comes back out of a pasted link: with white space around it, behind any path without a
-- question mark that does not start with a space, with slashes and a query behind it.
pub parse_replay_id-pasted :
    (before : Text) (folder : Option Text) (id slashes : Text) (query : Option Text) (after : Text)
    → Passes is_space before
    → Starts is_space (folder_text folder)
    → IsWithout b'?' (folder_text folder)
    → is_safe_replay_id id ≡ true
    → Passes is_slash slashes
    → Passes is_space after
    → parse_replay_id
        (before ++ (folder_text folder ++ (id ++ (slashes ++ (query_text query ++ after)))))
      ≡ id
unfolding parse_replay_id trim
parse_replay_id-pasted before folder [] slashes query after b s w safe sl a =
    absurd (unfold is_safe_replay_id safe_replay_id in ground arith)
parse_replay_id-pasted before folder (c ∷ id) slashes query after b s w safe sl a =
    let chars = safe_text c id safe in
    let front = folder_text folder in
    let spaces = id_space (c ∷ id) chars in
    let (q, kept) = trimmed_query query after a in
    let core = front ++ ((c ∷ id) ++ slashes) in
    let started =
      drop_start-Passes is_space before
        (front ++ c ∷ (id ++ (slashes ++ (query_text query ++ after)))) b
        (Starts-append is_space front c (id ++ (slashes ++ (query_text query ++ after))) s
          spaces.0) in
    let ended =
      cut_behind is_space front c id (slashes ++ (query_text query ++ after)) spaces.0 spaces.1
      ∙ ap (λ t. front ++ c ∷ (id ++ t))
          (drop_end-kept is_space slashes (query_text query ++ after) (slash_space slashes sl)
            ∙ ap (λ t. slashes ++ t) kept) in
    let joined : core ++ query_text q ≡ front ++ c ∷ (id ++ (slashes ++ query_text q)) =
      append_assoc front ((c ∷ id) ++ slashes) (query_text q)
      ∙ ap (λ t. front ++ c ∷ t) (append_assoc id slashes (query_text q)) in
    let questions : IsWithout b'?' core =
      All-append (λ d. d ≢ b'?') front ((c ∷ id) ++ slashes) w
        (All-append (λ d. d ≢ b'?') (c ∷ id) slashes (id_question (c ∷ id) chars)
          (slash_question slashes sl)) in
    let slashless = no_slash (c ∷ id) (id_slash (c ∷ id) chars) in
    let bare : drop_end is_slash core ≡ front ++ (c ∷ id) =
      cut_behind is_slash front c id slashes slashless.0 slashless.1
      ∙ ap (λ t. front ++ c ∷ t)
          (ap (λ t. id ++ t) (drop_end-Passes is_slash slashes sl) ∙ append-nil id) in
    let trimmed = ap (drop_end is_space) started ∙ ended ∙ sym joined in
    rw (
      trimmed,
      cut_query core q (core ++ query_text q) questions,
      bare,
      cut_folder folder (c ∷ id) (id_slash (c ∷ id) chars),
    )
