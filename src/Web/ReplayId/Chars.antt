-- ===== src/Web/ReplayId/Chars.antt =====
-- What the characters of a safe replay id are not.
use battle_cloud.Common.{ℕ, ◌≡◌, ◌≢◌, true, false, [], ◌∷◌, arith, Text, All, all}
use battle_cloud.Strings.{is_space}
use battle_cloud.Strings.Cuts.{Passes, IsWithout}
use battle_cloud.Contract.Identity.{is_alnum, is_id_char, safe_replay_id, is_safe_replay_id}
use battle_cloud.Web.ReplayId.{is_slash}

abbrev pub IsIdText : Text → Type 0
IsIdText s = All (λ c. is_id_char c ≡ true) s

pub all_id_chars : (s : Text) → all is_id_char s ≡ true → IsIdText s
all_id_chars [] h = tt
all_id_chars (c ∷ s) h = (ground arith, all_id_chars s (ground arith))

pub safe_text : (c : ℕ) (s : Text) → is_safe_replay_id (c ∷ s) ≡ true → IsIdText (c ∷ s)
unfolding is_safe_replay_id safe_replay_id
safe_text c s h = (unfold is_id_char in ground arith, all_id_chars s (ground arith))

pub id_char-space : (c : ℕ) → is_id_char c ≡ true → is_space c ≡ false
unfolding is_id_char is_alnum is_space
id_char-space c h = ground arith

pub id_char-other : (c : ℕ) → is_id_char c ≡ true → (c ≢ b'?') × (c ≢ b'/')
unfolding is_id_char is_alnum
id_char-other c h = (λ e. ground arith, λ e. ground arith)

pub id_space : (s : Text) → IsIdText s → All (λ c. is_space c ≡ false) s
id_space [] h = tt
id_space (c ∷ s) (h, hs) = (id_char-space c h, id_space s hs)

pub id_slash : (s : Text) → IsIdText s → IsWithout b'/' s
id_slash [] h = tt
id_slash (c ∷ s) (h, hs) = ((id_char-other c h).1, id_slash s hs)

pub id_question : (s : Text) → IsIdText s → IsWithout b'?' s
id_question [] h = tt
id_question (c ∷ s) (h, hs) = ((id_char-other c h).0, id_question s hs)

pub no_slash : (s : Text) → IsWithout b'/' s → All (λ c. is_slash c ≡ false) s
no_slash [] h = tt
no_slash (c ∷ s) (h, hs) = (ground arith, no_slash s hs)

pub slash_space : (s : Text) → Passes is_slash s → All (λ c. is_space c ≡ false) s
unfolding is_space
slash_space [] h = tt
slash_space (c ∷ s) (h, hs) = (ground arith, slash_space s hs)

pub slash_question : (s : Text) → Passes is_slash s → IsWithout b'?' s
slash_question [] h = tt
slash_question (c ∷ s) (h, hs) = ((λ e. ground arith), slash_question s hs)
