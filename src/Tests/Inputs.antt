-- ===== src/Tests/Inputs.antt =====
-- The parameters of the model as concrete functions, and the inputs that the tests share.
use battle_cloud.Common.{
  ℕ, zero, suc, ◌*◌, ◌+◌, ◌<◌, ◌≡◌, ◌≢◌, refl, ap, Bool, true, false, ◌&&◌, ◌||◌, inl, inr, ◌⊎◌, [],
  ◌∷◌, ◌++◌, none, some, arith, Text, text, length, ltb, ◌==◌, All,
}
use battle_cloud.Json
use battle_cloud.Platform.{Platform, IsLawful}
use battle_cloud.Contract.Identity.{EngineBuild}
use battle_cloud.Replay.Read.{chunk}
use battle_cloud.Replay.Fetch.{responded, ReplayDeps}
use battle_cloud.Routes.{Deps, Api}
use battle_cloud.Routes.Submit.{Request}

-- A moment in unary digits.
abbrev ones : ℕ → Text
ones zero = []
ones (suc n) = b'1' ∷ ones n

-- Texts in the order of their units.
abbrev text_lt : Text → Text → Bool
text_lt [] [] = false
text_lt [] (d ∷ t) = true
text_lt (c ∷ s) [] = false
text_lt (c ∷ s) (d ∷ t) = ltb c d || (c == d && text_lt s t)

abbrev pub plain : Platform
plain = record {
  to_iso_string = ones;
  date_parse = λ s. some (length s);
  to_base64url = λ s. s;
  from_base64url = λ s. s;
  timestamptz = λ s. some (length s * 1000);
  uuid = λ s. some s;
  uuid_lt = text_lt;
}

length-ones : (n : ℕ) → length (ones n) ≡ n
length-ones zero = refl
length-ones (suc n) = ap suc (length-ones n)

ones_ascii : (n : ℕ) → All (λ c. c < 128) (ones n)
ones_ascii zero = tt
ones_ascii (suc n) = (omega arith, ones_ascii n)

ones_no_bar : (n : ℕ) → All (λ c. c ≢ b'|') (ones n)
ones_no_bar zero = tt
ones_no_bar (suc n) = ((λ h. ground arith), ones_no_bar n)

text_lt_irrefl : (s : Text) → text_lt s s ≡ false
text_lt_irrefl [] = refl
text_lt_irrefl (c ∷ s) = ground (arith, text_lt_irrefl s)

text_lt_trans : (a b c : Text) → text_lt a b ≡ true → text_lt b c ≡ true → text_lt a c ≡ true
text_lt_trans [] [] c h k = cc
text_lt_trans [] (y ∷ b) [] h k = cc
text_lt_trans [] (y ∷ b) (z ∷ c) h k = refl
text_lt_trans (x ∷ a) [] c h k = cc
text_lt_trans (x ∷ a) (y ∷ b) [] h k = cc
text_lt_trans (x ∷ a) (y ∷ b) (z ∷ c) h k = ground (arith, text_lt_trans a b c)

text_lt_total : (a b : Text) → (text_lt a b ≡ true) ⊎ ((a ≡ b) ⊎ (text_lt b a ≡ true))
text_lt_total [] [] = inr (inl refl)
text_lt_total [] (y ∷ b) = inl refl
text_lt_total (x ∷ a) [] = inr (inr refl)
text_lt_total (x ∷ a) (y ∷ b) = ground (arith, text_lt_total a b)

pub plain-IsLawful : IsLawful plain
plain-IsLawful = record {
  parse_iso = λ ms dated. ap some (length-ones ms);
  cast_iso = λ ms dated. ap (λ n. some (n * 1000)) (length-ones ms);
  iso_ascii = λ ms dated. ones_ascii ms;
  iso_no_bar = λ ms dated. ones_no_bar ms;
  base64_ascii = λ s h. refl;
  uuid_irrefl = text_lt_irrefl;
  uuid_trans = text_lt_trans;
  uuid_total = text_lt_total;
}

-- A host that has one body for every replay, and a parser that reads the body as the log.
abbrev pub replay_deps : ReplayDeps
replay_deps = record {
  fetch = λ url. responded (record { status = 200; body = some (chunk (b'|' ∷ []) ∷ []) });
  base_url = [];
  max_bytes = 5;
  timeout_ms = 20;
  new_url = λ path base. some (base ++ path);
  decode_utf8 = λ bytes. bytes;
  parse_json = λ s. some (Json.obj (Json.field (text "log") (Json.str s) Json.end));
  stringify = λ s. s;
}

abbrev pub build : EngineBuild
build = record { poke_engine_tag = text "v0.0.48"; usage_stats_dataset = text "2026-07" }

abbrev pub deps : Deps
deps = record { build = build; replay = replay_deps; issues = λ body. []; refusal = λ row. none }

abbrev pub empty_api : Api
empty_api = record {
  analyses = [];
  replays = [];
  jobs = [];
  windows = [];
  limiter = record { limit = 20; window_ms = 3600000; last_sweep = 0 };
}

abbrev pub request_at : ℕ → Text → Request
request_at at id = record {
  body = Json.obj (
      Json.field (text "replayId") (Json.str (text "gen9ou-1"))
        (Json.field (text "perspective") (Json.str (text "p1")) Json.end));
  ip = text "::1";
  at = at;
  refused_at = at + 1;
  stamp = record { id = id; now = at * 1000 };
}
