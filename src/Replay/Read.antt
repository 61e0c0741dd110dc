-- ===== src/Replay/Read.antt =====
-- `readCapped` of api/src/replay/fetch.ts: a body is read under a hard ceiling on its bytes.
pub mod Cap
use battle_cloud.Common.{
  ℕ, suc, ◌+◌, List, [], ◌∷◌, ◌++◌, Option, none, some, Text, text, length, ltb, if◌then◌else◌,
}
use battle_cloud.Contract.Errors.{ErrorKind, replay_malformed, replay_too_large}
use battle_cloud.Contract.Uri.{decimal}

-- What a function throws: `ReplayFetchError` with its kind and message, or any other error.
pub data Thrown : Type 0 where
  replay_fetch_error : ErrorKind → Text → Thrown
  other_error : Text → Thrown

pub data Result {ℓ} (A : Type ℓ) : Type ℓ where
  ok : A → Result A
  throw : Thrown → Result A

-- What the code does to the outside while it fetches.
pub data Effect : Type 0 where
  timer_set timer_cleared pulled cancelled : Effect
  requested : Text → Effect

-- What `reader.read()` gives each time until `done`: a chunk, no value, or a rejection.
pub data Read : Type 0 where
  chunk : List ℕ → Read
  no_value : Read
  rejected : Text → Read

abbrev pub concat : List (List ℕ) → List ℕ
concat [] = []
concat (bytes ∷ chunks) = bytes ++ concat chunks

unfoldable pub too_large : ℕ → Thrown
too_large max_bytes =
    replay_fetch_error replay_too_large
      (text "replay body exceeded " ++ (decimal max_bytes ++ text " bytes"))

-- The loop over the reader, with the chunks so far and their total.
read_loop : ℕ → ℕ → List (List ℕ) → List Read → Result (List ℕ) × List Effect
read_loop max_bytes total chunks [] = (ok (concat chunks), pulled ∷ [])
read_loop max_bytes total chunks (no_value ∷ reads) =
    let (result, effects) = read_loop max_bytes total chunks reads in (result, pulled ∷ effects)
read_loop max_bytes total chunks (rejected cause ∷ reads) = (throw (other_error cause), pulled ∷ [])
read_loop max_bytes total chunks (chunk bytes ∷ reads) =
    let total' = total + length bytes in
    let rest = read_loop max_bytes total' (chunks ++ bytes ∷ []) reads in
    if ltb max_bytes total'
    then (throw (too_large max_bytes), pulled ∷ [])
    else (rest.0, pulled ∷ rest.1)

-- The bytes that `TextDecoder` is given; the reader is cancelled on every path.
unfoldable pub read_capped : Option (List Read) → ℕ → Result (List ℕ) × List Effect
unfolding read_loop
read_capped none max_bytes =
    (throw (replay_fetch_error replay_malformed (text "response had no body")), [])
read_capped (some reads) max_bytes =
    let (result, effects) = read_loop max_bytes 0 [] reads in (result, effects ++ cancelled ∷ [])
