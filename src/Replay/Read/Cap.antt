-- ===== src/Replay/Read/Cap.antt =====
-- The ceiling holds, and a body under it is read whole.
use mathlib.Core.List.{append-nil, append_assoc}
use battle_cloud.Common.{
  ◌⊎◌, Text, All-append, ℕ, zero, suc, ◌+◌, ◌≤◌, ◌<◌, ◌≡◌, refl, sym, ap, ◌∙◌, List, [], ◌∷◌, ◌++◌,
  Option, none, some, arith, length, All, false, Bool-cases, inl, inr, ltb, leb, if◌then◌else◌,
  length-append,
}
use battle_cloud.Contract.Errors.{ErrorKind, replay_malformed, replay_too_large}
use battle_cloud.Replay.Read.{
  other_error, replay_fetch_error, ok, throw, Effect, pulled, cancelled, Read, chunk, no_value,
  rejected, too_large, concat, read_loop, read_capped,
}

length-concat-append :
    (chunks : List (List ℕ)) (bytes : List ℕ)
    → length (concat (chunks ++ bytes ∷ [])) ≡ length (concat chunks) + length bytes
length-concat-append [] bytes = omega (arith, length-append bytes [])
length-concat-append (c ∷ chunks) bytes = omega (
  arith,
  length-append c (concat (chunks ++ bytes ∷ [])),
  length-append c (concat chunks),
  length-concat-append chunks bytes,
)

read_loop-bound :
    (max_bytes total : ℕ) (chunks : List (List ℕ)) (reads : List Read) (bytes : List ℕ)
    → length (concat chunks) ≡ total
    → total ≤ max_bytes
    → (read_loop max_bytes total chunks reads).0 ≡ ok bytes
    → length bytes ≤ max_bytes
unfolding read_loop
read_loop-bound m t cs [] bytes e h k = ground arith
read_loop-bound m t cs (no_value ∷ reads) bytes e h k = read_loop-bound m t cs reads bytes e h k
read_loop-bound m t cs (rejected c ∷ reads) bytes e h k = cc
read_loop-bound m t cs (chunk b ∷ reads) bytes e h k = elim (Bool-cases (ltb m (t + length b))) [
  | inl over ↦ cc (rw over at k)
  | inr fits ↦
      read_loop-bound m (t + length b) (cs ++ b ∷ []) reads bytes
        (omega (arith, length-concat-append cs b)) (ground arith) (rw fits at k)
]

-- A stream that does not fail.
abbrev pub IsData : Read → Type 0
IsData (rejected cause) = ⊥
IsData _ = Unit

-- The bytes of a stream.
abbrev pub contents : List Read → List ℕ
contents [] = []
contents (chunk bytes ∷ reads) = bytes ++ contents reads
contents (_ ∷ reads) = contents reads

concat-snoc :
    (chunks : List (List ℕ)) (bytes more : List ℕ)
    → concat (chunks ++ bytes ∷ []) ++ more ≡ concat chunks ++ (bytes ++ more)
concat-snoc [] bytes more = rw append-nil
concat-snoc (c ∷ chunks) bytes more =
    append_assoc c _ more ∙ (ap (◌++◌ c) (concat-snoc chunks bytes more) ∙ sym (append_assoc c _ _))

read_loop_complete :
    (m t : ℕ) (cs : List (List ℕ)) (reads : List Read)
    → All IsData reads
    → t ≤ m
    → (read_loop m t cs reads).0 ≡ (
        if leb (t + length (contents reads)) m
        then ok (concat cs ++ contents reads)
        else throw (too_large m))
unfolding read_loop
read_loop_complete m t cs [] d h = rw append-nil (ground arith)
read_loop_complete m t cs (no_value ∷ reads) (_, d) h = read_loop_complete m t cs reads d h
read_loop_complete m t cs (rejected c ∷ reads) (d, _) h = absurd d
read_loop_complete m t cs (chunk b ∷ reads) (_, d) h = elim (Bool-cases (ltb m (t + length b))) [
  | inl over ↦ ground (arith, length-append b (contents reads))
  | inr fits ↦ ground (
    arith,
    read_loop_complete m (t + length b) (cs ++ b ∷ []) reads d,
    length-append b (contents reads),
    concat-snoc cs b (contents reads),
  )
]

-- A body that arrives without a failure is returned whole when it fits the ceiling, and is refused
-- as too large when it does not.
pub read_capped_complete :
    (reads : List Read) (max_bytes : ℕ)
    → All IsData reads
    → (read_capped (some reads) max_bytes).0 ≡ (
        if leb (length (contents reads)) max_bytes
        then ok (contents reads)
        else throw (too_large max_bytes))
unfolding read_capped
read_capped_complete reads m d = ground (arith, read_loop_complete m 0 [] reads d)

read_loop-inv :
    (m t : ℕ) (cs : List (List ℕ)) (reads : List Read) (bytes : List ℕ)
    → t ≤ m
    → (read_loop m t cs reads).0 ≡ ok bytes
    → All IsData reads × (t + length (contents reads) ≤ m) × (bytes ≡ concat cs ++ contents reads)
unfolding read_loop
read_loop-inv m t cs [] bytes h k = (tt, omega arith, rw append-nil (cc k))
read_loop-inv m t cs (no_value ∷ reads) bytes h k =
    let (d, le, e) = read_loop-inv m t cs reads bytes h k in ((tt, d), le, e)
read_loop-inv m t cs (rejected c ∷ reads) bytes h k = cc
read_loop-inv m t cs (chunk b ∷ reads) bytes h k = elim (Bool-cases (ltb m (t + length b))) [
  | inl over ↦ cc (rw over at k)
  | inr fits ↦
      let (d, le, e) =
        read_loop-inv m (t + length b) (cs ++ b ∷ []) reads bytes (ground arith) (rw fits at k) in
      (
        (tt, d),
        omega (arith, length-append b (contents reads)),
        e ∙ concat-snoc cs b (contents reads),
      )
]

-- What a body that is read has been.
pub read_capped-inv :
    (body : Option (List Read)) (m : ℕ) (bytes : List ℕ)
    → (read_capped body m).0 ≡ ok bytes
    → (reads : List Read) × (body ≡ some reads)
      × All IsData reads
      × (length (contents reads) ≤ m)
      × (bytes ≡ contents reads)
unfolding read_capped
read_capped-inv none m bytes e = cc
read_capped-inv (some reads) m bytes e =
    let (d, le, same) = read_loop-inv m 0 [] reads bytes (omega arith) e in
    (reads, refl, d, omega arith, same)

pub read_capped-fits :
    (reads : List Read) (m : ℕ)
    → All IsData reads
    → length (contents reads) ≤ m
    → (read_capped (some reads) m).0 ≡ ok (contents reads)
read_capped-fits reads m d h = ground (arith, read_capped_complete reads m d)

abbrev pub pulls : ℕ → List Effect
pulls zero = []
pulls (suc n) = pulled ∷ pulls n

read_loop-stops :
    (m t : ℕ) (cs : List (List ℕ)) (before : List Read) (bytes : List ℕ) (after : List Read)
    → All IsData before
    → t + length (contents before) ≤ m
    → m < t + length (contents before) + length bytes
    → read_loop m t cs (before ++ chunk bytes ∷ after)
      ≡ (throw (too_large m), pulls (length before + 1))
unfolding read_loop
read_loop-stops m t cs [] bytes after d h k = ground arith
read_loop-stops m t cs (no_value ∷ before) bytes after (_, d) h k =
    rw (read_loop-stops m t cs before bytes after d h k) (ground arith)
read_loop-stops m t cs (rejected c ∷ before) bytes after (d, _) h k = absurd d
read_loop-stops m t cs (chunk b ∷ before) bytes after (_, d) h k =
    let l = length-append b (contents before) in
    let fits : ltb m (t + length b) ≡ false = ground arith in
    rw
      (
        fits,
        read_loop-stops m (t + length b) (cs ++ b ∷ []) before bytes after d (omega (arith, l))
            (omega (arith, l)),
      )
      (ground arith)

-- Reading stops at the first chunk that passes the ceiling, whatever would follow it: one pull for
-- each event up to that chunk, then the stream is cancelled.
pub read_capped-stops :
    (before : List Read) (bytes : List ℕ) (after : List Read) (max_bytes : ℕ)
    → All IsData before
    → length (contents before) ≤ max_bytes
    → max_bytes < length (contents before) + length bytes
    → read_capped (some (before ++ chunk bytes ∷ after)) max_bytes
      ≡ (throw (too_large max_bytes), pulls (length before + 1) ++ cancelled ∷ [])
unfolding read_capped
read_capped-stops before bytes after m d h k =
    rw (read_loop-stops m 0 [] before bytes after d (omega arith) (omega arith))

-- Whatever the stream does, the bytes that are kept never pass the ceiling.
pub read_capped-le :
    (body : Option (List Read)) (max_bytes : ℕ) (bytes : List ℕ)
    → (read_capped body max_bytes).0 ≡ ok bytes
    → length bytes ≤ max_bytes
unfolding read_capped
read_capped-le none m bytes e = cc
read_capped-le (some reads) m bytes e = read_loop-bound m 0 [] reads bytes refl (omega arith) e

abbrev pub IsReading : Effect → Type 0
IsReading pulled = Unit
IsReading cancelled = Unit
IsReading _ = ⊥

read_loop-IsReading :
    (m t : ℕ) (cs : List (List ℕ)) (reads : List Read) → All IsReading (read_loop m t cs reads).1
unfolding read_loop
read_loop-IsReading m t cs [] = (tt, tt)
read_loop-IsReading m t cs (no_value ∷ reads) = (tt, read_loop-IsReading m t cs reads)
read_loop-IsReading m t cs (rejected c ∷ reads) = (tt, tt)
read_loop-IsReading m t cs (chunk b ∷ reads) = elim (Bool-cases (ltb m (t + length b))) [
  | inl over ↦ rw over (tt, tt)
  | inr fits ↦ rw fits (tt, read_loop-IsReading m (t + length b) (cs ++ b ∷ []) reads)
]

-- Reading only pulls and cancels.
pub read_capped-IsReading :
    (body : Option (List Read)) (m : ℕ) → All IsReading (read_capped body m).1
unfolding read_capped
read_capped-IsReading none m = tt
read_capped-IsReading (some reads) m =
    All-append IsReading _ (cancelled ∷ []) (read_loop-IsReading m 0 [] reads) (tt, tt)

read_loop-rejected :
    (m t : ℕ) (cs : List (List ℕ)) (before : List Read) (cause : Text) (after : List Read)
    → All IsData before
    → t + length (contents before) ≤ m
    → (read_loop m t cs (before ++ rejected cause ∷ after)).0 ≡ throw (other_error cause)
unfolding read_loop
read_loop-rejected m t cs [] cause after d h = refl
read_loop-rejected m t cs (no_value ∷ before) cause after (_, d) h =
    read_loop-rejected m t cs before cause after d h
read_loop-rejected m t cs (rejected c ∷ before) cause after (d, _) h = absurd d
read_loop-rejected m t cs (chunk b ∷ before) cause after (_, d) h =
    let l = length-append b (contents before) in
    let fits : ltb m (t + length b) ≡ false = ground arith in
    rw fits
      (read_loop-rejected m (t + length b) (cs ++ b ∷ []) before cause after d (omega (arith, l)))

-- A stream that fails before the ceiling is passed fails the read with the stream's own error.
pub read_capped-rejected :
    (before : List Read) (cause : Text) (after : List Read) (m : ℕ)
    → All IsData before
    → length (contents before) ≤ m
    → (read_capped (some (before ++ rejected cause ∷ after)) m).0 ≡ throw (other_error cause)
unfolding read_capped
read_capped-rejected before cause after m d h =
    read_loop-rejected m 0 [] before cause after d (omega arith)

read_loop_kind :
    (m t : ℕ) (cs : List (List ℕ)) (reads : List Read) (kind : ErrorKind) (message : Text)
    → (read_loop m t cs reads).0 ≡ throw (replay_fetch_error kind message)
    → kind ≡ replay_too_large
unfolding read_loop too_large
read_loop_kind m t cs [] kind message e = cc
read_loop_kind m t cs (no_value ∷ reads) kind message e = read_loop_kind m t cs reads kind message e
read_loop_kind m t cs (rejected c ∷ reads) kind message e = cc
read_loop_kind m t cs (chunk b ∷ reads) kind message e = elim (Bool-cases (ltb m (t + length b))) [
  | inl over ↦ cc (rw over at e)
  | inr fits ↦ read_loop_kind m (t + length b) (cs ++ b ∷ []) reads kind message (rw fits at e)
]

-- The kinds that a read can fail with.
pub read_capped_kind :
    (body : Option (List Read)) (m : ℕ) (kind : ErrorKind) (message : Text)
    → (read_capped body m).0 ≡ throw (replay_fetch_error kind message)
    → (kind ≡ replay_too_large) ⊎ (kind ≡ replay_malformed)
unfolding read_capped
read_capped_kind none m kind message e = inr (cc e)
read_capped_kind (some reads) m kind message e = inl (read_loop_kind m 0 [] reads kind message e)
