-- ===== src/Store/Jobs/Lifecycle/Kept.antt =====
-- What the statements keep of the keys of the table, and which row a claim takes.
use battle_cloud.Common.{
  ◌≤◌, ◌≡◌, subst, Bool, true, ◌&&◌, List, [], ◌∷◌, Option, none, some, arith, Text, text_eq,
  text_eq_refl, All, count_if, Bool-cases, inl, inr,
}
use battle_cloud.Platform.{Platform}
use battle_cloud.Contract.Identity.{AnalysisIdentity, same_identity}
use battle_cloud.Store.Jobs.{JobRow, is_active, is_live}
use battle_cloud.Store.Jobs.Enqueue.{has_id, IsUnique}
use battle_cloud.Store.Jobs.Lifecycle.{
  Ticket, is_queued, update, Claimant, is_candidate, sooner, next_job, is_before, rows,
}

count_if-update :
    (Q : Ticket → Type 0) (q : JobRow → Bool) (p : Ticket → Bool) (f : Ticket → Ticket)
    (tickets : List Ticket)
    → ((t : Ticket) → Q t → p t ≡ true → q (f t).row ≡ true → q t.row ≡ true)
    → All Q tickets
    → count_if q (rows (update p f tickets)) ≤ count_if q (rows tickets)
count_if-update Q q p f [] keep h = omega arith
count_if-update Q q p f (t ∷ tickets) keep h =
    let rest = count_if-update Q q p f tickets keep h.1 in
    elim (Bool-cases (p t)) [
      | inl e ↦ rw e (ground (arith, rest, keep t h.0 e))
      | inr e ↦ rw e (omega (arith, rest))
    ]

-- A change of a live row that keeps its id and its identity.
pub record IsKeeping (f : Ticket → Ticket) (t : Ticket) : Type 0 where
  pub id : (f t).row.id ≡ t.row.id
  pub identity : (f t).row.identity ≡ t.row.identity
  pub live : is_live t.row.status ≡ true

active_kept :
    (f : Ticket → Ticket) (t : Ticket) (i : AnalysisIdentity)
    → IsKeeping f t
    → is_active i (f t).row ≡ true
    → is_active i t.row ≡ true
unfolding is_active
active_kept f t i k h =
    let same : same_identity (t.row.identity) i ≡ true =
      subst (λ j. same_identity j i ≡ true) k.identity (ground arith) in
    rw (k.live) same

-- Such a change keeps the keys unique.
pub update-IsUnique :
    (Q : Ticket → Type 0) (p : Ticket → Bool) (f : Ticket → Ticket) (tickets : List Ticket)
    → ((t : Ticket) → Q t → p t ≡ true → IsKeeping f t)
    → All Q tickets
    → IsUnique (rows tickets)
    → IsUnique (rows (update p f tickets))
update-IsUnique Q p f tickets keep h unique = record {
  at_id = λ id.
      let le =
        count_if-update Q (has_id id) p f tickets
          (λ t k e l. subst (λ i. text_eq i id ≡ true) ((keep t k e).id) l) h in
      omega (arith, le, unique.at_id id);
  at_identity = λ i.
      let le =
        count_if-update Q (is_active i) p f tickets (λ t k e l. active_kept f t i (keep t k e) l)
          h in
      omega (arith, le, unique.at_identity i);
}

-- The rows with an id, of which all that count are queued.
abbrev pub QueuedAt : Text → Ticket → Type 0
QueuedAt id t = text_eq t.row.id id ≡ true → is_queued t.row.status ≡ true

abbrev queued_at : Text → Ticket → Bool
queued_at id t = text_eq t.row.id id && is_queued t.row.status

queued_at_le :
    (id : Text) (tickets : List Ticket)
    → count_if (queued_at id) tickets ≤ count_if (has_id id) (rows tickets)
queued_at_le id [] = omega arith
queued_at_le id (t ∷ tickets) = ground (arith, queued_at_le id tickets)

none_at :
    (id : Text) (tickets : List Ticket)
    → count_if (has_id id) (rows tickets) ≤ 0
    → All (QueuedAt id) tickets
none_at id [] h = tt
none_at id (t ∷ tickets) h = ((λ k. ground arith), none_at id tickets (ground arith))

All-queued_at :
    (id : Text) (tickets : List Ticket)
    → 1 ≤ count_if (queued_at id) tickets
    → count_if (has_id id) (rows tickets) ≤ 1
    → All (QueuedAt id) tickets
All-queued_at id [] h k = tt
All-queued_at id (t ∷ tickets) h k = elim (Bool-cases (text_eq t.row.id id)) [
  | inl e ↦ ((λ l. ground (arith, queued_at_le id tickets)), none_at id tickets (ground arith))
  | inr e ↦ ((λ l. cc (e, l)), All-queued_at id tickets (ground arith) (ground arith))
]

module _ (p : Platform) (c : Claimant) (locked : Text → Bool) where
  -- The row that a claim takes is in the table, and queued.
  abbrev Takes : List Ticket → Option Ticket → Type 0
  Takes tickets none = Unit
  Takes tickets (some t) = 1 ≤ count_if (queued_at t.row.id) tickets

  Takes-cons :
      (t : Ticket) (tickets : List Ticket) (next : Option Ticket)
      → Takes tickets next
      → Takes (t ∷ tickets) next
  Takes-cons t tickets none h = tt
  Takes-cons t tickets (some u) h = omega (arith, h)

  Takes-head :
      (t : Ticket) (tickets : List Ticket)
      → is_queued t.row.status ≡ true
      → Takes (t ∷ tickets) (some t)
  Takes-head t tickets h = rw (text_eq_refl t.row.id, h) (omega arith)

  Takes-sooner :
      (t : Ticket) (tickets : List Ticket) (next : Option Ticket)
      → is_queued t.row.status ≡ true
      → Takes tickets next
      → Takes (t ∷ tickets) (sooner p t next)
  Takes-sooner t tickets none h k = Takes-head t tickets h
  Takes-sooner t tickets (some u) h k = elim (Bool-cases (is_before p u t)) [
    | inl e ↦ rw e (Takes-cons t tickets (some u) k)
    | inr e ↦ rw e (Takes-head t tickets h)
  ]

  next_job-Takes : (tickets : List Ticket) → Takes tickets (next_job p c locked tickets)
  unfolding next_job
  next_job-Takes [] = tt
  next_job-Takes (t ∷ tickets) = elim (Bool-cases (is_candidate p c locked t)) [
    | inl e ↦ rw e (
        Takes-sooner t tickets (next_job p c locked tickets) (ground arith)
          (next_job-Takes tickets))
    | inr e ↦ rw e (Takes-cons t tickets (next_job p c locked tickets) (next_job-Takes tickets))
  ]

  -- Under unique ids a claim takes queued rows alone.
  pub next_job-QueuedAt :
      (tickets : List Ticket) (next : Ticket)
      → next_job p c locked tickets ≡ some next
      → ((id : Text) → count_if (has_id id) (rows tickets) ≤ 1)
      → All (QueuedAt next.row.id) tickets
  next_job-QueuedAt tickets next h unique =
      All-queued_at next.row.id tickets (subst (Takes tickets) h (next_job-Takes tickets))
        (unique next.row.id)
