-- ===== src/Store/Jobs/Lifecycle/Sound.antt =====
-- What the statements keep true of every job, and of the table.
use battle_cloud.Common.{
  ℕ, ◌≤◌, ◌<◌, ◌≡◌, ◌≢◌, refl, sym, subst, Bool, true, false, ◌&&◌, ltb, List, [], ◌∷◌, none, some,
  arith, Text, All, Bool-cases, inl, inr, if◌then◌else◌,
}
use battle_cloud.Store.Jobs.{JobStatus, queued, running, succeeded, failed, cancelled}
use battle_cloud.Store.Jobs.Lifecycle.{
  Ticket, is_queued, is_running, update, claimed, completed, extended, failed_at, reclaimed,
}

abbrev pub IsReleased : Ticket → Type 0
IsReleased t = (t.claimed_by ≡ none) × (t.claimed_at ≡ none) × (t.lease_expires_at ≡ none)

abbrev pub IsClaimed : Ticket → Type 0
IsClaimed t = (t.claimed_by ≢ none) × (t.claimed_at ≢ none) × (t.lease_expires_at ≢ none)

-- A job as its status says; no statement cancels one.
abbrev pub IsSoundAt : ℕ → JobStatus → Ticket → Type 0
IsSoundAt max queued t = IsReleased t × (t.row.analysis_id ≡ none) × (t.row.attempts < max)
IsSoundAt max running t = IsClaimed t × (t.row.analysis_id ≡ none) × (t.row.attempts ≤ max)
IsSoundAt max succeeded t =
    IsReleased t × (t.row.analysis_id ≢ none) × (t.row.error_kind ≡ none) × (t.row.attempts ≤ max)
IsSoundAt max failed t =
    IsReleased t × (t.row.analysis_id ≡ none) × (t.row.error_kind ≢ none) × (t.row.attempts ≤ max)
IsSoundAt max cancelled t = true ≡ false

abbrev pub IsSound : ℕ → Ticket → Type 0
IsSound max t = IsSoundAt max t.row.status t

pub running_status : (s : JobStatus) → is_running s ≡ true → s ≡ running
running_status queued h = cc h
running_status running h = refl
running_status succeeded h = cc h
running_status failed h = cc h
running_status cancelled h = cc h

pub queued_status : (s : JobStatus) → is_queued s ≡ true → s ≡ queued
queued_status queued h = refl
queued_status running h = cc h
queued_status succeeded h = cc h
queued_status failed h = cc h
queued_status cancelled h = cc h

pub running_sound :
    (max : ℕ) (t : Ticket)
    → IsSound max t
    → is_running t.row.status ≡ true
    → IsSoundAt max running t
running_sound max t h k = subst (λ s. IsSoundAt max s t) (running_status t.row.status k) h

pub update-All :
    (Q P : Ticket → Type 0) (p : Ticket → Bool) (f : Ticket → Ticket) (tickets : List Ticket)
    → ((t : Ticket) → Q t → P t → p t ≡ true → P (f t))
    → All Q tickets
    → All P tickets
    → All P (update p f tickets)
update-All Q P p f [] change k h = tt
update-All Q P p f (t ∷ tickets) change k h = (
  elim (Bool-cases (p t)) as (λ c. P (if p t then f t else t)) [
    | inl e ↦ rw e (change t k.0 h.0 e)
    | inr e ↦ rw e (h.0)
  ],
  update-All Q P p f tickets change k.1 h.1,
)

some_filled {ℓ} : {A : Type ℓ} (a : A) → some a ≢ none
some_filled a h = cc h

module _ (max : ℕ) where
  pub completed-IsSound :
      (analysis : Text) (now : ℕ) (t : Ticket)
      → IsSoundAt max running t
      → IsSound max (completed analysis now t)
  completed-IsSound analysis now t h = ((refl, refl, refl), some_filled analysis, refl, h.2)

  pub failed_at-IsSound :
      (retryable : Bool) (kind detail : Text) (now : ℕ) (t : Ticket)
      → IsSoundAt max running t
      → IsSound max (failed_at max retryable kind detail now t)
  failed_at-IsSound retryable kind detail now t h =
      elim (Bool-cases (retryable && ltb t.row.attempts max))
        as (λ c. IsSound max (failed_at max retryable kind detail now t)) [
          | inl e ↦ rw e ((refl, refl, refl), h.1, ground arith)
          | inr e ↦ rw e ((refl, refl, refl), h.1, some_filled kind, h.2)
        ]

  pub extended-IsSound :
      (lease now : ℕ) (t : Ticket)
      → IsSound max t
      → is_running t.row.status ≡ true
      → IsSound max (extended lease now t)
  extended-IsSound lease now t h k =
      let r = running_sound max t h k in
      subst (λ s. IsSoundAt max s (extended lease now t)) (sym (running_status t.row.status k))
        ((r.0.0, r.0.1, some_filled _), r.1, r.2)

  pub reclaimed-IsSound :
      (now : ℕ) (t : Ticket) → IsSoundAt max running t → IsSound max (reclaimed max now t)
  reclaimed-IsSound now t h =
      elim (Bool-cases (ltb t.row.attempts max)) as (λ c. IsSound max (reclaimed max now t)) [
        | inl e ↦ rw e ((refl, refl, refl), h.1, ground arith)
        | inr e ↦ rw e ((refl, refl, refl), h.1, some_filled _, h.2)
      ]

  pub claimed-IsSound :
      (worker : Text) (lease now : ℕ) (t : Ticket)
      → IsSoundAt max queued t
      → IsSound max (claimed worker lease now t)
  claimed-IsSound worker lease now t h =
      ((some_filled worker, some_filled now, some_filled _), h.1, omega (arith, h.2))
