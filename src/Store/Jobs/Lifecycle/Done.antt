-- ===== src/Store/Jobs/Lifecycle/Done.antt =====
-- The job that its worker completes, as the API then finds it.
use battle_cloud.Common.{
  ℕ, ◌≤◌, ◌≡◌, refl, ap, arith, true, List, [], ◌∷◌, some, Text, text_eq, count_if, find?,
  Bool-cases, inl, inr,
}
use battle_cloud.Platform.{Platform}
use battle_cloud.Store.Jobs.{job_by_id, to_job}
use battle_cloud.Store.Jobs.Enqueue.{has_id}
use battle_cloud.Store.Jobs.Lifecycle.{
  Ticket, is_held, update, completed, complete_job, rows, apply,
}
use battle_cloud.Store.Jobs.Lifecycle.Reached.{IsGood}

module _ (worker id analysis : Text) (now : ℕ) where
  held_counted :
      (tickets : List Ticket) (t : Ticket)
      → find? (is_held worker id) tickets ≡ some t
      → 1 ≤ count_if (has_id id) (rows tickets)
  held_counted [] t h = cc h
  held_counted (u ∷ tickets) t h = ground (arith, held_counted tickets t)

  find_completed :
      (tickets : List Ticket) (t : Ticket)
      → find? (is_held worker id) tickets ≡ some t
      → count_if (has_id id) (rows tickets) ≤ 1
      → find? (has_id id) (rows (update (is_held worker id) (completed analysis now) tickets))
        ≡ some (completed analysis now t).row
  find_completed [] t h unique = cc h
  find_completed (u ∷ tickets) t h unique = elim (Bool-cases (is_held worker id u)) [
    | inl e ↦
        let same : u ≡ t = cc (h, e) in
        let here : text_eq u.row.id id ≡ true = ground arith in
        rw (e, here) (ap (λ v. some (completed analysis now v).row) same)
    | inr e ↦ elim (Bool-cases (text_eq u.row.id id)) [
      | inl f ↦ absurd (ground (arith, held_counted tickets t))
      | inr f ↦ rw (e, f) (find_completed tickets t (ground arith) (ground arith))
    ]
  ]

  -- A job that its holder completes is found by its id, succeeded and with that analysis.
  pub job_by_id-complete_job :
      (p : Platform) (max : ℕ) (tickets : List Ticket) (t : Ticket)
      → IsGood max tickets
      → find? (is_held worker id) tickets ≡ some t
      → job_by_id id (rows (apply p max (complete_job worker id analysis now) tickets))
        ≡ some (to_job (completed analysis now t).row)
  unfolding job_by_id apply
  job_by_id-complete_job p max tickets t good h =
      rw (find_completed tickets t h (good.unique.at_id id), job_by_id) refl
