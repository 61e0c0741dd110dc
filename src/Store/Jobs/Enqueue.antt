-- ===== src/Store/Jobs/Enqueue.antt =====
-- At most one live job for an identity, and what a submission of it gets.
use battle_cloud.Common.{
  ℕ, ◌≤◌, ◌≡◌, ◌≢◌, refl, sym, ap, Bool, true, false, none, some, List, [], ◌∷◌, ◌++◌, arith, Text,
  text_eq, text_eq_iff, text_eq_refl, find?, find?_sound, find?_unique, find?-append,
  count_if-find?, find?-none_of_count_if, one_le_count_if, ◌↔◌, count_if, count_if-append,
  Option-cases, inl, inr,
}
use battle_cloud.Contract.Profiles.{Profile}
use battle_cloud.Contract.Identity.{AnalysisIdentity, same_identity, same_identity_iff}
use battle_cloud.Store.Jobs.{
  JobRow, is_live, is_active, Stamp, new_job, Enqueued, enqueue, job_by_id,
}

abbrev pub has_id : Text → JobRow → Bool
has_id id row = text_eq row.id id

-- The primary key, and the unique index on the live rows.
pub record IsUnique (jobs : List JobRow) : Type 0 where
  pub at_id : (id : Text) → count_if (has_id id) jobs ≤ 1
  pub at_identity : (i : AnalysisIdentity) → count_if (is_active i) jobs ≤ 1

-- An id that no row has.
abbrev pub IsFresh : Text → List JobRow → Type 0
IsFresh id jobs = count_if (has_id id) jobs ≡ 0

active_of_same :
    (i j : AnalysisIdentity) (jobs : List JobRow)
    → same_identity i j ≡ true
    → count_if (is_active j) jobs ≡ count_if (is_active i) jobs
active_of_same i j jobs h =
    ap (λ k. count_if (is_active k) jobs) (sym ((same_identity_iff i j).0 h))

has_id_of_same :
    (i j : Text) (jobs : List JobRow)
    → text_eq i j ≡ true
    → count_if (has_id j) jobs ≡ count_if (has_id i) jobs
has_id_of_same i j jobs h = ap (λ k. count_if (has_id k) jobs) (sym ((text_eq_iff i j).0 h))

is_active_sound :
    (i : AnalysisIdentity) (row : JobRow)
    → is_active i row ≡ true
    → (row.identity ≡ i) × (is_live row.status ≡ true)
unfolding is_active
is_active_sound i row h = ground (arith, same_identity_iff row.identity i)

module _ (stamp : Stamp) (identity : AnalysisIdentity) (profile : Profile) (turns ms : ℕ)
    (jobs : List JobRow) where
  -- With a fresh id, a submission to a table whose two keys are unique keeps them unique: an
  -- identity has one live job at most.
  pub enqueue-IsUnique :
      IsFresh stamp.id jobs
      → IsUnique jobs
      → IsUnique (enqueue stamp identity profile turns ms jobs).1
  unfolding enqueue
  enqueue-IsUnique fresh u = elim (Option-cases (find? (is_active identity) jobs)) [
    | inr (row, e) ↦ rw (e, enqueue) u
    | inl e ↦
        rw (e, enqueue)
          (record {
            at_id = λ id. ground (
              arith,
              count_if-append (has_id id) jobs (new_job stamp identity profile turns ms ∷ []),
              u.at_id id,
              has_id_of_same stamp.id id jobs,
            );
            at_identity = λ i. ground (
              arith,
              count_if-append (is_active i) jobs (new_job stamp identity profile turns ms ∷ []),
              u.at_identity i,
              count_if-find? (is_active identity) jobs e,
              active_of_same identity i jobs,
            );
          })
  ]

  -- What a submission gets, and what it leaves.
  pub record IsServed (result : Enqueued × List JobRow) : Type 0 where
    pub polled : job_by_id result.0.job.id result.1 ≡ some result.0.job
    pub same_replay : result.0.job.replay_id ≡ identity.replay_id
    pub same_side : result.0.job.perspective ≡ identity.perspective
    pub live : is_live result.0.job.status ≡ true
    pub created_iff : (result.0.created ≡ true) ↔ (count_if (is_active identity) jobs ≡ 0)
    pub added :
        result.0.created ≡ true → result.1 ≡ jobs ++ new_job stamp identity profile turns ms ∷ []
    pub joined : result.0.created ≡ false → result.1 ≡ jobs

  count_if_pos :
      (row : JobRow)
      → find? (is_active identity) jobs ≡ some row
      → count_if (is_active identity) jobs ≢ 0
  count_if_pos row e zero_count = ground (
    arith,
    one_le_count_if (is_active identity) (is_active identity) jobs row e
        (find?_sound (is_active identity) jobs row e),
  )

  -- With a fresh id and unique keys: a submission returns a live job of its identity, and that job
  -- is what its id then looks up. It is created exactly when no live job of the identity was there, and then it is the one row
  -- that is added; otherwise the table stays as it was.
  pub enqueue-IsServed :
      IsFresh stamp.id jobs
      → IsUnique jobs
      → IsServed (enqueue stamp identity profile turns ms jobs)
  unfolding enqueue job_by_id
  enqueue-IsServed fresh u = elim (Option-cases (find? (is_active identity) jobs)) [
    | inr (row, e) ↦
        let (same, live) =
          is_active_sound identity row (find?_sound (is_active identity) jobs row e) in
        rw (e, enqueue)
          (record {
            polled = rw (
              find?_unique (is_active identity) (has_id row.id) jobs row e (text_eq_refl row.id)
                  (u.at_id row.id),
              job_by_id,
            );
            same_replay = ap (λ (i : AnalysisIdentity). i.replay_id) same;
            same_side = ap (λ (i : AnalysisIdentity). i.perspective) same;
            live = live;
            created_iff = (λ f. cc f, λ z. absurd (count_if_pos row e z));
            added = λ f. cc f;
            joined = λ f. refl;
          })
    | inl e ↦
        let row = new_job stamp identity profile turns ms in
        let absent : find? (has_id stamp.id) jobs ≡ none =
          find?-none_of_count_if (has_id stamp.id) jobs fresh in
        rw (e, enqueue)
          (record {
            polled = rw (
              find?-append (has_id stamp.id) jobs (row ∷ []),
              absent,
              job_by_id,
              text_eq_refl stamp.id,
            );
            same_replay = refl;
            same_side = refl;
            live = refl;
            created_iff = (λ f. count_if-find? (is_active identity) jobs e, λ z. refl);
            added = λ f. refl;
            joined = λ f. cc f;
          })
  ]
