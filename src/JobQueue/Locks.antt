-- ===== src/JobQueue/Locks.antt =====
-- A lock stands for a worker that runs the job, whatever the workers do.
use pactagent.Prelude.{
  ℕ, ◌≡◌, refl, Bool, true, false, ◌&&◌, not, is_some, Bool-cases, inl, inr, Option, none, some,
  find_first, ◌==◌, nat_eq, String, List, [], ◌∷◌, update_rows, if◌then◌else◌, arith,
}
use pactagent.Store.Rows.{AgentJob, JobStatus, WorkerQueue}
use pactagent.Store.Tx.{Db}
use pactagent.JobQueue.{
  claim_available_jobs, complete_job, defer_job, failed_job, fail_job, renew_job_lease,
  release_stale_locks, has_ended, replay_found, replay_job,
}

-- The lock of a job in the status: its owner, its time and its lease are set exactly while it runs.
abbrev lock_fits : JobStatus → Option ℕ → Option ℕ → Option ℕ → Bool
lock_fits JobStatus.running owner time lease = is_some owner && is_some time && is_some lease
lock_fits _ owner time lease = not (is_some owner) && not (is_some time) && not (is_some lease)

-- A job that has ended holds no dedupe key, so that the same work can be queued again.
abbrev key_fits : JobStatus → Bool → Bool
key_fits JobStatus.completed has_key = not has_key
key_fits JobStatus.dead_letter has_key = not has_key
key_fits _ has_key = true

abbrev fits : AgentJob → Bool
fits job =
    lock_fits job.status job.locked_by job.locked_at job.lease_expires_at
    && key_fits job.status (is_some job.dedupe_key)

abbrev pub LocksFit : List AgentJob → Type 0
LocksFit [] = Unit
LocksFit (x ∷ xs) = (fits x ≡ true) × LocksFit xs

one_fits :
    (b : Bool) (x y : AgentJob)
    → (b ≡ true → fits y ≡ true)
    → fits x ≡ true
    → fits (if b then y else x) ≡ true
one_fits true x y h f = h refl
one_fits false x y h f = f

all_fit :
    (test : AgentJob → Bool) (change : AgentJob → AgentJob) (xs : List AgentJob)
    → ((x : AgentJob) → test x ≡ true → fits x ≡ true → fits (change x) ≡ true)
    → LocksFit xs
    → LocksFit (update_rows test change xs)
unfolding update_rows
all_fit test change [] h f = tt
all_fit test change (x ∷ xs) h f =
    (one_fits (test x) x (change x) (λ t. h x t f.0) f.0, all_fit test change xs h f.1)

failed_fits :
    (dead : Bool) (delay now : ℕ) (error : String) (x : AgentJob)
    → fits (failed_job dead delay now error x) ≡ true
failed_fits true delay now error x = refl
failed_fits false delay now error x = refl

module _ (db : Db) (locks : LocksFit db.jobs) where
  replay_fits : (found : Option AgentJob) (now : ℕ) → LocksFit (replay_found found now db).1.jobs
  replay_fits none now = locks
  replay_fits (some job) now = elim (Bool-cases (has_ended job.status)) [
    | inl ended ↦ rw ended (refl, locks)
    | inr live ↦ rw live locks
  ]

  -- If each job has a lock owner, a lock time and a lease exactly while it is running, and no dedupe
  -- key once it has ended, then so it is after a worker has claimed, completed, deferred, failed or
  -- renewed a job, whether the call throws or not, after stale locks have been released, and after a
  -- replay.
  pub workers-LocksFit :
      (queues : List WorkerQueue) (id worker limit lease delay stale now : ℕ) (job : AgentJob)
      (error : String)
      → LocksFit (claim_available_jobs worker queues limit lease now db.jobs)
        × (LocksFit (complete_job id worker now db).1.jobs
            × (LocksFit (defer_job id worker delay now db).1.jobs
                × (LocksFit (fail_job job worker delay now error db).1.jobs
                    × (LocksFit (renew_job_lease id worker lease now db).1.jobs
                        × (LocksFit (release_stale_locks stale now db.jobs)
                            × LocksFit (replay_job id now db).1.jobs)))))
  unfolding claim_available_jobs complete_job defer_job fail_job renew_job_lease release_stale_locks
      replay_job
  workers-LocksFit queues id worker limit lease delay stale now job error = (
    all_fit _ _ db.jobs (λ x t f. refl) locks,
    (
      all_fit _ _ db.jobs (λ x t f. refl) locks,
      (
        all_fit _ _ db.jobs (λ x t f. refl) locks,
        (
          all_fit _ _ db.jobs (λ x t f. failed_fits _ delay now error x) locks,
          (
            all_fit _ _ db.jobs (λ x t f. ground arith) locks,
            (
              all_fit _ _ db.jobs (λ x t f. refl) locks,
              replay_fits (find_first (λ (row : AgentJob). row.id == id) db.jobs) now,
            ),
          ),
        ),
      ),
    ),
  )
