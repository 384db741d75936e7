-- ===== src/JobQueue/Lease.antt =====
-- A worker that has lost its lease changes nothing.
use pactagent.Prelude.{
  ℕ, ◌≡◌, refl, Bool, true, false, nat_eq, option_eq, String, List, [], ◌∷◌, All, some, count_rows,
  update_rows, arith, Bool-cases, inl, inr,
}
use pactagent.Errors.{err, internal}
use pactagent.Store.Rows.{AgentJob, JobStatus}
use pactagent.Store.Tx.{Db}
use pactagent.JobQueue.{
  is_running, is_owned, update_owned, complete_job, defer_job, fail_job, renew_job_lease,
}

none_counted :
    (test : AgentJob → Bool) (change : AgentJob → AgentJob) (xs : List AgentJob)
    → count_rows test xs ≡ 0
    → update_rows test change xs ≡ xs
unfolding count_rows update_rows
none_counted test change [] h = refl
none_counted test change (x ∷ xs) h = ground (arith, none_counted test change xs)

running_status : (s : JobStatus) → is_running s ≡ true → s ≡ JobStatus.running
running_status JobStatus.running h = refl
running_status JobStatus.queued h = absurd (cc)
running_status JobStatus.retry h = absurd (cc)
running_status JobStatus.completed h = absurd (cc)
running_status JobStatus.dead_letter h = absurd (cc)

-- The job is not running under the worker.
abbrev pub IsLost : ℕ → ℕ → AgentJob → Type 0
IsLost id worker row =
    row.id ≡ id → ¬ ((row.status ≡ JobStatus.running) × (row.locked_by ≡ some worker))

not_picked :
    (id worker : ℕ) (row : AgentJob) → IsLost id worker row → is_owned id worker row ≡ false
not_picked id worker row lost = elim (Bool-cases (is_owned id worker row)) [
  | inl own ↦ absurd (
      lost (ground (arith, own)) (
        running_status row.status (ground (arith, own)),
        (option_eq.beq_iff row.locked_by (some worker)).0 (ground (arith, own)),
      ))
  | inr other ↦ other
]

none_owned :
    (id worker : ℕ) (jobs : List AgentJob)
    → All (IsLost id worker) jobs
    → count_rows (is_owned id worker) jobs ≡ 0
unfolding count_rows
none_owned id worker [] h = refl
none_owned id worker (x ∷ xs) h = rw (not_picked id worker x h.0) (none_owned id worker xs h.1)

not_owned :
    (id worker : ℕ) (change : AgentJob → AgentJob) (db : Db)
    → count_rows (is_owned id worker) db.jobs ≡ 0
    → update_owned id worker change db ≡ (err (internal "job_lease_not_owned"), db)
unfolding update_owned
not_owned id worker change db h = rw (h, none_counted (is_owned id worker) change db.jobs h)

-- If the job is not running, or its lock is another worker's or nobody's, then completing it,
-- deferring it, failing it and renewing its lease throw, and leave the database as it is: a worker
-- whose lease was released cannot touch what another worker has taken over.
pub lost_lease :
    (job : AgentJob) (worker delay lease now : ℕ) (error : String) (db : Db)
    → All (IsLost job.id worker) db.jobs
    → (complete_job job.id worker now db ≡ (err (internal "job_lease_not_owned"), db))
      × ((defer_job job.id worker delay now db ≡ (err (internal "job_lease_not_owned"), db))
          × ((fail_job job worker delay now error db ≡ (err (internal "job_lease_not_owned"), db))
              × (renew_job_lease job.id worker lease now db
                  ≡ (err (internal "job_lease_not_owned"), db))))
unfolding complete_job defer_job fail_job renew_job_lease
lost_lease job worker delay lease now error db lost =
    let h = none_owned job.id worker db.jobs lost in
    (
      not_owned job.id worker _ db h,
      (
        not_owned job.id worker _ db h,
        (not_owned job.id worker _ db h, not_owned job.id worker _ db h),
      ),
    )
