-- ===== src/Tests/Jobs.antt =====
-- A job that one worker runs, and another worker.
use pactagent.Prelude.{All, arith, ◌≡◌, refl, none, some, [], ◌∷◌}
use pactagent.Errors.{err, internal}
use pactagent.Store.Rows.{AgentJob, JobKind, JobStatus, WorkerQueue}
use pactagent.Store.Tx.{Db}
use pactagent.JobQueue.{
  claim_available_jobs, complete_job, defer_job, fail_job, renew_job_lease, release_stale_locks,
  replay_job,
}
use pactagent.JobQueue.Locks.{LocksFit, workers-LocksFit}
use pactagent.JobQueue.Lease.{IsLost, lost_lease}
use pactagent.Tests.{two_apps}

abbrev job : AgentJob
job = record {
  id = 60;
  app_id = 1;
  agreement_id = some 10;
  kind = JobKind.deliver_webhook;
  queue = WorkerQueue.webhook;
  status = JobStatus.running;
  dedupe_key = none;
  payload = none;
  available_at = 5;
  attempts = 1;
  max_attempts = 5;
  locked_at = some 6;
  locked_by = some 70;
  lease_expires_at = some 66;
  completed_at = none;
  dead_lettered_at = none;
  last_error = none;
}

abbrev busy : Db
busy = record two_apps { jobs = job ∷ [] }

workers-LocksFit_example :
    LocksFit (claim_available_jobs 71 (WorkerQueue.webhook ∷ []) 10 60000 9 busy.jobs)
    × (LocksFit (complete_job 60 71 9 busy).1.jobs
        × (LocksFit (defer_job 60 71 2000 9 busy).1.jobs
            × (LocksFit (fail_job job 71 2000 9 "timeout" busy).1.jobs
                × (LocksFit (renew_job_lease 60 71 60000 9 busy).1.jobs
                    × (LocksFit (release_stale_locks 300 9 busy.jobs)
                        × LocksFit (replay_job 60 9 busy).1.jobs)))))
workers-LocksFit_example =
    workers-LocksFit busy (refl, tt) (WorkerQueue.webhook ∷ []) 60 71 10 60000 2000 300 9 job
      "timeout"

other_worker : All (IsLost 60 71) busy.jobs
other_worker = (λ same held. absurd (ground (arith, held.1)), tt)

lost_lease_example :
    (complete_job 60 71 9 busy ≡ (err (internal "job_lease_not_owned"), busy))
    × ((defer_job 60 71 2000 9 busy ≡ (err (internal "job_lease_not_owned"), busy))
        × ((fail_job job 71 2000 9 "timeout" busy ≡ (err (internal "job_lease_not_owned"), busy))
            × (renew_job_lease 60 71 60000 9 busy ≡ (err (internal "job_lease_not_owned"), busy))))
lost_lease_example = lost_lease job 71 2000 60000 9 "timeout" busy other_worker
