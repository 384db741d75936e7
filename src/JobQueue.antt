-- ===== src/JobQueue.antt =====
-- server/src/services/jobQueueService.ts: what the workers do with the jobs of the queue. One clock
-- reading serves a call, and the list has the newest job first.
pub mod Locks
pub mod Lease
use pactagent.Prelude.{
  ℕ, zero, suc, ◌+◌, ◌-◌, Bool, true, false, not, ◌&&◌, ◌||◌, ◌==◌, nat_eq, option_eq, leb, ltb,
  Option, none, some, is_some, String, List, [], ◌∷◌, find_first, update_rows, count_rows,
  if◌then◌else◌,
}
use pactagent.Errors.{Result, ok, err, internal}
use pactagent.Store.Rows.{AgentJob, JobStatus, WorkerQueue}
use pactagent.Store.Tx.{Db}
use pactagent.Store.Action.{Action}

abbrev bounded : ℕ → ℕ → ℕ → ℕ
bounded low high n = if ltb n low then low else (if ltb high n then high else n)

abbrev queue_tag : WorkerQueue → ℕ
queue_tag WorkerQueue.webhook = 0
queue_tag WorkerQueue.settlement = 1

abbrev is_listed : List WorkerQueue → WorkerQueue → Bool
is_listed [] queue = false
is_listed (x ∷ xs) queue = queue_tag x == queue_tag queue || is_listed xs queue

abbrev pub is_waiting : JobStatus → Bool
is_waiting JobStatus.queued = true
is_waiting JobStatus.retry = true
is_waiting _ = false

-- A missing lease, or one that ended at the time or before.
abbrev lease_is_over : Option ℕ → ℕ → Bool
lease_is_over none now = true
lease_is_over (some expiry) now = leb expiry now

-- The condition of the query that claims jobs.
abbrev pub is_claimable : List WorkerQueue → ℕ → AgentJob → Bool
is_claimable queues now job =
    is_listed queues job.queue
    && is_waiting job.status
    && leb job.available_at now
    && lease_is_over job.lease_expires_at now

-- `ORDER BY "availableAt", "createdAt"`: a job goes behind the older ones of its time.
abbrev by_time : AgentJob → List AgentJob → List AgentJob
by_time job [] = job ∷ []
by_time job (x ∷ xs) =
    let rest = by_time job xs in
    elim (ltb job.available_at x.available_at) [ true ↦ job ∷ x ∷ xs | false ↦ x ∷ rest ]

unfoldable pub candidates : List WorkerQueue → ℕ → List AgentJob → List AgentJob
candidates queues now [] = []
candidates queues now (x ∷ xs) =
    let rest = candidates queues now xs in
    elim (is_claimable queues now x) [ true ↦ by_time x rest | false ↦ rest ]

-- Whether a job with the id is among the first ones.
unfoldable pub is_among : ℕ → List AgentJob → ℕ → Bool
is_among zero jobs id = false
is_among (suc n) [] id = false
is_among (suc n) (x ∷ xs) id = x.id == id || is_among n xs id

abbrev pub claimed_job : ℕ → ℕ → ℕ → AgentJob → AgentJob
claimed_job worker lease now job = record job {
  status = JobStatus.running;
  locked_at = some now;
  locked_by = some worker;
  lease_expires_at = some (now + lease);
  attempts = job.attempts + 1;
}

-- The jobs that the query of `claimAvailableJobs` takes.
abbrev pub is_claimed : List WorkerQueue → ℕ → ℕ → List AgentJob → AgentJob → Bool
is_claimed queues limit now jobs job =
    is_claimable queues now job
    && is_among (bounded 1 100 limit) (candidates queues now jobs) job.id

-- `claimAvailableJobs`, as it leaves the jobs.
unfoldable pub claim_available_jobs :
    ℕ → List WorkerQueue → ℕ → ℕ → ℕ → List AgentJob → List AgentJob
unfolding candidates is_among
claim_available_jobs worker queues limit lease now jobs =
    update_rows (is_claimed queues limit now jobs)
      (claimed_job worker (bounded 10000 900000 lease) now) jobs

abbrev pub is_running : JobStatus → Bool
is_running JobStatus.running = true
is_running _ = false

abbrev pub is_owned : ℕ → ℕ → AgentJob → Bool
is_owned id worker job = job.id == id && is_running job.status && job.locked_by == some worker

abbrev one_row : ℕ → Result (Unit {0})
one_row count = if count == 1 then ok tt else err (internal "job_lease_not_owned")

-- The `updateMany` under the worker's lease, and the check of the count that follows it.
unfoldable pub update_owned : ℕ → ℕ → (AgentJob → AgentJob) → Action (Unit {0})
update_owned id worker change db = (
  one_row (count_rows (is_owned id worker) db.jobs),
  record db { jobs = update_rows (is_owned id worker) change db.jobs },
)

abbrev pub unlocked : AgentJob → AgentJob
unlocked job = record job { locked_at = none; locked_by = none; lease_expires_at = none }

-- `completeJob`
unfoldable pub complete_job : ℕ → ℕ → ℕ → Action (Unit {0})
unfolding update_owned
complete_job id worker now = update_owned id worker (λ job. record (unlocked job) {
  status = JobStatus.completed;
  dedupe_key = none;
  completed_at = some now;
  last_error = none;
})

-- `deferJob`
unfoldable pub defer_job : ℕ → ℕ → ℕ → ℕ → Action (Unit {0})
unfolding update_owned
defer_job id worker delay now = update_owned id worker (λ job. record (unlocked job) {
  status = JobStatus.retry;
  available_at = now + bounded 1000 900000 delay;
  last_error = none;
})

abbrev pub failed_job : Bool → ℕ → ℕ → String → AgentJob → AgentJob
failed_job true delay now error job = record (unlocked job) {
  status = JobStatus.dead_letter;
  dedupe_key = none;
  last_error = some error;
  dead_lettered_at = some now;
}
failed_job false delay now error job = record (unlocked job) {
  status = JobStatus.retry;
  last_error = some error;
  available_at = now + delay;
}

-- `failJob`, for the delay that `getJobRetryDelayMs` has drawn.
unfoldable pub fail_job : AgentJob → ℕ → ℕ → ℕ → String → Action (Unit {0})
unfolding update_owned
fail_job job worker delay now error =
    update_owned job.id worker (failed_job (leb job.max_attempts job.attempts) delay now error)

-- `renewJobLease`
unfoldable pub renew_job_lease : ℕ → ℕ → ℕ → ℕ → Action (Unit {0})
unfolding update_owned
renew_job_lease id worker lease now =
    update_owned id worker (λ job. record job { lease_expires_at = some (now + lease) })

abbrev is_older : Option ℕ → ℕ → Bool
is_older none time = false
is_older (some t) time = ltb t time

-- A lease that has run out, or a lock with no lease that was taken too long ago.
abbrev is_stale_lock : Option ℕ → Option ℕ → ℕ → ℕ → Bool
is_stale_lock none locked stale now = is_older locked (now - stale)
is_stale_lock (some expiry) locked stale now = ltb expiry now

abbrev pub is_stale : ℕ → ℕ → AgentJob → Bool
is_stale stale now job =
    is_running job.status && is_stale_lock job.lease_expires_at job.locked_at stale now

-- `releaseStaleLocks`
unfoldable pub release_stale_locks : ℕ → ℕ → List AgentJob → List AgentJob
release_stale_locks stale now jobs =
    update_rows (is_stale stale now)
      (λ job. record (unlocked job) {
        status = JobStatus.retry;
        available_at = now;
        last_error = some "Recovered stale worker lock.";
      })
      jobs

abbrev pub has_ended : JobStatus → Bool
has_ended JobStatus.completed = true
has_ended JobStatus.dead_letter = true
has_ended _ = false

-- The row of a replay: the columns that it does not name have their defaults.
abbrev pub replayed_job : ℕ → AgentJob → ℕ → AgentJob
replayed_job now job id = record {
  id = id;
  app_id = job.app_id;
  agreement_id = job.agreement_id;
  kind = job.kind;
  queue = job.queue;
  status = JobStatus.queued;
  dedupe_key = none;
  payload = job.payload;
  available_at = now;
  attempts = 0;
  max_attempts = job.max_attempts;
  locked_at = none;
  locked_by = none;
  lease_expires_at = none;
  completed_at = none;
  dead_lettered_at = none;
  last_error = none;
}

abbrev pub replay_found : Option AgentJob → ℕ → Action AgentJob
replay_found none now db = (err (internal "job_not_found"), db)
replay_found (some job) now db =
    if has_ended job.status
    then (
      ok (replayed_job now job db.next_id),
      record db { next_id = suc db.next_id; jobs = replayed_job now job db.next_id ∷ db.jobs },
    )
    else (err (internal "job_cannot_be_replayed"), db)

-- `replayJob`
unfoldable pub replay_job : ℕ → ℕ → Action AgentJob
replay_job id now db = replay_found (find_first (λ (job : AgentJob). job.id == id) db.jobs) now db
