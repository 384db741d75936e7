-- ===== src/Repository/Jobs.antt =====
-- server/src/services/jobQueueService.ts: `enqueueJob`, which other transactions call.
use pactagent.Prelude.{
  ℕ, Bool, true, false, ◌&&◌, Option, none, some, ◌∷◌, ◌==◌, nat_eq, option_eq, find_first,
  update_rows, is_some, if◌then◌else◌,
}
use pactagent.Errors.{Result, ok, err, unique_violation, reject_if}
use pactagent.Store.Rows.{
  AgentJob, JobKind, JobStatus, WorkerQueue, JobPayload, DedupeKey, dedupe_key_eq,
}
use pactagent.Store.Tx.{Db, Tx, pure, fail, lift, reads, modify, new_id, ◌>>=◌, ◌>>◌}

abbrev pub default_max_attempts : ℕ
default_max_attempts = 5

abbrev pub queue_for_job_kind : JobKind → WorkerQueue
queue_for_job_kind JobKind.ckb_reconcile_transaction = WorkerQueue.settlement
queue_for_job_kind JobKind.deliver_webhook = WorkerQueue.webhook

-- `['QUEUED', 'RUNNING', 'RETRY'].includes(status)`
abbrev pub is_live : JobStatus → Bool
is_live JobStatus.completed = false
is_live JobStatus.dead_letter = false
is_live _ = true

-- The `data` of a new job.
pub record NewJob : Type 0 where
  pub app_id : ℕ
  pub agreement_id : Option ℕ
  pub kind : JobKind
  pub payload : Option JobPayload
  pub available_at : ℕ
  pub max_attempts : ℕ
  pub dedupe_key : Option DedupeKey

abbrev pub queued_job : NewJob → ℕ → AgentJob
queued_job job id = record {
  id = id;
  app_id = job.app_id;
  agreement_id = job.agreement_id;
  kind = job.kind;
  queue = queue_for_job_kind job.kind;
  status = JobStatus.queued;
  dedupe_key = job.dedupe_key;
  payload = job.payload;
  available_at = job.available_at;
  attempts = 0;
  max_attempts = job.max_attempts;
  locked_at = none;
  locked_by = none;
  lease_expires_at = none;
  completed_at = none;
  dead_lettered_at = none;
  last_error = none;
}

abbrev pub has_dedupe_key : Option DedupeKey → AgentJob → Bool
has_dedupe_key key job = is_some key && job.dedupe_key == key

-- `agentJob.create`, under the unique index on `dedupeKey`.
unfoldable pub create_job : NewJob → Tx AgentJob
create_job job = do
  taken ← reads (λ db. is_some (find_first (has_dedupe_key job.dedupe_key) db.jobs))
  lift (reject_if taken unique_violation)
  id ← new_id
  modify (λ db. record db { jobs = queued_job job id ∷ db.jobs })
  pure (queued_job job id)

abbrev pub is_live_duplicate : Option DedupeKey → AgentJob → Bool
is_live_duplicate key job = has_dedupe_key key job && is_live job.status

abbrev pub return_or_create : NewJob → Option AgentJob → Tx AgentJob
return_or_create job (some existing) = pure existing
return_or_create job none = create_job job

-- The key of a job that has ended is cleared, and the job is created anew.
abbrev pub recreate_job : NewJob → AgentJob → Tx AgentJob
recreate_job job existing = do
  modify (λ db. record db {
    jobs =
        update_rows (λ row. row.id == existing.id) (λ row. record row { dedupe_key = none })
          db.jobs;
  })
  create_job job

-- The `catch` of `enqueueJob`: what a P2002 finds under the key.
abbrev pub recover : NewJob → Option AgentJob → Tx AgentJob
recover job none = fail unique_violation
recover job (some existing) =
    if is_live existing.status then pure existing else recreate_job job existing

abbrev pub caught : {A : Type 0} → Result (A × Db) → Tx A → Tx A
caught (err unique_violation) handler db = handler db
caught (ok r) handler db = ok r
caught (err e) handler db = err e

-- `enqueueJob`
unfoldable pub enqueue_job : NewJob → Tx AgentJob
unfolding create_job
enqueue_job job db =
    caught (return_or_create job (find_first (is_live_duplicate job.dedupe_key) db.jobs) db)
      (recover job (find_first (has_dedupe_key job.dedupe_key) db.jobs)) db
