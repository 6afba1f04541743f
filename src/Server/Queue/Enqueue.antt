-- ===== src/Server/Queue/Enqueue.antt =====
-- `enqueue`, `log` and `retry` of `RemoteQueueRepository` (RotoWeaveServer/server/repository.py).
use rotoweave.Base.{
  ℕ, String, Bool, true, false, Option, none, some, str_eq, if◌then◌else◌, or_else,
}
use rotoweave.Base.Signed.{pos}
use rotoweave.Server.Logging.{Fields, text, end, field}
use rotoweave.Server.Queue.Schema.{queued, is_terminal, Job, Db}
use rotoweave.Server.Queue.Statements.{
  ◌>>=◌, ◌>>◌, idempotency_conflict, invalid_queue_operation, Result, ok, err, Tx, pure, raise,
  read, transaction, job_of, job_of_key, insert_job, next_order, append_event, append_log,
  json_text,
}

-- What `enqueue` is called with.
pub record NewJob : Type 0 where
  pub job_id : String
  pub idempotency_key : String
  pub request_sha256 : String
  pub submission : Fields
  pub input_path : String
  pub model_configuration_digest : Option String
  pub quality_profile : Option String
  pub parent_job_id : Option String

abbrev pub job_row : NewJob → ℕ → ℕ → Job
job_row n order now = record {
  id = n.job_id;
  idempotency_key = n.idempotency_key;
  request_sha256 = n.request_sha256;
  submission = n.submission;
  state = queued;
  progress = pos 0;
  stage = some "queued";
  error = none;
  input_path = n.input_path;
  result_path = none;
  result_sha256 = none;
  attempt = 0;
  cancel_requested = false;
  created_at = now;
  updated_at = now;
  started_at = none;
  finished_at = none;
  expires_at = none;
  queue_order = order;
  parent_job_id = n.parent_job_id;
  model_configuration_digest = n.model_configuration_digest;
  quality_profile = n.quality_profile;
}

abbrev pub accepted_detail : NewJob → Fields
accepted_detail n = field "requestSha256" (text n.request_sha256) (
    field "modelConfigurationDigest" (json_text n.model_configuration_digest)
      (field "qualityProfile" (json_text n.quality_profile) end))

-- `enqueue` where no job has the key.
unfoldable pub enqueue_new : NewJob → ℕ → Tx (Job × Bool)
enqueue_new n now = do
  order ← read (λ db. next_order db.jobs)
  insert_job (job_row n order now)
  sequence ← append_event n.job_id queued (pos 0) (some "queued") (some "Job accepted.") now
  append_log (some n.job_id) "info" "job.accepted" (accepted_detail n) none now
  created ← read (job_of n.job_id)
  pure (or_else created (job_row n order now), true)

-- `enqueue` where the job `existing` has the key.
unfoldable pub enqueue_existing : NewJob → Job → Tx (Job × Bool)
enqueue_existing n existing =
    if str_eq existing.request_sha256 n.request_sha256
    then pure (existing, false)
    else raise idempotency_conflict

abbrev pub enqueue_found : NewJob → ℕ → Option Job → Tx (Job × Bool)
enqueue_found n now none = enqueue_new n now
enqueue_found n now (some existing) = enqueue_existing n existing

unfoldable pub enqueue : NewJob → ℕ → Db → Result (Job × Bool) × Db
unfolding enqueue_new enqueue_existing
enqueue n now =
    transaction do existing ← read (job_of_key n.idempotency_key); enqueue_found n now existing

-- `log`
unfoldable pub log :
    Option String → String → String → Fields → Option String → ℕ → Db → Result (Unit {0}) × Db
log i level event detail component now = transaction (append_log i level event detail component now)

-- What `retry` enqueues for the job `source`.
abbrev pub retried : Job → String → String → String → NewJob
retried source new_id new_key new_path = record {
  job_id = new_id;
  idempotency_key = new_key;
  request_sha256 = source.request_sha256;
  submission = source.submission;
  input_path = new_path;
  model_configuration_digest = source.model_configuration_digest;
  quality_profile = source.quality_profile;
  parent_job_id = some source.id;
}

abbrev pub log_retried : String → String → ℕ → Result (Job × Bool) × Db → Result Job × Db
log_retried new_id parent now (err e, db) = (err e, db)
log_retried new_id parent now (ok (job, created), db) =
    let (logged, db') =
      log (some new_id) "info" "job.retried" (field "parentJobId" (text parent) end) (some "admin")
        now db in
    elim logged [ err e ↦ (err e, db') | ok _ ↦ (ok job, db') ]

abbrev pub retry_from : Option Job → String → String → String → ℕ → Db → Result Job × Db
retry_from none new_id new_key new_path now db = (err invalid_queue_operation, db)
retry_from (some source) new_id new_key new_path now db =
    if is_terminal source.state
    then log_retried new_id source.id now (enqueue (retried source new_id new_key new_path) now db)
    else (err invalid_queue_operation, db)

-- `retry`: a new job for the request of a finished one, in two transactions.
unfoldable pub retry : String → String → String → String → ℕ → Db → Result Job × Db
unfolding log
retry i new_id new_key new_path now db = retry_from (job_of i db) new_id new_key new_path now db
