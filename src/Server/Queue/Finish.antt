-- ===== src/Server/Queue/Finish.antt =====
-- `progress`, `_finish`, `complete`, `fail` and `cancel` of `RemoteQueueRepository`
-- (RotoWeaveServer/server/repository.py).
use rotoweave.Base.{
  ℕ, ◌+◌, String, Bool, true, false, ◌||◌, Option, none, some, str_eq, if◌then◌else◌,
}
use rotoweave.Base.Signed.{ℤ, pos}
use rotoweave.Server.Logging.{Json, Fields, null, bool, number, text, object, end, field}
use rotoweave.Server.Queue.Schema.{
  State, queued, running, completed, failed, cancelled, state_eq, state_text, JobError, Job, Db,
  whole,
}
use rotoweave.Server.Queue.Statements.{
  ◌>>=◌, ◌>>◌, Result, Tx, pure, read, transaction, job_of, update_job, append_event,
  clamp_progress, append_log, json_text,
}

-- `progress`: False where the job is not running.
abbrev pub is_running : Option Job → Bool
is_running none = false
is_running (some j) = state_eq j.state running

abbrev pub progress_row : ℤ → String → ℕ → Job → Job
progress_row p stage now j = record j {
  progress = clamp_progress (pos 990_000) p;
  stage = some stage;
  updated_at = now;
}

abbrev pub progress_found : String → ℤ → String → Option String → ℕ → Option Job → Tx Bool
progress_found i p stage message now row =
    if is_running row
    then (do
      update_job i (progress_row p stage now)
      sequence ← append_event i running p (some stage) message now
      pure true)
    else pure false

unfoldable pub progress : String → ℤ → String → Option String → ℕ → Db → Result Bool × Db
progress i p stage message now =
    transaction do row ← read (job_of i); progress_found i p stage message now row

abbrev pub detail_json : Fields → Json
detail_json end = null
detail_json fs = object fs

-- The error object, as JSON.
abbrev pub error_fields : JobError → Fields
error_fields e = field "protocolVersion" (number (pos 1)) (
    field "code" (text e.code) (
      field "message" (text e.message)
        (field "retryable" (bool e.retryable) (field "detail" (detail_json e.detail) end))))

-- `error or {"resultSha256": …}`
abbrev pub finish_detail : Option JobError → Option String → Fields
finish_detail none sha = field "resultSha256" (json_text sha) end
finish_detail (some e) sha = error_fields e

abbrev pub default_message : State → String
default_message completed = "Result ready."
default_message _ = "Job finished."

abbrev pub finish_message : Option JobError → State → String
finish_message none state = default_message state
finish_message (some e) state = if str_eq e.message "" then default_message state else e.message

abbrev pub finish_level : State → String
finish_level failed = "error"
finish_level _ = "info"

abbrev pub finish_event : State → String
finish_event queued = "job.queued"
finish_event running = "job.running"
finish_event completed = "job.completed"
finish_event failed = "job.failed"
finish_event cancelled = "job.cancelled"

abbrev pub finish_row : State → Option JobError → Option String → Option String → ℕ → ℕ → Job → Job
finish_row state error path sha ttl now j = record j {
  state = state;
  progress = if state_eq state cancelled then j.progress else whole;
  stage = some (state_text state);
  error = error;
  result_path = path;
  result_sha256 = sha;
  finished_at = some now;
  expires_at = some (now + ttl);
  updated_at = now;
}

abbrev pub finish_found :
    String → State → ℕ → Option JobError → Option String → Option String → ℕ → Option Job → Tx Bool
finish_found i state ttl error path sha now row =
    if is_running row
    then (do
      update_job i (finish_row state error path sha ttl now)
      sequence ←
          append_event i state whole (some (state_text state)) (some (finish_message error state))
            now
      append_log (some i) (finish_level state) (finish_event state) (finish_detail error sha) none
          now
      pure true)
    else pure false

-- `_finish`; `ttl` is the lifetime of a result, in units of the clock.
unfoldable pub finish :
    String → State → ℕ → Option JobError → Option String → Option String → ℕ → Db → Result Bool × Db
finish i state ttl error path sha now =
    transaction do row ← read (job_of i); finish_found i state ttl error path sha now row

unfoldable pub complete : String → String → String → ℕ → ℕ → Db → Result Bool × Db
unfolding finish
complete i path sha ttl now = finish i completed ttl none (some path) (some sha) now

unfoldable pub fail : String → JobError → ℕ → ℕ → Db → Result Bool × Db
unfolding finish
fail i error ttl now = finish i failed ttl (some error) none none now

abbrev pub cancel_row : ℕ → ℕ → Job → Job
cancel_row ttl now j = record j {
  state = cancelled;
  stage = some "cancelled";
  cancel_requested = true;
  finished_at = some now;
  expires_at = some (now + ttl);
  updated_at = now;
}

abbrev pub cancel_found : String → ℕ → ℕ → Option Job → Tx (Option Job)
cancel_found i ttl now none = pure none
cancel_found i ttl now (some row) =
    if state_eq row.state queued || state_eq row.state running
    then (do
      update_job i (cancel_row ttl now)
      sequence ←
          append_event i cancelled row.progress (some "cancelled")
            (some "Cancelled by operator or client.") now
      append_log (some i) "warning" "job.cancelled" end none now
      read (job_of i))
    else read (job_of i)

unfoldable pub cancel : String → ℕ → ℕ → Db → Result (Option Job) × Db
cancel i ttl now = transaction do row ← read (job_of i); cancel_found i ttl now row
