-- ===== src/Server/Service.antt =====
-- The end of a job in `RemoteService._execute` (RotoWeaveServer/server/service.py): how what the processor
-- returns or raises reaches the queue. What the processor and the code around it do is an argument; `now` is
-- the clock's reading.
pub mod Ends
pub mod Over
pub mod Switch
pub mod Submit
pub mod Cleanup
mod Tests
use rotoweave.Base.{
  ℕ, String, Bool, true, false, not, ◌&&◌, ◌||◌, Option, none, some, ltb, if◌then◌else◌, str_eq,
}
use rotoweave.Base.Signed.{pos}
use rotoweave.Server.Logging.{Json, Fields, number, end, field}
use rotoweave.Server.Queue.Schema.{cancelled, state_eq, JobError, Job, Db}
use rotoweave.Server.Queue.Statements.{Error, Result, ok, err, job_of, json_text}
use rotoweave.Server.Queue.Enqueue.{log}
use rotoweave.Server.Queue.Finish.{complete, fail, cancel}

-- `metadata["model"]["execution"]`; `cpu_stages` is none where the list is absent or empty.
pub record Execution : Type 0 where
  pub attempt_count : ℕ
  pub attempted_modes : Json
  pub memory_mode : Json
  pub cpu_stages : Option Json

-- What the processor returns, or ProcessingCancelled, RemoteProcessingError or another exception.
pub data Outcome : Type 0 where
  processed : String → String → Execution → Outcome
  interrupted : Outcome
  rejected : JobError → Outcome
  crashed : String → Outcome

-- What the calls around the processing do: whether the stored submission parses, whether the stop flag is
-- set, the digest of the active configuration, the message where the snapshot of the processor's health or
-- the digest of the result raises an exception, and whether `self.processor.restart()` does.
pub record Surroundings : Type 0 where
  pub parses : Bool
  pub stopped : Bool
  pub active : Option String
  pub snapshot_error : Option String
  pub digest_error : Option String
  pub restart_fails : Bool

-- What the end of a job does besides its writes; an exception that leaves `_execute` is raised.
pub record Ended : Type 0 where
  pub restarts : Bool
  pub removes_result : Bool
  pub raises : Bool
  pub db : Db

-- `check_control` raises ProcessingCancelled.
abbrev pub is_cancelled : Option Job → Bool
is_cancelled none = true
is_cancelled (some j) = state_eq j.state cancelled

abbrev pub retry_detail : Option String → Execution → Fields
retry_detail profile x = field "profile" (json_text profile) (
    field "attemptCount" (number (pos x.attempt_count))
      (field "attemptedModes" x.attempted_modes end))

abbrev pub cpu_detail : Option String → Json → Json → Fields
cpu_detail profile mode stages =
    field "profile" (json_text profile) (field "memoryMode" mode (field "cpuStages" stages end))

-- `memory.retry`
abbrev pub log_retry : String → Option String → Execution → ℕ → Db → Db
log_retry i profile x now db =
    if ltb 1 x.attempt_count
    then (log (some i) "warning" "memory.retry" (retry_detail profile x) (some "worker") now db).1
    else db

-- `memory.cpu_stage`
abbrev pub log_stages : String → Option String → Json → Option Json → ℕ → Db → Db
log_stages i profile mode none now db = db
log_stages i profile mode (some stages) now db =
    (log (some i) "warning" "memory.cpu_stage" (cpu_detail profile mode stages) (some "worker") now
      db).1

unfoldable pub log_execution : String → Option String → Execution → ℕ → Db → Db
log_execution i profile x now db =
    log_stages i profile x.memory_mode x.cpu_stages now (log_retry i profile x now db)

-- A handler calls `self.processor.restart()` where `restarts`, and then writes `after`.
abbrev pub handled : Bool → Bool → Db → Db → Ended
handled restart_fails restarts before after =
    if restarts && restart_fails
    then record { restarts = true; removes_result = false; raises = true; db = before }
    else record { restarts = restarts; removes_result = false; raises = false; db = after }

-- `except ProcessingCancelled`
abbrev pub end_cancelled : Bool → String → ℕ → ℕ → Db → Ended
end_cancelled restart_fails i ttl now db = handled restart_fails true db (cancel i ttl now db).1

-- `except RemoteProcessingError`
abbrev pub end_rejected : Bool → String → ℕ → JobError → ℕ → Db → Ended
end_rejected restart_fails i ttl e now db =
    handled restart_fails (str_eq e.code "gpu_out_of_memory" || e.retryable) db
      (fail i e ttl now db).1

abbrev pub internal_error : String → JobError
internal_error message = record {
  code = "internal_error";
  message = message;
  retryable = true;
  detail = end;
}

-- `except Exception`
abbrev pub end_crashed : Bool → String → ℕ → String → ℕ → Db → Ended
end_crashed restart_fails i ttl message now db =
    handled restart_fails true db (fail i (internal_error message) ttl now db).1

-- The text of an exception that the queue raises is `text_of`.
abbrev pub end_completed : (Error → String) → Bool → String → ℕ → ℕ → Result Bool × Db → Ended
end_completed text_of restart_fails i ttl now (ok b, db) = record {
  restarts = false;
  removes_result = not b;
  raises = false;
  db = db;
}
end_completed text_of restart_fails i ttl now (err e, db) =
    end_crashed restart_fails i ttl (text_of e) now db

-- From the digest of the result.
abbrev pub end_digest :
    (Error → String) → Bool → Option String → String → ℕ → String → String → ℕ → Db → Ended
end_digest text_of restart_fails (some message) i ttl path sha now db =
    end_crashed restart_fails i ttl message now db
end_digest text_of restart_fails none i ttl path sha now db =
    end_completed text_of restart_fails i ttl now (complete i path sha ttl now db)

-- From the snapshot of the processor's health.
abbrev pub end_processed :
    (Error → String) → Surroundings → Option String → String → ℕ → String → String → ℕ → Db → Ended
end_processed text_of s (some message) i ttl path sha now db =
    end_crashed s.restart_fails i ttl message now db
end_processed text_of s none i ttl path sha now db =
    if s.stopped || is_cancelled (job_of i db)
    then end_cancelled s.restart_fails i ttl now db
    else end_digest text_of s.restart_fails s.digest_error i ttl path sha now db

-- From the end of `self.processor.process`.
abbrev pub end_job :
    (Error → String) → Surroundings → String → Option String → ℕ → Outcome → ℕ → Db → Ended
end_job text_of s i profile ttl (processed path sha x) now db =
    end_processed text_of s s.snapshot_error i ttl path sha now (log_execution i profile x now db)
end_job text_of s i profile ttl interrupted now db = end_cancelled s.restart_fails i ttl now db
end_job text_of s i profile ttl (rejected e) now db = end_rejected s.restart_fails i ttl e now db
end_job text_of s i profile ttl (crashed message) now db =
    end_crashed s.restart_fails i ttl message now db

abbrev pub frozen_error : JobError
frozen_error = record {
  code = "model_unavailable";
  message = "The job's frozen model configuration is no longer active.";
  retryable = true;
  detail = end;
}

-- The job has a frozen configuration and it is not the active one.
abbrev pub is_outdated : Option String → Option String → Bool
is_outdated none active = false
is_outdated (some frozen) none = not (str_eq frozen "")
is_outdated (some frozen) (some active) = not (str_eq frozen "") && not (str_eq active frozen)

-- `model_validate` raises, before the handlers are in place.
abbrev pub unparsed : Db → Ended
unparsed db = record { restarts = false; removes_result = false; raises = true; db = db }

-- `_execute` of a claimed job, with the outcome of its processing.
unfoldable pub execute : (Error → String) → Surroundings → Job → ℕ → Outcome → ℕ → Db → Ended
execute text_of s job ttl outcome now db =
    if s.parses
    then (if is_outdated job.model_configuration_digest s.active
        then end_rejected s.restart_fails job.id ttl frozen_error now db
        else end_job text_of s job.id job.quality_profile ttl outcome now db)
    else unparsed db
