-- ===== src/Client/Runtime/Runs.antt =====
-- What a worker writes for one job: `JobManager._run` (RotoWeaveClient/backend/app/jobs.py), cut where
-- the processing starts and ends, with the verdict of `_validate_job_snapshot` and the way that the
-- processing ends as arguments; and every call that writes the table, as data.
use rotoweave.Base.{ℕ, String, Option, none, some, List, [], ◌∷◌, if◌then◌else◌}
use rotoweave.Base.Signed.{pos}
use rotoweave.Server.Logging.{Fields, end, field, object}
use rotoweave.Client.Runtime.{
  queued, running, completed, failed, cancelled, status_eq, Job, NewJob, Changes, get_job,
  create_job, update_job, append_job_log, request_cancel, recover_jobs, delete_jobs_for_character,
}

-- The text of an exception and the report that `build_job_failure` makes of it.
pub record Failure : Type 0 where
  pub message : String
  pub report : Fields

-- How the processing of a job ends: its result, JobInterrupted, JobCancelled or another exception.
pub data Outcome : Type 0 where
  succeeded : Fields → Outcome
  interrupted : String → Outcome
  stopped : String → Outcome
  broken : Fields → Failure → Outcome

abbrev pub rejected_changes : Failure → ℕ → Changes
rejected_changes f now = record {
  status = some failed;
  stage = some "failed";
  progress = none;
  attempt = none;
  result = some (field "failure" (object f.report) end);
  error = some (some f.message);
  started_at = none;
  finished_at = some (some now);
}

abbrev pub starting_changes : ℕ → Changes
starting_changes now = record {
  status = some running;
  stage = some "starting";
  progress = some (pos 0);
  attempt = none;
  result = some end;
  error = some none;
  started_at = some (some now);
  finished_at = some none;
}

-- `{**result, "failure": failure}`, where `result` has no such key.
abbrev pub with_failure : Fields → Failure → Fields
with_failure end f = field "failure" (object f.report) end
with_failure (field k v fs) f = field k v (with_failure fs f)

abbrev pub outcome_changes : Outcome → ℕ → Changes
outcome_changes (succeeded result) now = record {
  status = some completed;
  stage = some "completed";
  progress = some (pos 1_000_000);
  attempt = none;
  result = some result;
  error = none;
  started_at = none;
  finished_at = some (some now);
}
outcome_changes (interrupted message) now = record {
  status = some queued;
  stage = some "resuming";
  progress = none;
  attempt = none;
  result = none;
  error = some none;
  started_at = none;
  finished_at = some none;
}
outcome_changes (stopped message) now = record {
  status = some cancelled;
  stage = some "cancelled";
  progress = none;
  attempt = none;
  result = some end;
  error = some none;
  started_at = none;
  finished_at = some (some now);
}
outcome_changes (broken result f) now = record {
  status = some failed;
  stage = some "failed";
  progress = none;
  attempt = none;
  result = some (with_failure result f);
  error = some (some f.message);
  started_at = none;
  finished_at = some (some now);
}

abbrev pub outcome_level : Outcome → String
outcome_level (succeeded result) = "success"
outcome_level (interrupted message) = "warning"
outcome_level (stopped message) = "warning"
outcome_level (broken result f) = "error"

abbrev pub outcome_message : Outcome → String
outcome_message (succeeded result) = "任务完成。"
outcome_message (interrupted message) = message
outcome_message (stopped message) = message
outcome_message (broken result f) = f.message

-- The texts of a log line that hold the job's type are given as `note`.
abbrev pub start_job : String → String → Option Failure → String → ℕ → List Job → List Job
start_job w i none note now db =
    append_job_log w i "info" note now (update_job w i (starting_changes now) now db).1
start_job w i (some f) note now db =
    append_job_log w i "error" f.message now (update_job w i (rejected_changes f now) now db).1

abbrev pub start_found :
    String → String → Option Failure → String → ℕ → Option Job → List Job → List Job
start_found w i verdict note now none db = db
start_found w i verdict note now (some job) db =
    if status_eq job.status queued then start_job w i verdict note now db else db

-- `_run` up to the processing.
unfoldable pub begin_run : String → String → Option Failure → String → ℕ → List Job → List Job
begin_run w i verdict note now db = start_found w i verdict note now (get_job w i db) db

-- `_run` from the end of the processing.
unfoldable pub end_run : String → String → Outcome → ℕ → List Job → List Job
end_run w i o now db =
    append_job_log w i (outcome_level o) (outcome_message o) now
      (update_job w i (outcome_changes o now) now db).1

-- A call that writes the table.
pub data Call : Type 0 where
  creates : String → NewJob → Call
  updates : String → Changes → Call
  notes : String → String → String → Call
  cancels : String → Call
  recovers : Call
  forgets : String → Call
  begins : String → Option Failure → String → Call
  ends : String → Outcome → Call

abbrev pub apply : String → Call → ℕ → List Job → List Job
apply w (creates i n) now db = (create_job w i n now db).1
apply w (updates i c) now db = (update_job w i c now db).1
apply w (notes i level message) now db = append_job_log w i level message now db
apply w (cancels i) now db = (request_cancel w i now db).1
apply w recovers now db = (recover_jobs w now db).1
apply w (forgets c) now db = delete_jobs_for_character w c db
apply w (begins i verdict note) now db = begin_run w i verdict note now db
apply w (ends i o) now db = end_run w i o now db

unfoldable pub run : String → List (ℕ × Call) → List Job → List Job
run w [] db = db
run w ((now, c) ∷ cs) db = run w cs (apply w c now db)
