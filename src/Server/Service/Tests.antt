-- ===== src/Server/Service/Tests.antt =====
-- Tests of the end of a job, and its theorems at concrete inputs.
use rotoweave.Base.{String, true, false, ◌≡◌, refl, none, some, [], ◌∷◌}
use rotoweave.Server.Logging.{null, end}
use rotoweave.Server.Queue.Schema.{running, completed, failed, is_terminal, Job, Db}
use rotoweave.Server.Queue.Statements.{Error, job_of}
use rotoweave.Server.Queue.Enqueue.{job_row}
use rotoweave.Server.Queue.Finish.{cancel_row}
use rotoweave.Server.Service.{Surroundings, Outcome, processed, crashed, is_outdated, execute}
use rotoweave.Server.Service.Ends.{EndsIn, final_state, execute-ends}
use rotoweave.Server.Service.Over.{execute-over}

-- A job with a frozen configuration, in its run.
abbrev current : Job
current =
    let accepted =
      job_row
        (record {
          job_id = "a";
          idempotency_key = "k1";
          request_sha256 = "ab12";
          submission = end;
          input_path = "jobs/input.zip";
          model_configuration_digest = some "cfg1";
          quality_profile = some "high";
          parent_job_id = none;
        })
        1 1 in
    record accepted { state = running }

abbrev with_row : Job → Db
with_row j = record {
  jobs = j ∷ [];
  events = [];
  logs = [];
  operational_logs = [];
  control = record {
    paused = false;
    maintenance = false;
    mode = "normal";
    revision = 0;
    updated_at = 0;
  };
}

abbrev dropped : Job
dropped = cancel_row 100 4 current

abbrev result : Outcome
result = processed "jobs/a/result.zip" "cd34" (record {
  attempt_count = 2;
  attempted_modes = null;
  memory_mode = null;
  cpu_stages = some null;
})

abbrev text_of : Error → String
text_of e = "error"

abbrev around : Surroundings
around = record {
  parses = true;
  stopped = false;
  active = some "cfg1";
  snapshot_error = none;
  digest_error = none;
  restart_fails = false;
}

result_accepted : final_state (is_outdated (some "cfg1") (some "cfg1")) around result ≡ completed
result_accepted = refl

other_configuration : final_state (is_outdated (some "cfg1") (some "cfg2")) around result ≡ failed
other_configuration = refl

dropped_over : is_terminal dropped.state ≡ true
unfolding is_terminal
dropped_over = refl

-- A restart that raises keeps the row of a job that the processor's exception should have failed.
left_running :
    job_of "a"
      (execute text_of
        (record around { restart_fails = true })
        current
        100
        (crashed "lost")
        5
        (with_row current)).db
    ≡ some current
unfolding execute
left_running = refl

execute-ends_example :
    EndsIn around completed "a" current
      (execute text_of around current 100 result 5 (with_row current))
execute-ends_example =
    execute-ends text_of around current 100 result 5 (with_row current) current refl refl refl

execute-over_example :
    job_of "a" (execute text_of around current 100 result 5 (with_row dropped)).db ≡ some dropped
execute-over_example =
    execute-over text_of around current 100 result 5 (with_row dropped) dropped refl dropped_over
