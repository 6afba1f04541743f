-- ===== src/Server/Service/Cleanup/Tests.antt =====
-- Tests of a cleanup, and its theorem at a concrete input.
use rotoweave.Base.{String, true, false, ◌≡◌, refl, none, some, [], ◌∷◌, ◌&&◌, if◌then◌else◌}
use rotoweave.Server.Logging.{end}
use rotoweave.Server.Queue.Schema.{is_terminal, Job, Db}
use rotoweave.Server.Queue.Statements.{job_of}
use rotoweave.Server.Queue.Enqueue.{job_row}
use rotoweave.Server.Queue.Finish.{cancel_row}
use rotoweave.Server.Queue.Admin.{has_expired, expired}
use rotoweave.Server.Queue.Invariant.{IsValid}
use rotoweave.Server.Service.Cleanup.{Place, cleanup_expired}
use rotoweave.Server.Service.Cleanup.Removed.{cleanup_expired-job_of}

abbrev waiting : String → String → Job
waiting i key =
    job_row
      (record {
        job_id = i;
        idempotency_key = key;
        request_sha256 = "ab12";
        submission = end;
        input_path = "jobs/input.zip";
        model_configuration_digest = none;
        quality_profile = some "high";
        parent_job_id = none;
      })
      1 1

-- One job that was cancelled at 4, to be kept for 10, and one that waits.
abbrev queue : Db
queue = record {
  jobs = cancel_row 10 4 (waiting "a" "k1") ∷ waiting "b" "k2" ∷ [];
  events = [];
  logs = [];
  operational_logs = [];
  control = record {
    paused = false;
    maintenance = false;
    mode = "normal";
    revision = 0;
    updated_at = 0;
  };
}

queue-IsValid : IsValid queue
queue-IsValid = record {
  distinct_ids = (refl, (refl, tt));
  distinct_keys = (refl, (refl, tt));
  event_parents = tt;
  log_parents = tt;
  numbered = λ i. refl;
  payloads = tt;
}

abbrev inside : String → Place
inside i = record { is_inside = true; path = i }

one_expired : expired 20 queue ≡ cancel_row 10 4 (waiting "a" "k1") ∷ []
unfolding expired is_terminal
one_expired = refl

cleanup_expired-job_of_example : job_of "a" (cleanup_expired inside 100 1_000 20 queue).db ≡ (
    if has_expired 20 (cancel_row 10 4 (waiting "a" "k1"))
      && is_terminal (cancel_row 10 4 (waiting "a" "k1")).state
      && (inside "a").is_inside
    then none
    else some (cancel_row 10 4 (waiting "a" "k1")))
cleanup_expired-job_of_example =
    cleanup_expired-job_of inside 100 1_000 20 queue "a" (cancel_row 10 4 (waiting "a" "k1"))
      queue-IsValid refl
