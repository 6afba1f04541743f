-- ===== src/Server/Service/Submit/Tests.antt =====
-- Tests of a submission, and its theorem at a concrete input.
use rotoweave.Base.{String, true, false, ◌≡◌, refl, none, some, []}
use rotoweave.Server.Logging.{text, null, end}
use rotoweave.Server.Queue.Schema.{Db}
use rotoweave.Server.Queue.Enqueue.{NewJob}
use rotoweave.Server.Service.Submit.{Conditions, checked, refused, not_accepting, submit, is_sha256}
use rotoweave.Server.Service.Submit.Guards.{IsSubmitted, submit-IsSubmitted}

abbrev empty_queue : String → Db
empty_queue mode = record {
  jobs = [];
  events = [];
  logs = [];
  operational_logs = [];
  control = record {
    paused = false;
    maintenance = false;
    mode = mode;
    revision = 0;
    updated_at = 0;
  };
}

abbrev key : String
key = "0123456789abcdef0123456789abcdef0123456789abcdef0123456789abcdef"

well_formed : is_sha256 key ≡ true
well_formed = refl

abbrev request : NewJob
request = record {
  job_id = "a";
  idempotency_key = key;
  request_sha256 = "ab12";
  submission = end;
  input_path = "jobs/a/input.zip";
  model_configuration_digest = none;
  quality_profile = some "high";
  parent_job_id = none;
}

abbrev conditions : Conditions
conditions = record {
  active = some "cfg1";
  is_ready = true;
  preflight = checked (record { memory_mode = text "full"; headroom = null });
  archive_is_sound = true;
}

refuses_while_draining :
    submit conditions request 1 (empty_queue "draining")
    ≡ (refused not_accepting, empty_queue "draining")
unfolding submit
refuses_while_draining = refl

submit-IsSubmitted_example :
    IsSubmitted conditions request
      (empty_queue "normal")
      (submit conditions request 1 (empty_queue "normal"))
submit-IsSubmitted_example = submit-IsSubmitted conditions request 1 (empty_queue "normal")
