-- ===== src/Server/Queue/Tests.antt =====
-- Tests of the queue, and its theorems at concrete inputs.
use mathlib.Core.List.{map}
use rotoweave.Base.{
  ℕ, ◌-◌, String, ◌≡◌, refl, true, false, none, some, List, [], ◌∷◌, length, or_else, not, ◌&&◌,
  ◌↔◌,
}
use rotoweave.Base.Signed.{pos}
use rotoweave.Base.Text.{casefold, contains, member}
use rotoweave.Base.Order.{sort_by, insert_by}
use rotoweave.Server.Logging.{
  Json, end, field, text, object, redacted, redact, is_sensitive, holds_secret,
}
use rotoweave.Server.Logging.{set_default}
use rotoweave.Server.Queue.Schema.{queued, completed, is_terminal, state_eq, Job, Payload, Db}
use rotoweave.Server.Queue.Statements.{
  ok, job_of, next_order, next_sequence, update_job, insert_job, insert_event, append_event,
  append_log, insert_logs, enrich, component_of, before_dot, clamp_progress,
}
use rotoweave.Server.Queue.Enqueue.{NewJob, job_row, enqueue, enqueue_new, enqueue_existing, log}
use rotoweave.Server.Queue.Dispatch.{
  claim_next, recover, recover_each, set_queue_control, write_control, halted, in_turn,
  jobs_in_turn,
}
use rotoweave.Server.Queue.Finish.{progress, finish, complete, fail, cancel}
use rotoweave.Server.Queue.Admin.{Cleanup, delete, delete_job, cleanup_logs, events_after}
use rotoweave.Server.Queue.Effects.{map_option}
use rotoweave.Server.Queue.Calls.{
  Call, enqueues, claims, progresses, completes, cancels, deletes, recovers, apply, run,
}
use rotoweave.Server.Queue.Invariant.{IsValid, sequences, count_up, ids}
use rotoweave.Server.Queue.Invariant.Proof.{apply-IsValid, run-IsValid}
use rotoweave.Server.Queue.Moves.{LifeStep}
use rotoweave.Server.Queue.Moves.Calls.{apply-LifeStep, run-terminal, deletes_id, ever_deletes}
use rotoweave.Server.Queue.Claiming.{
  IsBarred, IsClaimed, some_queued, claim_next-least, claim_next-nothing,
}
use rotoweave.Server.Queue.Idempotency.{replayed, enqueue-enqueue}
use rotoweave.Server.Queue.Housekeeping.{LacksJob, IsPruned, delete-cascade, cleanup_logs_lem}
use rotoweave.Server.Queue.Streaming.{first_past, events_after_lem}
use rotoweave.Server.Queue.Rows.{IsCoherent, run-IsCoherent}
use rotoweave.Server.Queue.Audit.{IsAudited, run-IsAudited}
use rotoweave.Server.Queue.Restart.{AreRunning, recover_lem, restarted}

abbrev empty : Db
empty = record {
  jobs = [];
  events = [];
  logs = [];
  operational_logs = [];
  control = record {
    paused = false;
    maintenance = false;
    mode = "normal";
    revision = 0;
    updated_at = 0;
  };
}

empty-IsValid : IsValid empty
empty-IsValid = record {
  distinct_ids = tt;
  distinct_keys = tt;
  event_parents = tt;
  log_parents = tt;
  numbered = λ i. refl;
  payloads = tt;
}

abbrev request : String → String → NewJob
request i key = record {
  job_id = i;
  idempotency_key = key;
  request_sha256 = "ab12";
  submission = end;
  input_path = "jobs/input.zip";
  model_configuration_digest = none;
  quality_profile = some "high";
  parent_job_id = none;
}

abbrev two_waiting : List (ℕ × Call)
two_waiting = (1, enqueues (request "a" "k1")) ∷ (2, enqueues (request "b" "k2")) ∷ []

abbrev one_done : List (ℕ × Call)
one_done =
    (1, enqueues (request "a" "k1"))
    ∷ (2, enqueues (request "b" "k2"))
    ∷ (3, claims)
    ∷ (4, progresses "a" (pos 500_000) "matting" none)
    ∷ (5, completes "a" "jobs/a/result.zip" "cd34" 100)
    ∷ []

abbrev waiting : Db
waiting = run two_waiting empty

abbrev done : Db
done = run one_done empty

waiting-IsValid : IsValid waiting
waiting-IsValid = run-IsValid two_waiting empty empty-IsValid

done-IsValid : IsValid done
done-IsValid = run-IsValid one_done empty empty-IsValid

-- To unfold this is to unfold the code that the tests run.
program : Unit {0}
unfolding run enqueue enqueue_new enqueue_existing log recover recover_each set_queue_control
    write_control claim_next halted jobs_in_turn in_turn progress finish complete fail cancel delete
    delete_job cleanup_logs events_after sort_by insert_by update_job insert_job next_order
    next_sequence insert_event append_event append_log insert_logs enrich set_default component_of
    before_dot clamp_progress state_eq is_terminal redact is_sensitive holds_secret casefold
    contains member
program = tt

two_wait : map (λ (j : Job). j.id) (jobs_in_turn queued waiting) ≡ "a" ∷ "b" ∷ []
unfolding program
two_wait = refl

first_runs : map (λ (j : Job). j.id) (jobs_in_turn completed done) ≡ "a" ∷ []
unfolding program
first_runs = refl

second_waits : map (λ (j : Job). j.id) (jobs_in_turn queued done) ≡ "b" ∷ []
unfolding program
second_waits = refl

numbers_sent : map (λ (p : Payload). p.sequence) (events_after "a" (pos 0) done) ≡ 1 ∷ 2 ∷ 3 ∷ []
unfolding program
numbers_sent = refl

abbrev leaking : Json
leaking = object (field "Authorization" (text "x") (field "note" (text "sent BEARER abc") end))

secrets_hidden :
    redact leaking ≡ object (field "Authorization" redacted (field "note" redacted end))
unfolding program
secrets_hidden = refl

abbrev done_job : Job
done_job = or_else (job_of "a" done) (job_row (request "a" "k1") 1 1)

done_found : job_of "a" done ≡ some done_job
unfolding program
done_found = refl

done_terminal : is_terminal done_job.state ≡ true
unfolding program
done_terminal = refl

abbrev later_calls : List (ℕ × Call)
later_calls =
    (6, recovers)
    ∷ (7, cancels "a" 100)
    ∷ (8, progresses "a" (pos 1) "again" none)
    ∷ (9, deletes "b" false)
    ∷ []

apply-LifeStep_example :
    LifeStep 3 (deletes_id claims "a") (job_of "a" waiting) (job_of "a" (apply claims 3 waiting))
apply-LifeStep_example = apply-LifeStep claims 3 waiting "a" waiting-IsValid

apply-IsValid_example : IsValid (apply claims 3 waiting)
apply-IsValid_example = apply-IsValid claims 3 waiting waiting-IsValid

not_deleted : ever_deletes later_calls "a" ≡ false
not_deleted = refl

has_queued : some_queued waiting ≡ true
unfolding program
has_queued = refl

done_deletable : (true && not (is_terminal done_job.state)) ≡ false
unfolding program
done_deletable = refl

run-terminal_example : job_of "a" (run later_calls done) ≡ some done_job
run-terminal_example =
    run-terminal later_calls done "a" done_job done-IsValid done_found done_terminal not_deleted

claim_next-least_example : (j : Job) × IsClaimed 3 waiting j
unfolding program
claim_next-least_example = claim_next-least 3 waiting waiting-IsValid (refl, refl) has_queued

claim_next-nothing_example : (claim_next 3 empty ≡ (ok none, empty)) ↔ IsBarred empty
claim_next-nothing_example = claim_next-nothing 3 empty empty-IsValid

enqueue-enqueue_example :
    enqueue (request "b" "k1") 2 (enqueue (request "a" "k1") 1 empty).1
    ≡ replayed
        (job_row (request "a" "k1") (next_order empty.jobs) 1)
        (request "b" "k1")
        (enqueue (request "a" "k1") 1 empty).1
enqueue-enqueue_example =
    enqueue-enqueue (request "a" "k1") (request "b" "k1") 1 2 empty refl refl refl

delete-cascade_example :
    ((delete "a" true 6 done).0 ≡ ok true) × LacksJob "a" done (delete "a" true 6 done).1
delete-cascade_example = delete-cascade "a" true 6 done done_job done_found done_deletable

events_after_lem_example :
    map (λ (p : Payload). p.sequence) (events_after "a" (pos 0) done)
    ≡ count_up (first_past (pos 0)) (length (sequences "a" done.events) - first_past (pos 0))
events_after_lem_example = events_after_lem "a" (pos 0) done done-IsValid

done_after_all : job_of "a" (run one_done empty) ≡ some done_job
done_after_all = done_found

run-IsCoherent_example : IsCoherent done_job
run-IsCoherent_example =
    run-IsCoherent one_done empty "a" empty-IsValid (λ j e. cc) done_job done_after_all

run-IsAudited_example : IsAudited (run one_done empty)
run-IsAudited_example = run-IsAudited one_done empty (record { job_logs = tt; operational = tt })

recover_lem_example :
    ((js : List Job) × AreRunning waiting js × ((recover 6 waiting).0 ≡ ok (ids js)))
    × ((k : String) → job_of k (recover 6 waiting).1 ≡ map_option (restarted 6) (job_of k waiting))
recover_lem_example = recover_lem 6 waiting waiting-IsValid

cleanup_logs_lem_example :
    (c : Cleanup) × ((cleanup_logs 2 1 6 done).0 ≡ ok c)
    × IsPruned (6 - 2) 1 done.operational_logs (cleanup_logs 2 1 6 done).1.operational_logs c
cleanup_logs_lem_example = cleanup_logs_lem 2 1 6 done
