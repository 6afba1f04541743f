-- ===== src/Server/Service/Over.antt =====
-- A job that is over keeps its row through the end of its execution.
use rotoweave.Base.{
  ℕ, String, Bool, true, false, ◌≡◌, Option, none, some, inl, inr, ◌&&◌, str_eq, Bool-cases, ◌||◌,
  arith,
}
use rotoweave.Server.Queue.Schema.{
  running, completed, failed, state_eq, is_terminal, JobError, Job, Db,
}
use rotoweave.Server.Queue.Statements.{Error, job_of}
use rotoweave.Server.Queue.Finish.{complete, fail, cancel}
use rotoweave.Server.Queue.Outcomes.{finish-other, cancel-terminal}
use rotoweave.Server.Service.{
  Surroundings, handled, end_cancelled, end_rejected, end_crashed, end_digest, Outcome, processed,
  interrupted, rejected, crashed, is_cancelled, log_execution, end_completed, end_processed,
  end_job, internal_error, frozen_error, is_outdated, execute,
}
use rotoweave.Server.Service.Ends.{logged-found}

handled-over :
    (fails restarts : Bool) (i : String) (before after : Db) (o : Option Job)
    → job_of i before ≡ o
    → job_of i after ≡ o
    → job_of i (handled fails restarts before after).db ≡ o
handled-over fails restarts i before after o found h = elim (Bool-cases (restarts && fails)) [
  | inl e ↦ rw e found
  | inr e ↦ rw e h
]

module _ (i : String) where
  module _ (db : Db) (k : Job) (found : job_of i db ≡ some k) (over : is_terminal k.state ≡ true)
      (ttl now : ℕ) where
    not_running : state_eq k.state running ≡ false
    unfolding is_terminal state_eq
    not_running = ground arith

    cancel-over : job_of i (cancel i ttl now db).1 ≡ some k
    cancel-over = rw (cancel-terminal i db k found ttl now over) found

    fail-over : (e : JobError) → job_of i (fail i e ttl now db).1 ≡ some k
    unfolding fail
    fail-over e = rw (finish-other i db k found failed ttl (some e) none none now not_running) found

    complete-over :
        (text_of : Error → String) (fails : Bool) (path sha : String)
        → job_of i (end_completed text_of fails i ttl now (complete i path sha ttl now db)).db
          ≡ some k
    unfolding complete
    complete-over text_of fails path sha =
        rw (finish-other i db k found completed ttl none (some path) (some sha) now not_running)
          found

    crash-over :
        (fails : Bool) (message : String)
        → job_of i (end_crashed fails i ttl message now db).db ≡ some k
    crash-over fails message =
        handled-over fails true i db (fail i (internal_error message) ttl now db).1 (some k) found
          (fail-over (internal_error message))

    interrupt-over : (fails : Bool) → job_of i (end_cancelled fails i ttl now db).db ≡ some k
    interrupt-over fails =
        handled-over fails true i db (cancel i ttl now db).1 (some k) found cancel-over

    reject-over :
        (fails : Bool) (e : JobError) → job_of i (end_rejected fails i ttl e now db).db ≡ some k
    reject-over fails e =
        handled-over fails (str_eq e.code "gpu_out_of_memory" || e.retryable) i db
          (fail i e ttl now db).1 (some k) found (fail-over e)

    digest-over :
        (text_of : Error → String) (fails : Bool) (o : Option String) (path sha : String)
        → job_of i (end_digest text_of fails o i ttl path sha now db).db ≡ some k
    digest-over text_of fails none path sha = complete-over text_of fails path sha
    digest-over text_of fails (some message) path sha = crash-over fails message

    processed-over :
        (text_of : Error → String) (s : Surroundings) (o : Option String) (path sha : String)
        → job_of i (end_processed text_of s o i ttl path sha now db).db ≡ some k
    processed-over text_of s (some message) path sha = crash-over s.restart_fails message
    processed-over text_of s none path sha =
        elim (Bool-cases (s.stopped || is_cancelled (job_of i db))) [
          | inl e ↦ rw e (interrupt-over s.restart_fails)
          | inr e ↦ rw e (digest-over text_of s.restart_fails s.digest_error path sha)
        ]

  end_job-over :
      (text_of : Error → String) (s : Surroundings) (profile : Option String) (ttl : ℕ)
      (outcome : Outcome) (now : ℕ) (db : Db) (k : Job)
      → job_of i db ≡ some k
      → is_terminal k.state ≡ true
      → job_of i (end_job text_of s i profile ttl outcome now db).db ≡ some k
  end_job-over text_of s profile ttl (processed path sha x) now db k found over =
      processed-over (log_execution i profile x now db) k
        (logged-found i profile x now db (some k) found) over ttl now text_of s s.snapshot_error
        path sha
  end_job-over text_of s profile ttl interrupted now db k found over =
      interrupt-over db k found over ttl now s.restart_fails
  end_job-over text_of s profile ttl (rejected e) now db k found over =
      reject-over db k found over ttl now s.restart_fails e
  end_job-over text_of s profile ttl (crashed message) now db k found over =
      crash-over db k found over ttl now s.restart_fails message

execute_parsed-over :
    (text_of : Error → String) (s : Surroundings) (job : Job) (ttl : ℕ) (outcome : Outcome)
    (now : ℕ) (db : Db) (k : Job)
    → s.parses ≡ true
    → job_of job.id db ≡ some k
    → is_terminal k.state ≡ true
    → job_of job.id (execute text_of s job ttl outcome now db).db ≡ some k
unfolding execute
execute_parsed-over text_of s job ttl outcome now db k parsed found over =
    elim (Bool-cases (is_outdated job.model_configuration_digest s.active)) [
      | inl e ↦
          rw (parsed, e) (reject-over job.id db k found over ttl now s.restart_fails frozen_error)
      | inr e ↦
          rw (parsed, e)
            (end_job-over job.id text_of s job.quality_profile ttl outcome now db k found over)
    ]

-- A job that was cancelled, or otherwise ended, while it was processed keeps its row, whatever the
-- outcome of the processing is.
pub execute-over :
    (text_of : Error → String) (s : Surroundings) (job : Job) (ttl : ℕ) (outcome : Outcome)
    (now : ℕ) (db : Db) (k : Job)
    → job_of job.id db ≡ some k
    → is_terminal k.state ≡ true
    → job_of job.id (execute text_of s job ttl outcome now db).db ≡ some k
unfolding execute
execute-over text_of s job ttl outcome now db k found over = elim (Bool-cases s.parses) [
  | inl e ↦ execute_parsed-over text_of s job ttl outcome now db k e found over
  | inr e ↦ rw e found
]
