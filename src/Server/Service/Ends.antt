-- ===== src/Server/Service/Ends.antt =====
-- How a job that was executed ends.
use rotoweave.Base.{
  ℕ, String, Bool, true, false, ◌≡◌, refl, ◌∙◌, Option, none, some, inl, inr, ◌⊎◌, str_eq,
  Bool-cases, if◌then◌else◌, ltb, ◌||◌,
}
use rotoweave.Server.Logging.{Json}
use rotoweave.Server.Queue.Schema.{
  State, running, completed, failed, cancelled, state_eq, JobError, Job, Db,
}
use rotoweave.Server.Queue.Statements.{Error, job_of}
use rotoweave.Server.Queue.Finish.{finish_row, cancel_row, complete, fail, cancel}
use rotoweave.Server.Queue.Effects.{job_of-with_job_self}
use rotoweave.Server.Queue.Outcomes.{finish-running, cancel-live, cancelled_db-job}
use rotoweave.Server.Queue.Operations.{log-keeps_jobs}
use rotoweave.Server.Service.{
  Execution, Surroundings, Ended, handled, end_cancelled, end_rejected, end_crashed, end_digest,
  Outcome, processed, interrupted, rejected, crashed, is_cancelled, log_retry, log_stages,
  log_execution, end_completed, end_processed, end_job, internal_error, frozen_error, is_outdated,
  execute, retry_detail,
}

-- The state in which a running job ends after a result that was processed.
abbrev pub result_state : Surroundings → State
result_state s = elim s.snapshot_error [
  | some message ↦ failed
  | none ↦
      if s.stopped
      then cancelled
      else (elim s.digest_error [ some message ↦ failed | none ↦ completed ])
]

-- The state in which a running job ends.
abbrev pub final_state : Bool → Surroundings → Outcome → State
final_state true s outcome = failed
final_state false s (processed path sha x) = result_state s
final_state false s interrupted = cancelled
final_state false s (rejected e) = failed
final_state false s (crashed message) = failed

abbrev pub HasState : State → String → Db → Type 0
HasState s i db = (j : Job) × (job_of i db ≡ some j) × (j.state ≡ s)

-- The job ends in a state, or a failed restart raises before the write and its row stays as it is.
abbrev pub EndsIn : Surroundings → State → String → Job → Ended → Type 0
EndsIn s state i j e =
    (HasState state i e.db × (e.raises ≡ false))
    ⊎ ((s.restart_fails ≡ true)
        × (e.restarts ≡ true)
        × (e.raises ≡ true)
        × (job_of i e.db ≡ some j))

handled-EndsIn :
    (s : Surroundings) (state : State) (i : String) (j : Job) (restarts : Bool) (before after : Db)
    → job_of i before ≡ some j
    → HasState state i after
    → EndsIn s state i j (handled s.restart_fails restarts before after)
handled-EndsIn s state i j false before after found h = inl (h, refl)
handled-EndsIn s state i j true before after found h = elim (Bool-cases s.restart_fails) [
  | inl e ↦ rw e (inr (refl, refl, refl, found))
  | inr e ↦ rw e (inl (h, refl))
]

module _ (i : String) where
  log_retry-jobs :
      (profile : Option String) (x : Execution) (now : ℕ) (db : Db)
      → (log_retry i profile x now db).jobs ≡ db.jobs
  log_retry-jobs profile x now db = elim (Bool-cases (ltb 1 x.attempt_count)) [
    | inl e ↦ rw e (
        log-keeps_jobs (some i) "warning" "memory.retry" (retry_detail profile x) (some "worker")
          now db)
    | inr e ↦ rw e
  ]

  log_stages-jobs :
      (profile : Option String) (mode : Json) (stages : Option Json) (now : ℕ) (db : Db)
      → (log_stages i profile mode stages now db).jobs ≡ db.jobs
  log_stages-jobs profile mode none now db = refl
  log_stages-jobs profile mode (some stages) now db = log-keeps_jobs _ _ _ _ _ now db

  log_execution-jobs :
      (profile : Option String) (x : Execution) (now : ℕ) (db : Db)
      → (log_execution i profile x now db).jobs ≡ db.jobs
  unfolding log_execution
  log_execution-jobs profile x now db =
      log_stages-jobs profile x.memory_mode x.cpu_stages now (log_retry i profile x now db)
      ∙ log_retry-jobs profile x now db

  module _ (db : Db) (j : Job) (found : job_of i db ≡ some j) (r : j.state ≡ running)
      (ttl now : ℕ) where
    cancel-ends : HasState cancelled i (cancel i ttl now db).1
    cancel-ends = (
      cancel_row ttl now j,
      rw (cancel-live i db j found ttl now (inr r)) (cancelled_db-job i db j found ttl now),
      refl,
    )

    fail-ends : (e : JobError) → HasState failed i (fail i e ttl now db).1
    unfolding fail
    fail-ends e = (
      finish_row failed (some e) none none ttl now j,
      rw (finish-running i db j found failed ttl (some e) none none now r) (
          job_of-with_job_self (finish_row failed (some e) none none ttl now) (λ k. refl) i db
            found),
      refl,
    )

    complete-ends :
        (text_of : Error → String) (fails : Bool) (path sha : String)
        → let e = end_completed text_of fails i ttl now (complete i path sha ttl now db) in
          HasState completed i e.db × (e.raises ≡ false)
    unfolding complete
    complete-ends text_of fails path sha = (
      (
        finish_row completed none (some path) (some sha) ttl now j,
        rw (finish-running i db j found completed ttl none (some path) (some sha) now r) (
            job_of-with_job_self (finish_row completed none (some path) (some sha) ttl now)
              (λ k. refl) i db found),
        refl,
      ),
      rw (finish-running i db j found completed ttl none (some path) (some sha) now r),
    )

    crash-EndsIn :
        (s : Surroundings) (message : String)
        → EndsIn s failed i j (end_crashed s.restart_fails i ttl message now db)
    crash-EndsIn s message =
        handled-EndsIn s failed i j true db (fail i (internal_error message) ttl now db).1 found
          (fail-ends (internal_error message))

    cancel-EndsIn :
        (s : Surroundings) → EndsIn s cancelled i j (end_cancelled s.restart_fails i ttl now db)
    cancel-EndsIn s =
        handled-EndsIn s cancelled i j true db (cancel i ttl now db).1 found cancel-ends

    reject-EndsIn :
        (s : Surroundings) (e : JobError)
        → EndsIn s failed i j (end_rejected s.restart_fails i ttl e now db)
    reject-EndsIn s e =
        handled-EndsIn s failed i j (str_eq e.code "gpu_out_of_memory" || e.retryable) db
          (fail i e ttl now db).1 found (fail-ends e)

    digest-EndsIn :
        (text_of : Error → String) (s : Surroundings) (o : Option String) (path sha : String)
        → EndsIn s
            (elim o [ some message ↦ failed | none ↦ completed ])
            i
            j
            (end_digest text_of s.restart_fails o i ttl path sha now db)
    digest-EndsIn text_of s none path sha = inl (complete-ends text_of s.restart_fails path sha)
    digest-EndsIn text_of s (some message) path sha = crash-EndsIn s message

    accepted-EndsIn :
        (text_of : Error → String) (s : Surroundings) (path sha : String)
        → EndsIn s
            (if s.stopped
              then cancelled
              else (elim s.digest_error [ some message ↦ failed | none ↦ completed ]))
            i
            j
            (end_processed text_of s none i ttl path sha now db)
    unfolding state_eq
    accepted-EndsIn text_of s path sha =
        let live : is_cancelled (job_of i db) ≡ false = rw (found, r) in
        elim (Bool-cases s.stopped) [
          | inl e ↦ rw e (cancel-EndsIn s)
          | inr e ↦ rw (e, live) (digest-EndsIn text_of s s.digest_error path sha)
        ]

    processed-EndsIn :
        (text_of : Error → String) (s : Surroundings) (o : Option String) (path sha : String)
        → s.snapshot_error ≡ o
        → EndsIn s (result_state s) i j (end_processed text_of s o i ttl path sha now db)
    processed-EndsIn text_of s none path sha e = rw e (accepted-EndsIn text_of s path sha)
    processed-EndsIn text_of s (some message) path sha e = rw e (crash-EndsIn s message)

  pub logged-found :
      (profile : Option String) (x : Execution) (now : ℕ) (db : Db) (o : Option Job)
      → job_of i db ≡ o
      → job_of i (log_execution i profile x now db) ≡ o
  logged-found profile x now db o found = rw (log_execution-jobs profile x now db) found

  end_job-EndsIn :
      (text_of : Error → String) (s : Surroundings) (profile : Option String) (ttl : ℕ)
      (outcome : Outcome) (now : ℕ) (db : Db) (j : Job)
      → job_of i db ≡ some j
      → j.state ≡ running
      → EndsIn s (final_state false s outcome) i j (end_job text_of s i profile ttl outcome now db)
  end_job-EndsIn text_of s profile ttl (processed path sha x) now db j found r =
      processed-EndsIn (log_execution i profile x now db) j
        (logged-found profile x now db (some j) found) r ttl now text_of s s.snapshot_error path sha
        refl
  end_job-EndsIn text_of s profile ttl interrupted now db j found r =
      cancel-EndsIn db j found r ttl now s
  end_job-EndsIn text_of s profile ttl (rejected e) now db j found r =
      reject-EndsIn db j found r ttl now s e
  end_job-EndsIn text_of s profile ttl (crashed message) now db j found r =
      crash-EndsIn db j found r ttl now s message

-- The execution of a running job whose stored submission parses leaves it in the one state that its
-- outcome calls for: failed where its frozen configuration is not the active one, cancelled where the
-- service stops before the result is accepted or the processing was cancelled, completed for a result,
-- and failed for any other exception, the snapshot of the processor's health and the digest of the
-- result included. The one exception is a handler whose restart of the processor raises: then `_execute`
-- raises and the row is as it was.
pub execute-ends :
    (text_of : Error → String) (s : Surroundings) (job : Job) (ttl : ℕ) (outcome : Outcome)
    (now : ℕ) (db : Db) (j : Job)
    → s.parses ≡ true
    → job_of job.id db ≡ some j
    → j.state ≡ running
    → EndsIn s
        (final_state (is_outdated job.model_configuration_digest s.active) s outcome)
        job.id
        j
        (execute text_of s job ttl outcome now db)
unfolding execute
execute-ends text_of s job ttl outcome now db j parsed found r =
    elim (Bool-cases (is_outdated job.model_configuration_digest s.active)) [
      | inl e ↦ rw (parsed, e) (reject-EndsIn job.id db j found r ttl now s frozen_error)
      | inr e ↦
          rw (parsed, e)
            (end_job-EndsIn job.id text_of s job.quality_profile ttl outcome now db j found r)
    ]
