-- ===== src/Server/Queue/Outcomes.antt =====
-- What the methods of `RemoteQueueRepository` that move a job return, and the database they leave
-- (RotoWeaveServer/server/repository.py).
use rotoweave.Base.{
  ℕ, String, ◌≡◌, refl, ◌∙◌, true, false, Option, none, some, List, ◌∷◌, ◌⊎◌, arith, any_where,
  ◌||◌,
}
use rotoweave.Base.Signed.{ℤ, pos}
use rotoweave.Server.Logging.{end}
use rotoweave.Server.Queue.Schema.{
  State, queued, running, cancelled, state_eq, is_terminal, state_text, JobError, Job, Db, whole,
}
use rotoweave.Server.Queue.Statements.{ok, by_id, job_of, update_job}
use rotoweave.Server.Queue.Dispatch.{jobs_in_turn, halted, claim_row, claim_next}
use rotoweave.Server.Queue.Finish.{
  progress_row, progress, finish_row, finish, finish_message, finish_level, finish_event,
  finish_detail, cancel_row, cancel,
}
use rotoweave.Server.Queue.Effects.{
  with_job, with_event, with_log, append_event_lem, append_log_lem, job_of-exists, any-update,
  KeepsId, job_of-with_job_self,
}

module _ (i : String) (db : Db) (j : Job) (found : job_of i db ≡ some j) where
  exists : (f : Job → Job) → KeepsId f → any_where (by_id i) (with_job i f db).jobs ≡ true
  exists f keeps = any-update f keeps i i db.jobs ∙ job_of-exists i db found

  pub progress-running :
      (p : ℤ) (stage : String) (message : Option String) (now : ℕ)
      → j.state ≡ running
      → progress i p stage message now db ≡ (
        ok true,
        with_event i running p (some stage) message now (with_job i (progress_row p stage now) db),
      )
  unfolding progress update_job state_eq
  progress-running p stage message now r =
      let f = progress_row p stage now in
      rw (
        found,
        r,
        append_event_lem i running p (some stage) message now (with_job i f db)
            (exists f (λ k. refl)),
      )

  -- The database that `_finish` leaves.
  abbrev pub finished_db : State → ℕ → Option JobError → Option String → Option String → ℕ → Db
  finished_db state ttl error path sha now =
      with_log (some i) (finish_level state) (finish_event state) (finish_detail error sha) none now
        (with_event i state whole (some (state_text state)) (some (finish_message error state)) now
          (with_job i (finish_row state error path sha ttl now) db))

  pub finish-running :
      (state : State) (ttl : ℕ) (error : Option JobError) (path sha : Option String) (now : ℕ)
      → j.state ≡ running
      → finish i state ttl error path sha now db
        ≡ (ok true, finished_db state ttl error path sha now)
  unfolding finish update_job state_eq
  finish-running state ttl error path sha now r =
      let f = finish_row state error path sha ttl now in
      rw (
        found,
        r,
        append_event_lem i state whole (some (state_text state)) (some (finish_message error state))
            now (with_job i f db) (exists f (λ k. refl)),
        append_log_lem (some i) (finish_level state) (finish_event state) (finish_detail error sha)
            none now
            (with_event i state whole (some (state_text state)) (some (finish_message error state))
              now (with_job i f db))
            (exists f (λ k. refl)),
      )

  -- The database that `cancel` leaves.
  abbrev pub cancelled_db : ℕ → ℕ → Db
  cancelled_db ttl now = with_log (some i) "warning" "job.cancelled" end none now (
      with_event i cancelled j.progress (some "cancelled") (some "Cancelled by operator or client.")
        now (with_job i (cancel_row ttl now) db))

  pub cancelled_db-job :
      (ttl now : ℕ) → job_of i (cancelled_db ttl now) ≡ some (cancel_row ttl now j)
  cancelled_db-job ttl now = job_of-with_job_self (cancel_row ttl now) (λ k. refl) i db found

  pub cancel-live :
      (ttl now : ℕ)
      → (j.state ≡ queued) ⊎ (j.state ≡ running)
      → cancel i ttl now db ≡ (ok (some (cancel_row ttl now j)), cancelled_db ttl now)
  unfolding cancel update_job
  cancel-live ttl now live =
      let f = cancel_row ttl now in
      let live? : state_eq j.state queued || state_eq j.state running ≡ true =
        unfold state_eq in ground arith in
      rw (
        found,
        live?,
        append_event_lem i cancelled j.progress (some "cancelled")
            (some "Cancelled by operator or client.") now (with_job i f db) (exists f (λ k. refl)),
        append_log_lem (some i) "warning" "job.cancelled" end none now
            (with_event i cancelled j.progress (some "cancelled")
              (some "Cancelled by operator or client.") now (with_job i f db))
            (exists f (λ k. refl)),
        cancelled_db-job ttl now,
      )

  -- A finished job is not moved.
  pub progress-other :
      (p : ℤ) (stage : String) (message : Option String) (now : ℕ)
      → state_eq j.state running ≡ false
      → progress i p stage message now db ≡ (ok false, db)
  unfolding progress
  progress-other p stage message now r = rw (found, r)

  pub finish-other :
      (state : State) (ttl : ℕ) (error : Option JobError) (path sha : Option String) (now : ℕ)
      → state_eq j.state running ≡ false
      → finish i state ttl error path sha now db ≡ (ok false, db)
  unfolding finish
  finish-other state ttl error path sha now r = rw (found, r)

  pub cancel-terminal :
      (ttl now : ℕ) → is_terminal j.state ≡ true → cancel i ttl now db ≡ (ok (some j), db)
  unfolding cancel
  cancel-terminal ttl now t =
      let dead : state_eq j.state queued || state_eq j.state running ≡ false =
        unfold state_eq is_terminal in ground arith in
      rw (found, dead, found)

pub claim_row-id : (now : ℕ) → KeepsId (claim_row now)
unfolding state_eq
claim_row-id now j = ground arith

-- The first row of the queue is claimed.
pub claim_next-first :
    (db : Db) (j : Job) (js : List Job) (now : ℕ)
    → halted db.control ≡ false
    → jobs_in_turn queued db ≡ j ∷ js
    → any_where (by_id j.id) db.jobs ≡ true
    → let db' =
        with_event j.id running
          (pos 10_000)
          (some "starting")
          (some "Worker starting.")
          now
          (with_job j.id (claim_row now) db) in
      claim_next now db ≡ (ok (job_of j.id db'), db')
unfolding claim_next update_job
claim_next-first db j js now p w e =
    let keeps : KeepsId (claim_row now) = claim_row-id now in
    rw (
      p,
      w,
      append_event_lem j.id running (pos 10_000) (some "starting") (some "Worker starting.") now
          (with_job j.id (claim_row now) db)
          (any-update (claim_row now) keeps j.id j.id db.jobs ∙ e),
    )
