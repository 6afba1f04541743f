-- ===== src/Server/Queue/Rows.antt =====
-- What the columns of a job's row say together (RotoWeaveServer/server/repository.py).
use rotoweave.Base.{
  ℕ, String, ◌≡◌, refl, Bool, true, false, Option, some, List, [], ◌∷◌, arith, is_some, ◌⊎◌, subst,
}
use rotoweave.Base.Signed.{ℤ, pos, negsuc}
use rotoweave.Server.Queue.Schema.{
  State, state_eq, queued, running, completed, failed, cancelled, is_terminal, JobError, Job, Db,
}
use rotoweave.Server.Queue.Statements.{job_of, clamp_progress}
use rotoweave.Server.Queue.Enqueue.{NewJob, job_row}
use rotoweave.Server.Queue.Dispatch.{claim_row, recover_row}
use rotoweave.Server.Queue.Finish.{progress_row, finish_row, cancel_row}
use rotoweave.Server.Queue.Admin.{order_row}
use rotoweave.Server.Queue.Calls.{Call, apply, run}
use rotoweave.Server.Queue.Invariant.{IsValid, InUnit}
use rotoweave.Server.Queue.Invariant.Proof.{apply-IsValid}
use rotoweave.Server.Queue.Moves.{
  RowStep, same, accepted, claimed, reported, ended, dropped, requeued, reordered, LifeStep, kept,
  removed,
}
use rotoweave.Server.Queue.Moves.Calls.{deletes_id, apply-LifeStep}

pub record IsCoherent (j : Job) : Type 0 where
  pub in_range : InUnit j.progress
  pub started_running : j.state ≡ running → is_some j.started_at ≡ true
  pub not_started_queued : j.state ≡ queued → is_some j.started_at ≡ false
  pub finished_terminal : is_some j.finished_at ≡ is_terminal j.state
  pub expires_terminal : is_some j.expires_at ≡ is_terminal j.state
  pub requested_cancelled : j.cancel_requested ≡ state_eq j.state cancelled

clamp-InUnit : (p : ℤ) → InUnit (clamp_progress (pos 990_000) p)
unfolding clamp_progress
clamp-InUnit (pos n) = ground arith
clamp-InUnit (negsuc n) = ground arith

module _ (now : ℕ) (j : Job) (c : IsCoherent j) where
  claim-IsCoherent : j.state ≡ queued → IsCoherent (claim_row now j)
  unfolding state_eq is_terminal
  claim-IsCoherent q = ground arith

  progress-IsCoherent :
      (p : ℤ) (stage : String) → j.state ≡ running → IsCoherent (progress_row p stage now j)
  progress-IsCoherent p stage r = record {
    in_range = clamp-InUnit p;
    started_running = c.started_running;
    not_started_queued = c.not_started_queued;
    finished_terminal = c.finished_terminal;
    expires_terminal = c.expires_terminal;
    requested_cancelled = c.requested_cancelled;
  }

  finish-IsCoherent :
      (s : State) (e : Option JobError) (path sha : Option String) (ttl : ℕ)
      → (s ≡ completed) ⊎ (s ≡ failed)
      → j.state ≡ running
      → IsCoherent (finish_row s e path sha ttl now j)
  unfolding state_eq is_terminal
  finish-IsCoherent s e path sha ttl w r = ground arith

  cancel-IsCoherent :
      (ttl : ℕ) → (j.state ≡ queued) ⊎ (j.state ≡ running) → IsCoherent (cancel_row ttl now j)
  unfolding state_eq is_terminal
  cancel-IsCoherent ttl l = ground arith

  recover-IsCoherent : j.state ≡ running → IsCoherent (recover_row now j)
  unfolding state_eq is_terminal
  recover-IsCoherent r = ground arith

  order-IsCoherent : (n : ℕ) → j.state ≡ queued → IsCoherent (order_row n now j)
  unfolding state_eq is_terminal
  order-IsCoherent n q = ground arith

new-IsCoherent : (n : NewJob) (order now : ℕ) → IsCoherent (job_row n order now)
unfolding state_eq is_terminal
new-IsCoherent n order now = ground arith

abbrev AllCoherent : Option Job → Type 0
AllCoherent o = (j : Job) → o ≡ some j → IsCoherent j

at_some : (x j : Job) → IsCoherent x → some x ≡ some j → IsCoherent j
at_some x j c e = let p : x ≡ j = cc in subst IsCoherent p c

RowStep-IsCoherent : (now : ℕ) (o p : Option Job) → RowStep now o p → AllCoherent o → AllCoherent p
RowStep-IsCoherent now o p same c j e = c j e
RowStep-IsCoherent now o p (accepted n order) c j e = at_some _ j (new-IsCoherent n order now) e
RowStep-IsCoherent now o p (claimed {j = i} q) c j e =
    at_some _ j (claim-IsCoherent now i (c i refl) q) e
RowStep-IsCoherent now o p (reported {j = i} m stage q) c j e =
    at_some _ j (progress-IsCoherent now i (c i refl) m stage q) e
RowStep-IsCoherent now o p (ended {j = i} s x path sha ttl w q) c j e =
    at_some _ j (finish-IsCoherent now i (c i refl) s x path sha ttl w q) e
RowStep-IsCoherent now o p (dropped {j = i} ttl q) c j e =
    at_some _ j (cancel-IsCoherent now i (c i refl) ttl q) e
RowStep-IsCoherent now o p (requeued {j = i} q) c j e =
    at_some _ j (recover-IsCoherent now i (c i refl) q) e
RowStep-IsCoherent now o p (reordered {j = i} order q) c j e =
    at_some _ j (order-IsCoherent now i (c i refl) order q) e

LifeStep-IsCoherent :
    (now : ℕ) (d : Bool) (o p : Option Job) → LifeStep now d o p → AllCoherent o → AllCoherent p
LifeStep-IsCoherent now d o p (kept s) c = RowStep-IsCoherent now o p s c
LifeStep-IsCoherent now d o p (removed e) c = λ j n. cc

-- After any history of calls from a valid database with coherent rows, in each row the progress lies
-- between 0 and 1, a running job has its start and a queued job none, the times of the end and of the
-- expiry are there exactly where the job is finished, and the cancel flag exactly where it is cancelled.
pub run-IsCoherent :
    (cs : List (ℕ × Call)) (db : Db) (k : String)
    → IsValid db
    → ((j : Job) → job_of k db ≡ some j → IsCoherent j)
    → (j : Job) → job_of k (run cs db) ≡ some j
    → IsCoherent j
unfolding run
run-IsCoherent [] db k v c j e = c j e
run-IsCoherent ((now, call) ∷ cs) db k v c j e =
    run-IsCoherent cs (apply call now db) k (apply-IsValid call now db v)
      (LifeStep-IsCoherent now (deletes_id call k) (job_of k db) (job_of k (apply call now db))
        (apply-LifeStep call now db k v) c)
      j e
