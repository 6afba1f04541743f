-- ===== src/Server/Queue/Moves.antt =====
-- The life of a job's row: what one call of the queue (RotoWeaveServer/server/repository.py) can do to
-- the row with a given id.
pub mod Recovery
pub mod Proof
pub mod Calls
use rotoweave.Base.{ℕ, String, ◌≡◌, ◌⊎◌, Bool, true, Option, none, some}
use rotoweave.Base.Signed.{ℤ}
use rotoweave.Server.Queue.Schema.{State, queued, running, completed, failed, JobError, Job}
use rotoweave.Server.Queue.Enqueue.{NewJob, job_row}
use rotoweave.Server.Queue.Dispatch.{claim_row, recover_row}
use rotoweave.Server.Queue.Finish.{progress_row, finish_row, cancel_row}
use rotoweave.Server.Queue.Admin.{order_row}

-- The row before and after a call at time `now`.
pub data RowStep (now : ℕ) : Option Job → Option Job → Type 0 where
  same : {o : Option Job} → RowStep now o o
  accepted : (n : NewJob) (order : ℕ) → RowStep now none (some (job_row n order now))
  claimed : {j : Job} → j.state ≡ queued → RowStep now (some j) (some (claim_row now j))
  reported :
      {j : Job} (p : ℤ) (stage : String)
      → j.state ≡ running
      → RowStep now (some j) (some (progress_row p stage now j))
  ended :
      {j : Job} (s : State) (e : Option JobError) (path sha : Option String) (ttl : ℕ)
      → (s ≡ completed) ⊎ (s ≡ failed)
      → j.state ≡ running
      → RowStep now (some j) (some (finish_row s e path sha ttl now j))
  dropped :
      {j : Job} (ttl : ℕ)
      → (j.state ≡ queued) ⊎ (j.state ≡ running)
      → RowStep now (some j) (some (cancel_row ttl now j))
  requeued : {j : Job} → j.state ≡ running → RowStep now (some j) (some (recover_row now j))
  reordered :
      {j : Job} (order : ℕ) → j.state ≡ queued → RowStep now (some j) (some (order_row order now j))

-- The same, where `deleted` tells whether the call deletes the row's id.
pub data LifeStep (now : ℕ) (deleted : Bool) : Option Job → Option Job → Type 0 where
  kept : {o p : Option Job} → RowStep now o p → LifeStep now deleted o p
  removed : {o : Option Job} → deleted ≡ true → LifeStep now deleted o none
