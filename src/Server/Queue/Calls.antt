-- ===== src/Server/Queue/Calls.antt =====
-- The calls of `RemoteQueueRepository` that write (RotoWeaveServer/server/repository.py), as values, and
-- what a call, or a history of calls, does to the database.
use rotoweave.Base.{ℕ, String, Bool, Option, List, [], ◌∷◌}
use rotoweave.Base.Signed.{ℤ}
use rotoweave.Server.Logging.{Fields}
use rotoweave.Server.Queue.Schema.{JobError, Db}
use rotoweave.Server.Queue.Enqueue.{NewJob, enqueue, log, retry}
use rotoweave.Server.Queue.Dispatch.{recover, set_queue_control, claim_next}
use rotoweave.Server.Queue.Finish.{progress, complete, fail, cancel}
use rotoweave.Server.Queue.Admin.{reorder, delete, cleanup_logs}

pub data Call : Type 0 where
  enqueues : NewJob → Call
  logs : Option String → String → String → Fields → Option String → Call
  recovers : Call
  controls : Option Bool → Option Bool → Option String → Option ℕ → Call
  claims : Call
  progresses : String → ℤ → String → Option String → Call
  completes : String → String → String → ℕ → Call
  fails : String → JobError → ℕ → Call
  cancels : String → ℕ → Call
  reorders : List String → ℕ → Call
  retries : String → String → String → String → Call
  deletes : String → Bool → Call
  cleans : ℕ → ℕ → Call

-- A call that raises is rolled back, and the database goes on from where the call left it.
unfoldable pub apply : Call → ℕ → Db → Db
apply (enqueues n) now db = (enqueue n now db).1
apply (logs i level event detail component) now db = (log i level event detail component now db).1
apply recovers now db = (recover now db).1
apply (controls paused maintenance mode expected) now db =
    (set_queue_control paused maintenance mode expected now db).1
apply claims now db = (claim_next now db).1
apply (progresses i p stage message) now db = (progress i p stage message now db).1
apply (completes i path sha ttl) now db = (complete i path sha ttl now db).1
apply (fails i error ttl) now db = (fail i error ttl now db).1
apply (cancels i ttl) now db = (cancel i ttl now db).1
apply (reorders ids expected) now db = (reorder ids expected now db).1
apply (retries i new_id new_key new_path) now db = (retry i new_id new_key new_path now db).1
apply (deletes i terminal_only) now db = (delete i terminal_only now db).1
apply (cleans retention max_rows) now db = (cleanup_logs retention max_rows now db).1

-- The calls of a history, each with the clock's reading.
unfoldable pub run : List (ℕ × Call) → Db → Db
unfolding apply
run [] db = db
run ((now, c) ∷ cs) db = run cs (apply c now db)
