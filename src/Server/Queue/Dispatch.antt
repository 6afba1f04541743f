-- ===== src/Server/Queue/Dispatch.antt =====
-- The order of the queue, its control row, and `recover` and `claim_next` of `RemoteQueueRepository`
-- (RotoWeaveServer/server/repository.py). A method takes the clock's reading as `now`.
use rotoweave.Base.{
  ℕ, ◌+◌, String, Bool, true, false, not, ◌||◌, Option, none, some, List, [], ◌∷◌, map, ltb, leb,
  ◌==◌, if◌then◌else◌, or_else, select_where,
}
use rotoweave.Base.Order.{sort_by}
use rotoweave.Base.Signed.{pos}
use rotoweave.Server.Logging.{Json, Fields, number, text, end, field}
use rotoweave.Server.Queue.Schema.{State, queued, running, state_eq, Job, Control, Db}
use rotoweave.Server.Queue.Statements.{
  ◌>>=◌, ◌>>◌, queue_revision_conflict, Result, ok, Tx, pure, raise, read, transaction, job_of,
  update_job, append_event, append_log,
}

-- ORDER BY queue_order, created_at
unfoldable pub in_turn : Job → Job → Bool
in_turn a b =
    if a.queue_order == b.queue_order
    then leb a.created_at b.created_at
    else ltb a.queue_order b.queue_order

abbrev pub in_state : State → Job → Bool
in_state s j = state_eq j.state s

-- SELECT … WHERE state=? ORDER BY queue_order, created_at
unfoldable pub jobs_in_turn : State → Db → List Job
unfolding in_turn
jobs_in_turn s db = sort_by in_turn (select_where (in_state s) db.jobs)

abbrev pub recover_row : ℕ → Job → Job
recover_row now j = record j {
  state = queued;
  stage = some "recovered";
  progress = pos 0;
  attempt = j.attempt + 1;
  started_at = none;
  updated_at = now;
}

-- The loop of `recover`.
unfoldable pub recover_each : List String → ℕ → Tx (Unit {0})
recover_each [] now = pure tt
recover_each (i ∷ is) now = do
  update_job i (recover_row now)
  sequence ←
      append_event i queued (pos 0) (some "recovered") (some "Service restarted; job requeued.") now
  append_log (some i) "warning" "job.recovered" end none now
  recover_each is now

unfoldable pub recover : ℕ → Db → Result (List String) × Db
unfolding recover_each
recover now = transaction do
  ids ← read (λ db. map (λ (j : Job). j.id) (jobs_in_turn running db))
  recover_each ids now
  pure ids

abbrev pub int_of : Bool → Json
int_of true = number (pos 1)
int_of false = number (pos 0)

abbrev pub revision_differs : Option ℕ → Control → Bool
revision_differs none c = false
revision_differs (some expected) c = not (c.revision == expected)

-- UPDATE queue_control SET paused=?,maintenance=?,mode=?,revision=revision+1,updated_at=?
abbrev pub changed_control : Option Bool → Option Bool → Option String → ℕ → Control → Control
changed_control paused maintenance mode now c = record {
  paused = or_else paused c.paused;
  maintenance = or_else maintenance c.maintenance;
  mode = or_else mode c.mode;
  revision = c.revision + 1;
  updated_at = now;
}

unfoldable pub write_control : Control → Tx (Unit {0})
write_control c db = ok (tt, record db { control = c })

abbrev pub control_detail : Option Bool → Option Bool → Option String → Control → Fields
control_detail paused maintenance mode c = field "paused" (int_of (or_else paused c.paused)) (
    field "maintenance" (int_of (or_else maintenance c.maintenance))
      (field "mode" (text (or_else mode c.mode)) end))

abbrev pub change_control :
    Option Bool → Option Bool → Option String → Option ℕ → ℕ → Control → Tx Control
change_control paused maintenance mode expected now c =
    if revision_differs expected c then raise queue_revision_conflict else do
      write_control (changed_control paused maintenance mode now c)
      append_log none "warning" "queue.control_changed" (control_detail paused maintenance mode c)
          (some "admin") now
      pure (changed_control paused maintenance mode now c)

unfoldable pub set_queue_control :
    Option Bool → Option Bool → Option String → Option ℕ → ℕ → Db → Result Control × Db
unfolding write_control
set_queue_control paused maintenance mode expected now =
    transaction
      do c ← read (λ db. db.control); change_control paused maintenance mode expected now c

abbrev pub claim_row : ℕ → Job → Job
claim_row now j =
    if state_eq j.state queued
    then record j {
      state = running;
      stage = some "starting";
      started_at = some now;
      updated_at = now;
    }
    else j

abbrev pub claim_first : ℕ → List Job → Tx (Option Job)
claim_first now [] = pure none
claim_first now (j ∷ js) = do
  update_job j.id (claim_row now)
  sequence ← append_event j.id running (pos 10_000) (some "starting") (some "Worker starting.") now
  read (job_of j.id)

-- The queue hands out no job while it is paused or in maintenance.
unfoldable pub halted : Control → Bool
halted c = c.paused || c.maintenance

abbrev pub claim_current : ℕ → Control → Tx (Option Job)
claim_current now control =
    if halted control
    then pure none
    else do waiting ← read (jobs_in_turn queued); claim_first now waiting

unfoldable pub claim_next : ℕ → Db → Result (Option Job) × Db
claim_next now = transaction do control ← read (λ db. db.control); claim_current now control
