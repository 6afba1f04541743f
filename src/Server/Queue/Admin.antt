-- ===== src/Server/Queue/Admin.antt =====
-- The methods of `RemoteQueueRepository` for the operators of the server, and its housekeeping
-- (RotoWeaveServer/server/repository.py).
use rotoweave.Base.{
  ℕ, ◌+◌, ◌-◌, String, Bool, true, false, not, ◌&&◌, Option, none, some, List, [], ◌∷◌, map, str_eq,
  ltb, leb, ◌==◌, if◌then◌else◌, select_where, delete_where, count_where, length, take, drop, min,
  max, any_where,
}
use rotoweave.Base.Order.{sort_by}
use rotoweave.Base.Signed.{ℤ, pos, negsuc, leb_ℤ}
use rotoweave.Server.Logging.{text, array, nil, item, Items, end, field}
use rotoweave.Server.Queue.Schema.{
  State, queued, running, state_eq, is_terminal, state_text, Job, Payload, Event, Log,
  OperationalLog, Control, Db,
}
use rotoweave.Server.Queue.Statements.{
  ◌>>=◌, ◌>>◌, queue_revision_conflict, invalid_queue_operation, Result, ok, Tx, pure, raise, read,
  transaction, by_id, job_of, update_job, append_log,
}
use rotoweave.Server.Queue.Dispatch.{in_state, jobs_in_turn, write_control}

-- ORDER BY sequence
abbrev pub in_sequence : Event → Event → Bool
in_sequence a b = leb a.sequence b.sequence

-- sequence > ?
abbrev pub past_cursor : ℤ → Event → Bool
past_cursor cursor e = not (leb_ℤ (pos e.sequence) cursor)

unfoldable pub events_after : String → ℤ → Db → List Payload
events_after i cursor db =
    map (λ (e : Event). e.payload)
      (sort_by in_sequence
        (select_where (λ e. str_eq e.job_id i && past_cursor cursor e) db.events))

-- CASE state WHEN 'running' THEN 0 WHEN 'queued' THEN 1 ELSE 2 END
abbrev pub display_rank : State → ℕ
display_rank running = 0
display_rank queued = 1
display_rank _ = 2

-- … ,queue_order,created_at DESC
unfoldable pub in_display : Job → Job → Bool
in_display a b =
    if display_rank a.state == display_rank b.state
    then (if a.queue_order == b.queue_order
        then leb b.created_at a.created_at
        else ltb a.queue_order b.queue_order)
    else ltb (display_rank a.state) (display_rank b.state)

abbrev pub matches_state : Option State → Job → Bool
matches_state none j = true
matches_state (some s) j = state_eq j.state s

-- min(max(limit, 1), 500) and max(offset, 0)
abbrev pub page_limit : ℤ → ℕ
page_limit (pos n) = min (max n 1) 500
page_limit (negsuc n) = 1

abbrev pub page_offset : ℤ → ℕ
page_offset (pos n) = n
page_offset (negsuc n) = 0

pub record Page : Type 0 where
  pub items : List Job
  pub total : ℕ
  pub control : Control

unfoldable pub list_jobs : Option State → ℤ → ℤ → Db → Page
unfolding in_display
list_jobs state limit offset db = record {
  items =
      take (page_limit limit) (
        drop (page_offset offset)
          (sort_by in_display (select_where (matches_state state) db.jobs)));
  total = count_where (matches_state state) db.jobs;
  control = db.control;
}

-- `set(a) != set(b)`
abbrev elem_of : List String → String → Bool
elem_of xs i = any_where (λ x. str_eq x i) xs

unfoldable pub same_set : List String → List String → Bool
same_set xs ys =
    not (any_where (λ x. not (elem_of ys x)) xs) && not (any_where (λ y. not (elem_of xs y)) ys)

abbrev pub order_row : ℕ → ℕ → Job → Job
order_row order now j =
    if state_eq j.state queued then record j { queue_order = order; updated_at = now } else j

-- The loop of `reorder`.
unfoldable pub reorder_each : List String → ℕ → ℕ → Tx (Unit {0})
reorder_each [] order now = pure tt
reorder_each (i ∷ is) order now = do
  update_job i (order_row order now)
  reorder_each is (order + 1) now

abbrev pub text_items : List String → Items
text_items [] = nil
text_items (s ∷ ss) = item (text s) (text_items ss)

-- `reorder` where `waiting` are the queued jobs in their order.
abbrev pub reorder_waiting : List String → ℕ → Control → List String → Tx Control
reorder_waiting ids now c waiting =
    if not (same_set ids waiting && length ids == length waiting)
    then raise invalid_queue_operation
    else do
      reorder_each ids 1 now
      write_control (record c { revision = c.revision + 1; updated_at = now })
      append_log none "info" "queue.reordered" (field "jobIds" (array (text_items ids)) end)
          (some "admin") now
      pure (record c { revision = c.revision + 1; updated_at = now })

abbrev pub waiting_ids : Db → List String
waiting_ids db = map (λ (j : Job). j.id) (jobs_in_turn queued db)

abbrev pub reorder_current : List String → ℕ → ℕ → Control → Tx Control
reorder_current ids expected now c =
    if not (c.revision == expected)
    then raise queue_revision_conflict
    else do waiting ← read waiting_ids; reorder_waiting ids now c waiting

unfoldable pub reorder : List String → ℕ → ℕ → Db → Result Control × Db
unfolding same_set reorder_each write_control
reorder ids expected now =
    transaction do c ← read (λ db. db.control); reorder_current ids expected now c

-- `expired`
abbrev pub has_expired : ℕ → Job → Bool
has_expired now j = elim j.expires_at [ none ↦ false | some t ↦ leb t now ]

unfoldable pub expired : ℕ → Db → List Job
expired now db = select_where (λ j. has_expired now j && is_terminal j.state) db.jobs

abbrev pub log_of : String → Log → Bool
log_of i l = elim l.job_id [ none ↦ false | some k ↦ str_eq k i ]

-- DELETE FROM jobs WHERE id=?, with the ON DELETE CASCADE of `events` and `logs`.
abbrev pub without_job : String → Db → Db
without_job i db = record db {
  jobs = delete_where (by_id i) db.jobs;
  events = delete_where (λ e. str_eq e.job_id i) db.events;
  logs = delete_where (log_of i) db.logs;
}

unfoldable pub delete_job : String → Tx (Unit {0})
delete_job i db = ok (tt, without_job i db)

abbrev pub delete_found : String → Bool → Option Job → ℕ → Tx Bool
delete_found i terminal_only none now = pure false
delete_found i terminal_only (some row) now =
    if terminal_only && not (is_terminal row.state) then raise invalid_queue_operation else do
      append_log (some i) "warning" "job.deleted" (field "state" (text (state_text row.state)) end)
          (some "admin") now
      delete_job i
      pure true

unfoldable pub delete : String → Bool → ℕ → Db → Result Bool × Db
unfolding delete_job
delete i terminal_only now =
    transaction do row ← read (job_of i); delete_found i terminal_only row now

-- `stats()["states"]`: the number of jobs in a state.
unfoldable pub stats : State → Db → ℕ
stats s db = count_where (in_state s) db.jobs

pub record Cleanup : Type 0 where
  pub removed : ℕ
  pub cutoff : ℕ
  pub remaining_over_limit : ℕ

-- `cleanup_logs`; `retention` is `retention_days` in units of the clock.
unfoldable pub cleanup_logs : ℕ → ℕ → ℕ → Db → Result Cleanup × Db
cleanup_logs retention max_rows now = transaction λ db.
    let cutoff = now - retention in
    let kept = delete_where (λ (l : OperationalLog). ltb l.created_at cutoff) db.operational_logs in
    let excess = length kept - max_rows in
    let capped = min excess 5000 in
    ok (
      record {
        removed = (length db.operational_logs - length kept) + capped;
        cutoff = cutoff;
        remaining_over_limit = excess - capped;
      },
      record db { operational_logs = drop capped kept },
    )
