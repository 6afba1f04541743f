-- ===== src/Server/Queue/Operations.antt =====
-- What `log`, `set_queue_control`, `reorder`, `delete` and `retry` leave in the database
-- (RotoWeaveServer/server/repository.py).
use rotoweave.Base.{
  ℕ, ◌+◌, String, ◌≡◌, refl, Bool, true, not, ◌&&◌, Option, none, some, List, [], ◌∷◌, arith, ◌==◌,
  str_eq, eq_iff, find_where, delete_where, Bool-cases, inl, inr, if◌then◌else◌, length,
}
use rotoweave.Server.Logging.{Fields, field, end, text, array}
use rotoweave.Server.Queue.Schema.{state_text, is_terminal, Job, Control, Db}
use rotoweave.Server.Queue.Statements.{
  ok, err, queue_revision_conflict, invalid_queue_operation, by_id, job_of, log_parent_exists,
  update_job, append_log, insert_logs,
}
use rotoweave.Server.Queue.Enqueue.{log}
use rotoweave.Server.Queue.Dispatch.{
  revision_differs, changed_control, control_detail, set_queue_control,
}
use rotoweave.Server.Queue.Admin.{
  order_row, reorder_each, same_set, text_items, waiting_ids, reorder, without_job, delete,
}
use rotoweave.Server.Queue.Effects.{with_job, with_log, append_log_lem, job_of-exists}

pub log-ok :
    (i : Option String) (level event : String) (detail : Fields) (component : Option String)
    (now : ℕ) (db : Db)
    → log_parent_exists i db.jobs ≡ true
    → log i level event detail component now db
      ≡ (ok tt, with_log i level event detail component now db)
unfolding log
log-ok i level event detail component now db h =
    rw (append_log_lem i level event detail component now db h)

pub log-keeps_jobs :
    (i : Option String) (level event : String) (detail : Fields) (component : Option String)
    (now : ℕ) (db : Db)
    → (log i level event detail component now db).1.jobs ≡ db.jobs
log-keeps_jobs i level event detail component now db =
    elim (Bool-cases (log_parent_exists i db.jobs)) [
      | inl h ↦ rw (log-ok i level event detail component now db h)
      | inr h ↦ unfold log append_log insert_logs in rw h
    ]

abbrev pub controlled_db : Option Bool → Option Bool → Option String → ℕ → Db → Db
controlled_db paused maintenance mode now db =
    with_log none "warning" "queue.control_changed"
      (control_detail paused maintenance mode db.control) (some "admin") now
      (record db { control = changed_control paused maintenance mode now db.control })

-- Both branches of `set_queue_control`.
pub set_queue_control_lem :
    (paused maintenance : Option Bool) (mode : Option String) (expected : Option ℕ) (now : ℕ)
    (db : Db)
    → set_queue_control paused maintenance mode expected now db ≡ (
        if revision_differs expected db.control then (err queue_revision_conflict, db) else (
          ok (changed_control paused maintenance mode now db.control),
          controlled_db paused maintenance mode now db,
        ))
unfolding set_queue_control
set_queue_control_lem paused maintenance mode expected now db =
    elim (Bool-cases (revision_differs expected db.control)) [
      | inl e ↦ rw e
      | inr e ↦ rw (
        e,
        append_log_lem none "warning" "queue.control_changed"
            (control_detail paused maintenance mode db.control) (some "admin") now
            (record db { control = changed_control paused maintenance mode now db.control }) refl,
      )
    ]

-- The rounds of `reorder`.
abbrev pub renumber : List String → ℕ → ℕ → Db → Db
renumber [] order now db = db
renumber (i ∷ is) order now db = renumber is (order + 1) now (with_job i (order_row order now) db)

pub reorder_each_lem :
    (is : List String) (order now : ℕ) (db : Db)
    → reorder_each is order now db ≡ ok (tt, renumber is order now db)
unfolding reorder_each update_job
reorder_each_lem [] order now db = refl
reorder_each_lem (i ∷ is) order now db =
    reorder_each_lem is (order + 1) now (with_job i (order_row order now) db)

abbrev pub next_control : ℕ → Control → Control
next_control now c = record c { revision = c.revision + 1; updated_at = now }

abbrev pub reordered_db : List String → ℕ → Db → Db
reordered_db is now db =
    with_log none "info" "queue.reordered" (field "jobIds" (array (text_items is)) end)
      (some "admin") now (record (renumber is 1 now db) { control = next_control now db.control })

-- What `reorder` asks of the ids.
abbrev pub is_ordering : List String → Db → Bool
is_ordering is db = same_set is (waiting_ids db) && length is == length (waiting_ids db)

-- The branches of `reorder`.
pub reorder_lem :
    (is : List String) (expected now : ℕ) (db : Db)
    → reorder is expected now db ≡ (
        if not (db.control.revision == expected)
        then (err queue_revision_conflict, db)
        else if not (is_ordering is db)
        then (err invalid_queue_operation, db)
        else (ok (next_control now db.control), reordered_db is now db))
unfolding reorder
reorder_lem is expected now db = elim (Bool-cases (db.control.revision == expected)) [
  | inr e ↦ rw e
  | inl e ↦ elim (Bool-cases (is_ordering is db)) [
    | inr f ↦ rw (e, f)
    | inl f ↦ rw (
      e,
      f,
      reorder_each_lem is 1 now db,
      append_log_lem none "info" "queue.reordered" (field "jobIds" (array (text_items is)) end)
          (some "admin") now
          (record (renumber is 1 now db) { control = next_control now db.control }) refl,
    )
  ]
]

abbrev pub deleted_db : String → Job → ℕ → Db → Db
deleted_db i j now db = without_job i (
    with_log (some i) "warning" "job.deleted" (field "state" (text (state_text j.state)) end)
      (some "admin") now db)

-- The branches of `delete` for a job that is there.
pub delete-found :
    (i : String) (terminal_only : Bool) (now : ℕ) (db : Db) (j : Job)
    → job_of i db ≡ some j
    → delete i terminal_only now db ≡ (
        if terminal_only && not (is_terminal j.state)
        then (err invalid_queue_operation, db)
        else (ok true, deleted_db i j now db))
unfolding delete
delete-found i terminal_only now db j found =
    elim (Bool-cases (terminal_only && not (is_terminal j.state))) [
      | inl e ↦ rw (found, e)
      | inr e ↦ rw (
        found,
        e,
        append_log_lem (some i) "warning" "job.deleted"
            (field "state" (text (state_text j.state)) end) (some "admin") now db
            (job_of-exists i db found),
      )
    ]

pub find-delete :
    (i k : String) (js : List Job)
    → find_where (by_id k) (delete_where (by_id i) js)
      ≡ (if str_eq i k then none else find_where (by_id k) js)
find-delete i k [] = ground arith
find-delete i k (x ∷ js) =
    ground (arith, find-delete i k js, eq_iff x.id i, eq_iff x.id k, eq_iff i k)
