-- ===== src/Server/Queue/Moves/Calls.antt =====
-- Every call of the queue moves each row by at most one step of its life, and so no history of calls
-- changes a finished job.
use rotoweave.Base.{
  ℕ, ◌+◌, String, ◌≡◌, refl, Bool, true, false, not, ◌||◌, ◌&&◌, Option, none, some, List, [], ◌∷◌,
  arith, str_eq, any_where, Bool-cases, Option-cases, inl, inr, if◌then◌else◌, ◌==◌,
}
use rotoweave.Server.Queue.Schema.{state_eq, queued, completed, failed, is_terminal, Job, Db}
use rotoweave.Server.Queue.Statements.{Result, ok, err, by_id, job_of, job_of_key}
use rotoweave.Server.Queue.Enqueue.{
  NewJob, job_row, enqueue, log, log_retried, retry_from, retried, retry,
}
use rotoweave.Server.Queue.Dispatch.{set_queue_control, revision_differs}
use rotoweave.Server.Queue.Finish.{complete, fail}
use rotoweave.Server.Queue.Admin.{order_row, reorder, delete, cleanup_logs}
use rotoweave.Server.Queue.Calls.{
  Call, enqueues, logs, recovers, controls, claims, progresses, completes, fails, cancels, reorders,
  retries, deletes, cleans, apply, run,
}
use rotoweave.Server.Queue.Effects.{with_job, job_of-with_job, KeepsId, map_option}
use rotoweave.Server.Queue.Intake.{
  accepted_db, find-append, enqueue-accepted, enqueue-taken, enqueue-known,
}
use rotoweave.Server.Queue.Operations.{
  log-keeps_jobs, set_queue_control_lem, renumber, reorder_lem, is_ordering, delete-found,
  find-delete,
}
use rotoweave.Server.Queue.Invariant.{IsValid}
use rotoweave.Server.Queue.Invariant.Proof.{apply-IsValid}
use rotoweave.Server.Queue.Turn.{state_eq→≡}
use rotoweave.Server.Queue.Moves.{
  RowStep, same, accepted, claimed, reported, ended, dropped, requeued, reordered, LifeStep, kept,
  removed,
}
use rotoweave.Server.Queue.Moves.Proof.{
  progress-RowStep, finish-RowStep, cancel-RowStep, recover-RowStep, claim_next-RowStep,
}

unmoved :
    (now : ℕ) (k : String) (a b : Db) → b.jobs ≡ a.jobs → RowStep now (job_of k a) (job_of k b)
unmoved now k a b e = rw e same

accepted-RowStep :
    (n : NewJob) (now : ℕ) (db : Db) (k : String)
    → any_where (by_id n.job_id) db.jobs ≡ false
    → RowStep now (job_of k db) (job_of k (accepted_db n now db))
accepted-RowStep n now db k new = elim (Option-cases (job_of k db)) [
  | inr (j, e) ↦ rw (find-append (by_id k) db.jobs (job_row n _ now), e) same
  | inl e ↦ elim (Bool-cases (str_eq n.job_id k)) [
    | inl h ↦ rw (find-append (by_id k) db.jobs (job_row n _ now), e, h) (accepted n _)
    | inr h ↦ rw (find-append (by_id k) db.jobs (job_row n _ now), e, h) same
  ]
]

enqueue-RowStep :
    (n : NewJob) (now : ℕ) (db : Db) (k : String)
    → RowStep now (job_of k db) (job_of k (enqueue n now db).1)
enqueue-RowStep n now db k = elim (Option-cases (job_of_key n.idempotency_key db)) [
  | inr (j, e) ↦ elim (Bool-cases (str_eq j.request_sha256 n.request_sha256)) [
    | inl h ↦ rw (enqueue-known n now db j e, h) same
    | inr h ↦ rw (enqueue-known n now db j e, h) same
  ]
  | inl e ↦ elim (Bool-cases (any_where (by_id n.job_id) db.jobs)) [
    | inl h ↦ rw (enqueue-taken n now db e h) same
    | inr h ↦ rw (enqueue-accepted n now db e h) (accepted-RowStep n now db k h)
  ]
]

order_row-KeepsId : (order now : ℕ) → KeepsId (order_row order now)
unfolding state_eq
order_row-KeepsId order now j = ground arith

-- A row that was renumbered before is renumbered again.
order_row-twice : (m n now : ℕ) (j : Job) → order_row n now (order_row m now j) ≡ order_row n now j
unfolding state_eq
order_row-twice m n now j = ground arith

order_row-other : (n now : ℕ) (j : Job) → state_eq j.state queued ≡ false → order_row n now j ≡ j
order_row-other n now j h = rw h

-- The row with the id `k` after some rounds of `reorder`.
data Renumbered (now : ℕ) (o : Option Job) : Option Job → Type 0 where
  untouched : Renumbered now o o
  touched : (n : ℕ) → Renumbered now o (map_option (order_row n now) o)

renumber_round :
    (n now : ℕ) (o p : Option Job)
    → Renumbered now o p
    → Renumbered now o (map_option (order_row n now) p)
renumber_round n now o p untouched = touched n
renumber_round n now none p (touched m) = touched m
renumber_round n now (some j) p (touched m) = rw (order_row-twice m n now j) (touched n)

renumber-Renumbered :
    (is : List String) (n now : ℕ) (o : Option Job) (db : Db) (k : String)
    → Renumbered now o (job_of k db)
    → Renumbered now o (job_of k (renumber is n now db))
renumber-Renumbered [] n now o db k h = h
renumber-Renumbered (i ∷ is) n now o db k h =
    renumber-Renumbered is (n + 1) now o (with_job i (order_row n now) db) k
      (elim (Bool-cases (str_eq i k)) [
        | inl e ↦
            rw (job_of-with_job (order_row n now) (order_row-KeepsId n now) i k db, e)
              (renumber_round n now o (job_of k db) h)
        | inr e ↦ rw (job_of-with_job (order_row n now) (order_row-KeepsId n now) i k db, e) h
      ])

Renumbered-RowStep : (now : ℕ) (o p : Option Job) → Renumbered now o p → RowStep now o p
Renumbered-RowStep now o p untouched = same
Renumbered-RowStep now none p (touched n) = same
Renumbered-RowStep now (some j) p (touched n) = elim (Bool-cases (state_eq j.state queued)) [
  | inl e ↦ reordered n (state_eq→≡ j.state queued e)
  | inr e ↦ rw (order_row-other n now j e) same
]

reorder-RowStep :
    (is : List String) (expected now : ℕ) (db : Db) (k : String)
    → RowStep now (job_of k db) (job_of k (reorder is expected now db).1)
reorder-RowStep is expected now db k = elim (Bool-cases (db.control.revision == expected)) [
  | inr e ↦ rw (reorder_lem is expected now db, e) same
  | inl e ↦ elim (Bool-cases (is_ordering is db)) [
    | inr f ↦ rw (reorder_lem is expected now db, e, f) same
    | inl f ↦
        rw (reorder_lem is expected now db, e, f)
          (Renumbered-RowStep now (job_of k db) (job_of k (renumber is 1 now db))
            (renumber-Renumbered is 1 now (job_of k db) db k untouched))
  ]
]

controls-RowStep :
    (paused maintenance : Option Bool) (mode : Option String) (expected : Option ℕ) (now : ℕ)
    (db : Db) (k : String)
    → RowStep now
        (job_of k db)
        (job_of k (set_queue_control paused maintenance mode expected now db).1)
controls-RowStep paused maintenance mode expected now db k =
    elim (Bool-cases (revision_differs expected db.control)) [
      | inl e ↦ rw (set_queue_control_lem paused maintenance mode expected now db, e) same
      | inr e ↦ rw (set_queue_control_lem paused maintenance mode expected now db, e) same
    ]

delete-LifeStep :
    (i : String) (b : Bool) (now : ℕ) (db : Db) (k : String)
    → LifeStep now (str_eq i k) (job_of k db) (job_of k (delete i b now db).1)
delete-LifeStep i b now db k = elim (Option-cases (job_of i db)) [
  | inl e ↦ unfold delete in rw e (kept same)
  | inr (j, e) ↦ elim (Bool-cases (b && not (is_terminal j.state))) [
    | inl h ↦ rw (delete-found i b now db j e, h) (kept same)
    | inr h ↦
        rw (delete-found i b now db j e, h)
          (rw (find-delete i k db.jobs) (gone (str_eq i k) (job_of k db)))
  ]
]
  where
    gone : (c : Bool) (o : Option Job) → LifeStep now c o (if c then none else o)
    gone true o = removed refl
    gone false o = kept same

-- `retry` logs after it enqueues, and that leaves the rows.
log_retried-keeps_jobs :
    (new_id parent : String) (now : ℕ) (r : Result (Job × Bool)) (db : Db)
    → (log_retried new_id parent now (r, db)).1.jobs ≡ db.jobs
log_retried-keeps_jobs new_id parent now (err e) db = refl
log_retried-keeps_jobs new_id parent now (ok (j, c)) db =
    through (log _ _ _ _ _ now db) (log-keeps_jobs (some new_id) "info" "job.retried" _ _ now db)
  where
    through :
        (q : Result (Unit {0}) × Db)
        → q.1.jobs ≡ db.jobs
        → (let (l, b') = q in
            let out : Result Job × Db = elim l [ err e ↦ (err e, b') | ok _ ↦ (ok j, b') ] in
            out).1.jobs
          ≡ db.jobs
    through (err e, b) h = h
    through (ok a, b) h = h

retry_from-RowStep :
    (o : Option Job) (new_id key path : String) (now : ℕ) (db : Db) (k : String)
    → RowStep now (job_of k db) (job_of k (retry_from o new_id key path now db).1)
retry_from-RowStep none new_id key path now db k = same
retry_from-RowStep (some j) new_id key path now db k = elim (Bool-cases (is_terminal j.state)) [
  | inl e ↦
      let out = enqueue (retried j new_id key path) now db in
      rw (e, log_retried-keeps_jobs new_id j.id now out.0 out.1)
        (enqueue-RowStep (retried j new_id key path) now db k)
  | inr e ↦ rw e same
]

-- Whether the call deletes the job with the id.
abbrev pub deletes_id : Call → String → Bool
deletes_id (deletes i b) k = str_eq i k
deletes_id _ k = false

-- Whatever the call and its result, the row with any id is left as it is, removed (by a deletion of its
-- id alone), inserted in the state `queued`, or moved by one step that writes the columns shown by its
-- row: claimed or renumbered from `queued`, reported on, ended or requeued from `running`, or cancelled
-- from either.
pub apply-LifeStep :
    (c : Call) (now : ℕ) (db : Db) (k : String)
    → IsValid db
    → LifeStep now (deletes_id c k) (job_of k db) (job_of k (apply c now db))
unfolding apply
apply-LifeStep (enqueues n) now db k v = kept (enqueue-RowStep n now db k)
apply-LifeStep (logs i level event detail component) now db k v = kept (
    unmoved now k db (log i level event detail component now db).1
      (log-keeps_jobs i level event detail component now db))
apply-LifeStep recovers now db k v = kept (recover-RowStep now db k v)
apply-LifeStep (controls paused maintenance mode expected) now db k v =
    kept (controls-RowStep paused maintenance mode expected now db k)
apply-LifeStep claims now db k v = kept (claim_next-RowStep now db k v)
apply-LifeStep (progresses i p stage message) now db k v =
    kept (progress-RowStep i p stage message now db k)
apply-LifeStep (completes i path sha ttl) now db k v =
    unfold complete in
    kept (finish-RowStep i completed ttl none (some path) (some sha) now db k (inl refl))
apply-LifeStep (fails i e ttl) now db k v =
    unfold fail in kept (finish-RowStep i failed ttl (some e) none none now db k (inr refl))
apply-LifeStep (cancels i ttl) now db k v = kept (cancel-RowStep i ttl now db k)
apply-LifeStep (reorders ids expected) now db k v = kept (reorder-RowStep ids expected now db k)
apply-LifeStep (retries i new_id key path) now db k v =
    unfold retry in kept (retry_from-RowStep (job_of i db) new_id key path now db k)
apply-LifeStep (deletes i b) now db k v = delete-LifeStep i b now db k
apply-LifeStep (cleans retention max_rows) now db k v = unfold cleanup_logs in kept same

LifeStep-terminal :
    (now : ℕ) (d : Bool) (o p : Option Job) (j : Job)
    → LifeStep now d o p
    → o ≡ some j
    → is_terminal j.state ≡ true
    → d ≡ false
    → p ≡ some j
unfolding is_terminal
LifeStep-terminal now d o p j (removed e) h t f = cc
LifeStep-terminal now d o p j (kept same) h t f = h
LifeStep-terminal now d o p j (kept (accepted n order)) h t f = cc
LifeStep-terminal now d o p j (kept (claimed q)) h t f = ground arith
LifeStep-terminal now d o p j (kept (reported m stage q)) h t f = ground arith
LifeStep-terminal now d o p j (kept (ended s e path sha ttl w q)) h t f = ground arith
LifeStep-terminal now d o p j (kept (dropped ttl q)) h t f = ground arith
LifeStep-terminal now d o p j (kept (requeued q)) h t f = ground arith
LifeStep-terminal now d o p j (kept (reordered order q)) h t f = ground arith

-- Whether some call of a history deletes the id.
abbrev pub ever_deletes : List (ℕ × Call) → String → Bool
ever_deletes [] k = false
ever_deletes ((now, c) ∷ cs) k = deletes_id c k || ever_deletes cs k

-- A job that is completed, failed or cancelled keeps its row, every column of it, through any history
-- of calls that does not delete its id.
pub run-terminal :
    (cs : List (ℕ × Call)) (db : Db) (k : String) (j : Job)
    → IsValid db
    → job_of k db ≡ some j
    → is_terminal j.state ≡ true
    → ever_deletes cs k ≡ false
    → job_of k (run cs db) ≡ some j
unfolding run
run-terminal [] db k j v h t d = h
run-terminal ((now, c) ∷ cs) db k j v h t d =
    run-terminal cs (apply c now db) k j (apply-IsValid c now db v)
      (LifeStep-terminal now (deletes_id c k) (job_of k db) (job_of k (apply c now db)) j
        (apply-LifeStep c now db k v) h t (ground arith))
      t (ground arith)
