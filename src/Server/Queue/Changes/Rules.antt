-- ===== src/Server/Queue/Changes/Rules.antt =====
-- A rule for each way to build a transaction of the queue, and the calls, each by those rules.
use rotoweave.Base.{
  ℕ, String, refl, Bool, true, false, Option, none, some, List, [], ◌∷◌, inl, inr, Bool-cases,
  if◌then◌else◌, arith, any_where, map,
}
use rotoweave.Base.Signed.{ℤ}
use rotoweave.Server.Logging.{Fields}
use rotoweave.Server.Queue.Schema.{
  JobError, State, Job, Control, Db, state_eq, queued, running, is_terminal,
}
use rotoweave.Server.Queue.Statements.{
  Error, Result, ok, err, Tx, continue, ◌>>=◌, pure, raise, read, transaction, by_id, by_key,
  job_of, job_of_key, update_job, insert_job, append_event, append_log, insert_event, insert_logs,
  log_parent_exists, commit_or_rollback,
}
use rotoweave.Server.Queue.Enqueue
use rotoweave.Server.Queue.Dispatch
use rotoweave.Server.Queue.Finish
use rotoweave.Server.Queue.Admin
use rotoweave.Server.Queue.Calls.{
  Call, enqueues, logs, recovers, controls, claims, progresses, completes, fails, cancels, reorders,
  retries, deletes, cleans, apply,
}
use rotoweave.Server.Queue.Effects.{KeepsId, append_event_lem, append_log_lem}
use rotoweave.Server.Queue.Changes.{
  Change, KeepsKey, keep, chain, update, event, log, insert, control, delete, prune,
}

-- What a transaction has done, if it has not raised.
abbrev pub After : {A : Type 0} → Db → Result (A × Db) → Type 0
After db (err e) = Unit
After db (ok (a, db')) = Change db db'

pub record Changes {A : Type 0} (m : Tx A) : Type 0 where
  pub at : (db : Db) → After db (m db)

module _ {A : Type 0} where
  Changes-pure : (a : A) → Changes (pure a)
  Changes-pure a = record { at = λ db. keep }

  Changes-raise : (e : Error) → Changes (raise {A = A} e)
  Changes-raise e = record { at = λ db. tt }

  Changes-read : (f : Db → A) → Changes (read f)
  Changes-read f = record { at = λ db. keep }

  Changes-if : (b : Bool) (m n : Tx A) → Changes m → Changes n → Changes (if b then m else n)
  Changes-if true m n cm cn = cm
  Changes-if false m n cm cn = cn

  after_transaction :
      (db : Db) (r : Result (A × Db)) → After db r → Change db (commit_or_rollback db r).1
  after_transaction db (err e) c = keep
  after_transaction db (ok (a, db')) c = c

  transaction-Change : (m : Tx A) (db : Db) → Changes m → Change db (transaction m db).1
  transaction-Change m db c = after_transaction db (m db) (c.at db)

After-first : {B : Type 0} (db b : Db) (r : Result (B × Db)) → Change db b → After b r → After db r
After-first db b (err e) c d = tt
After-first db b (ok (a, db')) c d = chain c d

module _ {A B : Type 0} where
  After-bind :
      (f : A → Tx B)
      → ((a : A) → Changes (f a))
      → (db : Db) (r : Result (A × Db)) → After db r
      → After db (continue f r)
  After-bind f cf db (err e) c = tt
  After-bind f cf db (ok (a, b)) c = After-first db b (f a b) c ((cf a).at b)

  Changes-bind :
      (m : Tx A) (f : A → Tx B) → Changes m → ((a : A) → Changes (f a)) → Changes (m >>= f)
  Changes-bind m f cm cf = record { at = λ db. After-bind f cf db (m db) (cm.at db) }

Changes-update : (i : String) (f : Job → Job) → KeepsId f → KeepsKey f → Changes (update_job i f)
unfolding update_job
Changes-update i f k l = record { at = λ db. update i f k l }

Changes-write_control : (c : Control) → Changes (Dispatch.write_control c)
unfolding Dispatch.write_control
Changes-write_control c = record { at = λ db. control c }

Changes-delete_job : (i : String) → Changes (Admin.delete_job i)
unfolding Admin.delete_job
Changes-delete_job i = record { at = λ db. delete i }

Changes-insert_job : (j : Job) → Changes (insert_job j)
unfolding insert_job
Changes-insert_job j = record {
  at = λ db. elim (Bool-cases (any_where (by_id j.id) db.jobs)) [
    | inl e ↦ rw e tt
    | inr e ↦ elim (Bool-cases (any_where (by_key j.idempotency_key) db.jobs)) [
      | inl k ↦ rw (e, k) tt
      | inr k ↦ rw (e, k) (insert j e k)
    ]
  ];
}

Changes-append_log :
    (i : Option String) (level name : String) (detail : Fields) (component : Option String)
    (now : ℕ)
    → Changes (append_log i level name detail component now)
Changes-append_log i level name detail component now = record {
  at = λ db. elim (Bool-cases (log_parent_exists i db.jobs)) [
    | inl e ↦
        rw (append_log_lem i level name detail component now db e)
          (log i level name detail component now e)
    | inr e ↦ unfold append_log insert_logs in rw e tt
  ];
}

Changes-append_event :
    (i : String) (s : State) (p : ℤ) (stage message : Option String) (now : ℕ)
    → Changes (append_event i s p stage message now)
Changes-append_event i s p stage message now = record {
  at = λ db. elim (Bool-cases (any_where (by_id i) db.jobs)) [
    | inl e ↦ rw (append_event_lem i s p stage message now db e) (event i s p stage message now e)
    | inr e ↦ unfold append_event insert_event in rw e tt
  ];
}

ruleset change_rules = (
  Changes-pure, Changes-raise, Changes-read, Changes-if, Changes-bind, Changes-update,
  Changes-write_control, Changes-delete_job, Changes-insert_job, Changes-append_log,
  Changes-append_event,
)

enqueue_new-Changes : (n : Enqueue.NewJob) (now : ℕ) → Changes (Enqueue.enqueue_new n now)
unfolding Enqueue.enqueue_new
enqueue_new-Changes n now = search change_rules depth 12

enqueue_found-Changes :
    (n : Enqueue.NewJob) (now : ℕ) (o : Option Job) → Changes (Enqueue.enqueue_found n now o)
unfolding Enqueue.enqueue_existing
enqueue_found-Changes n now none = enqueue_new-Changes n now
enqueue_found-Changes n now (some j) = search change_rules

recover_each-Changes : (is : List String) (now : ℕ) → Changes (Dispatch.recover_each is now)
unfolding Dispatch.recover_each
recover_each-Changes [] now = search change_rules
recover_each-Changes (i ∷ is) now =
    Changes-bind _ _ (Changes-update i (Dispatch.recover_row now) (λ j. refl) (λ j. refl)) (λ _.
      Changes-bind _ _ (Changes-append_event i queued _ _ _ now) (λ _.
        Changes-bind _ _ (Changes-append_log _ _ _ _ _ now) (λ _. recover_each-Changes is now)))

claim_row-KeepsId : (now : ℕ) → KeepsId (Dispatch.claim_row now)
unfolding state_eq
claim_row-KeepsId now j = ground arith

claim_row-KeepsKey : (now : ℕ) → KeepsKey (Dispatch.claim_row now)
unfolding state_eq
claim_row-KeepsKey now j = ground arith

order_row-KeepsId : (n now : ℕ) → KeepsId (Admin.order_row n now)
unfolding state_eq
order_row-KeepsId n now j = ground arith

order_row-KeepsKey : (n now : ℕ) → KeepsKey (Admin.order_row n now)
unfolding state_eq
order_row-KeepsKey n now j = ground arith

claim_first-Changes : (now : ℕ) (js : List Job) → Changes (Dispatch.claim_first now js)
claim_first-Changes now [] = search change_rules
claim_first-Changes now (j ∷ js) = search (change_rules, claim_row-KeepsId, claim_row-KeepsKey)

reorder_each-Changes : (is : List String) (n now : ℕ) → Changes (Admin.reorder_each is n now)
unfolding Admin.reorder_each
reorder_each-Changes [] n now = search change_rules
reorder_each-Changes (i ∷ is) n now =
    Changes-bind _ _
      (Changes-update i (Admin.order_row n now) (order_row-KeepsId n now)
        (order_row-KeepsKey n now))
      (λ _. reorder_each-Changes is _ now)

cancel_found-Changes :
    (i : String) (ttl now : ℕ) (o : Option Job) → Changes (Finish.cancel_found i ttl now o)
cancel_found-Changes i ttl now none = search change_rules
cancel_found-Changes i ttl now (some j) =
    Changes-if _ _ _
      (Changes-bind _ _ (Changes-update i (Finish.cancel_row ttl now) (λ j. refl) (λ j. refl))
        (λ _. search change_rules depth 9))
      (Changes-read _)

delete_found-Changes :
    (i : String) (b : Bool) (o : Option Job) (now : ℕ) → Changes (Admin.delete_found i b o now)
delete_found-Changes i b none now = search change_rules
delete_found-Changes i b (some j) now = search change_rules depth 9

enqueue-Change : (n : Enqueue.NewJob) (now : ℕ) (db : Db) → Change db (Enqueue.enqueue n now db).1
unfolding Enqueue.enqueue
enqueue-Change n now db = transaction-Change _ db (
    Changes-bind (read (job_of_key n.idempotency_key)) _ (Changes-read _)
      (enqueue_found-Changes n now))

finish_row-KeepsId :
    (s : State) (e : Option JobError) (path sha : Option String) (ttl now : ℕ)
    → KeepsId (Finish.finish_row s e path sha ttl now)
finish_row-KeepsId s e path sha ttl now j = refl

finish_row-KeepsKey :
    (s : State) (e : Option JobError) (path sha : Option String) (ttl now : ℕ)
    → KeepsKey (Finish.finish_row s e path sha ttl now)
finish_row-KeepsKey s e path sha ttl now j = refl

progress_row-KeepsId :
    (p : ℤ) (stage : String) (now : ℕ) → KeepsId (Finish.progress_row p stage now)
progress_row-KeepsId p stage now j = refl

progress_row-KeepsKey :
    (p : ℤ) (stage : String) (now : ℕ) → KeepsKey (Finish.progress_row p stage now)
progress_row-KeepsKey p stage now j = refl

finish_found-Changes :
    (i : String) (s : State) (ttl : ℕ) (e : Option JobError) (path sha : Option String) (now : ℕ)
    (row : Option Job)
    → Changes (Finish.finish_found i s ttl e path sha now row)
finish_found-Changes i s ttl e path sha now row =
    search (change_rules, finish_row-KeepsId, finish_row-KeepsKey) depth 12

finish-Change :
    (i : String) (s : State) (ttl : ℕ) (e : Option JobError) (path sha : Option String) (now : ℕ)
    (db : Db)
    → Change db (Finish.finish i s ttl e path sha now db).1
unfolding Finish.finish
finish-Change i s ttl e path sha now db = transaction-Change _ db (
    Changes-bind (read (job_of i)) _ (Changes-read _) (finish_found-Changes i s ttl e path sha now))

progress_found-Changes :
    (i : String) (p : ℤ) (stage : String) (message : Option String) (now : ℕ) (row : Option Job)
    → Changes (Finish.progress_found i p stage message now row)
progress_found-Changes i p stage message now row =
    search (change_rules, progress_row-KeepsId, progress_row-KeepsKey) depth 12

progress-Change :
    (i : String) (p : ℤ) (stage : String) (message : Option String) (now : ℕ) (db : Db)
    → Change db (Finish.progress i p stage message now db).1
unfolding Finish.progress
progress-Change i p stage message now db = transaction-Change _ db (
    Changes-bind (read (job_of i)) _ (Changes-read _)
      (progress_found-Changes i p stage message now))

recover-Change : (now : ℕ) (db : Db) → Change db (Dispatch.recover now db).1
unfolding Dispatch.recover
recover-Change now db = transaction-Change _ db (
    Changes-bind (read (λ b. map (λ (j : Job). j.id) (Dispatch.jobs_in_turn running b))) _
      (Changes-read _)
      (λ ids.
        Changes-bind (Dispatch.recover_each ids now) _ (recover_each-Changes ids now)
          (λ _. Changes-pure ids)))

controls-Changes :
    (paused maintenance : Option Bool) (mode : Option String) (expected : Option ℕ) (now : ℕ)
    (c : Control)
    → Changes (Dispatch.change_control paused maintenance mode expected now c)
controls-Changes paused maintenance mode expected now c = search change_rules depth 9

set_queue_control-Change :
    (paused maintenance : Option Bool) (mode : Option String) (expected : Option ℕ) (now : ℕ)
    (db : Db)
    → Change db (Dispatch.set_queue_control paused maintenance mode expected now db).1
unfolding Dispatch.set_queue_control
set_queue_control-Change paused maintenance mode expected now db = transaction-Change _ db (
    Changes-bind (read (λ b. b.control)) _ (Changes-read _)
      (controls-Changes paused maintenance mode expected now))

log-Change :
    (i : Option String) (level name : String) (detail : Fields) (component : Option String)
    (now : ℕ) (db : Db)
    → Change db (Enqueue.log i level name detail component now db).1
unfolding Enqueue.log
log-Change i level name detail component now db =
    transaction-Change _ db (Changes-append_log i level name detail component now)

log_retried-Change :
    (new_id parent : String) (now : ℕ) (db : Db) (r : Result (Job × Bool) × Db)
    → Change db r.1
    → Change db (Enqueue.log_retried new_id parent now r).1
log_retried-Change new_id parent now db (err e, b) c = c
log_retried-Change new_id parent now db (ok (j, created), b) c =
    chain c (logged_end (Enqueue.log _ _ _ _ _ now b) (log-Change _ _ _ _ _ now b))
  where
    logged_end :
        (q : Result (Unit {0}) × Db)
        → Change b q.1
        → Change b
            (let (l, b') = q in
              let out : Result Job × Db = elim l [ err e ↦ (err e, b') | ok _ ↦ (ok j, b') ] in
              out).1
    logged_end (err e, b') d = d
    logged_end (ok a, b') d = d

retry_from-Change :
    (o : Option Job) (new_id key path : String) (now : ℕ) (db : Db)
    → Change db (Enqueue.retry_from o new_id key path now db).1
retry_from-Change none new_id key path now db = keep
retry_from-Change (some j) new_id key path now db = elim (Bool-cases (is_terminal j.state)) [
  | inl e ↦ rw e (log_retried-Change new_id j.id now db _ (enqueue-Change _ now db))
  | inr e ↦ rw e keep
]

reorder_waiting-Changes :
    (is : List String) (now : ℕ) (c : Control) (w : List String)
    → Changes (Admin.reorder_waiting is now c w)
reorder_waiting-Changes is now c w = search (change_rules, reorder_each-Changes) depth 12

reorder_current-Changes :
    (is : List String) (expected now : ℕ) (c : Control)
    → Changes (Admin.reorder_current is expected now c)
reorder_current-Changes is expected now c =
    Changes-if _ _ _ (Changes-raise _)
      (Changes-bind (read Admin.waiting_ids) _ (Changes-read _) (reorder_waiting-Changes is now c))

reorder-Change :
    (is : List String) (expected now : ℕ) (db : Db) → Change db (Admin.reorder is expected now db).1
unfolding Admin.reorder
reorder-Change is expected now db = transaction-Change _ db (
    Changes-bind (read (λ b. b.control)) _ (Changes-read _)
      (reorder_current-Changes is expected now))

claim_current-Changes : (now : ℕ) (c : Control) → Changes (Dispatch.claim_current now c)
claim_current-Changes now c = Changes-if _ _ _ (Changes-pure _) (
    Changes-bind (read (Dispatch.jobs_in_turn queued)) _ (Changes-read _) (claim_first-Changes now))

claim_next-Change : (now : ℕ) (db : Db) → Change db (Dispatch.claim_next now db).1
unfolding Dispatch.claim_next
claim_next-Change now db =
    transaction-Change _ db
      (Changes-bind (read (λ b. b.control)) _ (Changes-read _) (claim_current-Changes now))

-- Every call that writes is a chain of elementary changes.
pub apply-Change : (c : Call) (now : ℕ) (db : Db) → Change db (apply c now db)
unfolding apply
apply-Change (enqueues n) now db = enqueue-Change n now db
apply-Change (logs i level name detail component) now db =
    log-Change i level name detail component now db
apply-Change recovers now db = recover-Change now db
apply-Change (controls paused maintenance mode expected) now db =
    set_queue_control-Change paused maintenance mode expected now db
apply-Change claims now db = claim_next-Change now db
apply-Change (progresses i p stage message) now db = progress-Change i p stage message now db
apply-Change (completes i path sha ttl) now db =
    unfold Finish.complete in finish-Change i _ ttl none (some path) (some sha) now db
apply-Change (fails i e ttl) now db =
    unfold Finish.fail in finish-Change i _ ttl (some e) none none now db
apply-Change (cancels i ttl) now db =
    unfold Finish.cancel in
    transaction-Change _ db
      (Changes-bind (read (job_of i)) _ (Changes-read _) (cancel_found-Changes i ttl now))
apply-Change (reorders ids expected) now db = reorder-Change ids expected now db
apply-Change (retries i new_id key path) now db =
    unfold Enqueue.retry in retry_from-Change _ new_id key path now db
apply-Change (deletes i b) now db =
    unfold Admin.delete in
    transaction-Change _ db
      (Changes-bind (read (job_of i)) _ (Changes-read _) (λ o. delete_found-Changes i b o now))
apply-Change (cleans retention max_rows) now db = unfold Admin.cleanup_logs in prune _ _
