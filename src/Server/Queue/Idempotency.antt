-- ===== src/Server/Queue/Idempotency.antt =====
-- A request sent again under its Idempotency-Key (`enqueue` in RotoWeaveServer/server/repository.py).
use rotoweave.Base.{
  ℕ, ◌≡◌, Bool, true, false, none, some, str_eq, str_eq_refl, any_where, if◌then◌else◌,
}
use rotoweave.Server.Queue.Schema.{Job, Db}
use rotoweave.Server.Queue.Statements.{
  Result, ok, err, idempotency_conflict, integrity_error, by_id, by_key, job_of_key, next_order,
}
use rotoweave.Server.Queue.Enqueue.{NewJob, job_row, enqueue}
use rotoweave.Server.Queue.Intake.{
  accepted_db, find-append, enqueue-accepted, enqueue-taken, enqueue-known,
}

-- What a second request finds for a key that `j` has.
abbrev pub replayed : Job → NewJob → Db → Result (Job × Bool) × Db
replayed j n db =
    if str_eq j.request_sha256 n.request_sha256
    then (ok (j, false), db)
    else (err idempotency_conflict, db)

-- Once a request is accepted under a new key, every request with that key finds its job: the same
-- request body gets the job back, marked as not created, another body gets the conflict, and neither
-- writes anything.
pub enqueue-enqueue :
    (n m : NewJob) (now later : ℕ) (db : Db)
    → job_of_key n.idempotency_key db ≡ none
    → any_where (by_id n.job_id) db.jobs ≡ false
    → m.idempotency_key ≡ n.idempotency_key
    → enqueue m later (enqueue n now db).1
      ≡ replayed (job_row n (next_order db.jobs) now) m (enqueue n now db).1
enqueue-enqueue n m now later db k new same_key =
    let j = job_row n (next_order db.jobs) now in
    let known : job_of_key m.idempotency_key (accepted_db n now db) ≡ some j = rw (
      same_key,
      find-append (by_key n.idempotency_key) db.jobs j,
      k,
      str_eq_refl n.idempotency_key,
    ) in
    rw (enqueue-accepted n now db k new) (enqueue-known m later (accepted_db n now db) j known)

-- The outcomes of `enqueue`: it accepts exactly where neither the key nor the id is known; a known key
-- is answered from its job alone; the id of another job is refused. Only the first writes.
pub enqueue_cases :
    (n : NewJob) (now : ℕ) (db : Db)
    → ((j : Job) → job_of_key n.idempotency_key db ≡ some j → enqueue n now db ≡ replayed j n db)
      × (job_of_key n.idempotency_key db ≡ none
          → any_where (by_id n.job_id) db.jobs ≡ true
          → enqueue n now db ≡ (err integrity_error, db))
      × (job_of_key n.idempotency_key db ≡ none
          → any_where (by_id n.job_id) db.jobs ≡ false
          → enqueue n now db
            ≡ (ok (job_row n (next_order db.jobs) now, true), accepted_db n now db))
enqueue_cases n now db = (enqueue-known n now db, enqueue-taken n now db, enqueue-accepted n now db)
