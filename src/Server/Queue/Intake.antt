-- ===== src/Server/Queue/Intake.antt =====
-- What `enqueue` returns on each of its branches, and the database it leaves
-- (RotoWeaveServer/server/repository.py).
use rotoweave.Base.{
  ℕ, String, ◌≡◌, refl, ◌∙◌, Bool, true, false, none, some, List, [], ◌∷◌, ◌++◌, arith, str_eq,
  str_eq_refl, eq_iff, any_where, find_where, Bool-cases, inl, inr, if◌then◌else◌,
}
use rotoweave.Base.Signed.{pos}
use rotoweave.Server.Queue.Schema.{queued, Job, Db}
use rotoweave.Server.Queue.Statements.{
  ok, err, idempotency_conflict, integrity_error, by_id, by_key, job_of, job_of_key, insert_job,
  next_order,
}
use rotoweave.Server.Queue.Enqueue.{NewJob, job_row, accepted_detail, enqueue}
use rotoweave.Server.Queue.Effects.{with_event, with_log, append_event_lem, append_log_lem}

pub find-append :
    (p : Job → Bool) (js : List Job) (j : Job)
    → find_where p (js ++ j ∷ [])
      ≡ elim (find_where p js) [ none ↦ if p j then some j else none | some x ↦ some x ]
find-append p [] j = ground arith
find-append p (x ∷ js) j = ground (arith, find-append p js j)

pub any-of-find_none :
    (p : Job → Bool) (js : List Job) → find_where p js ≡ none → any_where p js ≡ false
any-of-find_none p [] h = refl
any-of-find_none p (x ∷ js) h = ground (arith, any-of-find_none p js)

pub find-none-of-any :
    (p : Job → Bool) (js : List Job) → any_where p js ≡ false → find_where p js ≡ none
find-none-of-any p [] h = refl
find-none-of-any p (x ∷ js) h = ground (arith, find-none-of-any p js)

any-snoc :
    (i : String) (js : List Job) (j : Job) → j.id ≡ i → any_where (by_id i) (js ++ j ∷ []) ≡ true
any-snoc i [] j h = ground (arith, eq_iff j.id i)
any-snoc i (x ∷ js) j h = ground (arith, any-snoc i js j h)

abbrev pub with_new : Job → Db → Db
with_new j db = record db { jobs = db.jobs ++ j ∷ [] }

-- The database after a job is accepted.
abbrev pub accepted_db : NewJob → ℕ → Db → Db
accepted_db n now db = with_log (some n.job_id) "info" "job.accepted" (accepted_detail n) none now (
    with_event n.job_id queued (pos 0) (some "queued") (some "Job accepted.") now
      (with_new (job_row n (next_order db.jobs) now) db))

insert_job-ok :
    (j : Job) (db : Db)
    → any_where (by_id j.id) db.jobs ≡ false
    → any_where (by_key j.idempotency_key) db.jobs ≡ false
    → insert_job j db ≡ ok (tt, with_new j db)
unfolding insert_job
insert_job-ok j db h k = rw (h, k)

pub insert_job-taken :
    (j : Job) (db : Db)
    → any_where (by_id j.id) db.jobs ≡ true
    → insert_job j db ≡ err integrity_error
unfolding insert_job
insert_job-taken j db h = rw h

module _ (n : NewJob) (now : ℕ) (db : Db) where
  job_of-accepted :
      any_where (by_id n.job_id) db.jobs ≡ false
      → job_of n.job_id (accepted_db n now db) ≡ some (job_row n (next_order db.jobs) now)
  job_of-accepted h =
      find-append (by_id n.job_id) db.jobs (job_row n (next_order db.jobs) now)
      ∙ rw (find-none-of-any (by_id n.job_id) db.jobs h, str_eq_refl n.job_id)

  -- A new key under a new id: the job is accepted, behind all others.
  pub enqueue-accepted :
      job_of_key n.idempotency_key db ≡ none
      → any_where (by_id n.job_id) db.jobs ≡ false
      → enqueue n now db ≡ (ok (job_row n (next_order db.jobs) now, true), accepted_db n now db)
  unfolding enqueue
  enqueue-accepted k h =
      let j = job_row n (next_order db.jobs) now in
      let there = any-snoc n.job_id db.jobs j refl in
      rw (
        k,
        insert_job-ok j db h (any-of-find_none (by_key n.idempotency_key) db.jobs k),
        append_event_lem n.job_id queued (pos 0) (some "queued") (some "Job accepted.") now
            (with_new j db) there,
        append_log_lem (some n.job_id) "info" "job.accepted" (accepted_detail n) none now
            (with_event n.job_id queued (pos 0) (some "queued") (some "Job accepted.") now
              (with_new j db))
            there,
        job_of-accepted h,
      )

  -- The id of another job: the insertion breaks the primary key.
  pub enqueue-taken :
      job_of_key n.idempotency_key db ≡ none
      → any_where (by_id n.job_id) db.jobs ≡ true
      → enqueue n now db ≡ (err integrity_error, db)
  unfolding enqueue
  enqueue-taken k h = rw (k, insert_job-taken (job_row n (next_order db.jobs) now) db h)

  -- A key that is known.
  pub enqueue-known :
      (j : Job)
      → job_of_key n.idempotency_key db ≡ some j
      → enqueue n now db ≡ (
          if str_eq j.request_sha256 n.request_sha256
          then (ok (j, false), db)
          else (err idempotency_conflict, db))
  unfolding enqueue
  enqueue-known j k = elim (Bool-cases (str_eq j.request_sha256 n.request_sha256)) [
    | inl e ↦ rw (k, e)
    | inr e ↦ rw (k, e)
  ]
