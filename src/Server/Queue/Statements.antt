-- ===== src/Server/Queue/Statements.antt =====
-- Transactions and SQL statements of RotoWeaveServer/server/repository.py. A transaction that raises is
-- rolled back, so it returns no database; what is inserted is held to the keys of the schema.
use Prim.Native.Char.{code}
use rotoweave.Base.{
  ℕ, suc, max, String, Bool, true, false, ◌&&◌, ◌||◌, Option, none, some, List, [], ◌∷◌, ◌++◌,
  str_eq, ◌==◌, if◌then◌else◌, any_where, find_where, update_where,
}
use rotoweave.Base.Signed.{ℤ, pos, min_ℤ, max_ℤ}
use rotoweave.Server.Logging.{Json, Fields, null, text, redact_fields, set_default}
use rotoweave.Server.Queue.Schema.{State, Job, Event, Db, whole}

pub data Error : Type 0 where
  idempotency_conflict queue_revision_conflict invalid_queue_operation integrity_error : Error

pub data Result {ℓ} (A : Type ℓ) : Type ℓ where
  ok : A → Result A
  err : Error → Result A

-- The statements of a transaction, up to the first that raises.
abbrev pub Tx : Type 0 → Type 0
Tx A = Db → Result (A × Db)

abbrev pub continue : {A B : Type 0} → (A → Tx B) → Result (A × Db) → Result (B × Db)
continue f (err e) = err e
continue f (ok (a, db)) = f a db

infixl 5 ◌>>=◌ ◌>>◌
abbrev pub ◌>>=◌ : {A B : Type 0} → Tx A → (A → Tx B) → Tx B
◌>>=◌ m f db = continue f (m db)

abbrev pub ◌>>◌ : {B : Type 0} → Tx (Unit {0}) → Tx B → Tx B
m >> k = m >>= λ _. k

abbrev pub pure : {A : Type 0} → A → Tx A
pure a db = ok (a, db)

abbrev pub raise : {A : Type 0} → Error → Tx A
raise e db = err e

abbrev pub read : {A : Type 0} → (Db → A) → Tx A
read f db = ok (f db, db)

-- BEGIN IMMEDIATE … COMMIT, or ROLLBACK where the body raises.
abbrev pub commit_or_rollback : {A : Type 0} → Db → Result (A × Db) → Result A × Db
commit_or_rollback db (err e) = (err e, db)
commit_or_rollback db (ok (a, db')) = (ok a, db')

abbrev pub transaction : {A : Type 0} → Tx A → Db → Result A × Db
transaction m db = commit_or_rollback db (m db)

-- WHERE id=?
abbrev pub by_id : String → Job → Bool
by_id i j = str_eq j.id i

abbrev pub by_key : String → Job → Bool
by_key k j = str_eq j.idempotency_key k

-- SELECT * FROM jobs WHERE id=?
abbrev pub job_of : String → Db → Option Job
job_of i db = find_where (by_id i) db.jobs

abbrev pub job_of_key : String → Db → Option Job
job_of_key k db = find_where (by_key k) db.jobs

-- UPDATE jobs SET … WHERE id=?
unfoldable pub update_job : String → (Job → Job) → Tx (Unit {0})
update_job i f db = ok (tt, record db { jobs = update_where (by_id i) f db.jobs })

-- INSERT INTO jobs, under PRIMARY KEY id and UNIQUE idempotency_key.
unfoldable pub insert_job : Job → Tx (Unit {0})
insert_job j db =
    if any_where (by_id j.id) db.jobs || any_where (by_key j.idempotency_key) db.jobs
    then err integrity_error
    else ok (tt, record db { jobs = db.jobs ++ j ∷ [] })

-- COALESCE(MAX(queue_order),0)+1
unfoldable pub next_order : List Job → ℕ
next_order [] = 1
next_order (j ∷ js) = max (suc j.queue_order) (next_order js)

-- COALESCE(MAX(sequence),-1)+1 … WHERE job_id=?
unfoldable pub next_sequence : String → List Event → ℕ
next_sequence i [] = 0
next_sequence i (e ∷ es) =
    let rest = next_sequence i es in if str_eq e.job_id i then max (suc e.sequence) rest else rest

abbrev pub same_event : String → ℕ → Event → Bool
same_event i n e = str_eq e.job_id i && e.sequence == n

-- INSERT INTO events, under PRIMARY KEY(job_id, sequence) and job_id REFERENCES jobs(id).
unfoldable pub insert_event : Event → Tx (Unit {0})
insert_event e db =
    if any_where (by_id e.job_id) db.jobs
    then (if any_where (same_event e.job_id e.sequence) db.events
        then err integrity_error
        else ok (tt, record db { events = db.events ++ e ∷ [] }))
    else err integrity_error

-- max(0.0, min(1.0, progress))
unfoldable pub clamp_progress : ℤ → ℤ → ℤ
clamp_progress top p = max_ℤ (pos 0) (min_ℤ top p)

abbrev pub event_row : String → ℕ → State → ℤ → Option String → Option String → ℕ → Event
event_row i n state progress stage message now = record {
  job_id = i;
  sequence = n;
  payload = record {
    protocol_version = 1;
    job_id = i;
    sequence = n;
    state = state;
    progress = clamp_progress whole progress;
    stage = stage;
    message = message;
  };
  created_at = now;
}

-- `_append_event`
unfoldable pub append_event : String → State → ℤ → Option String → Option String → ℕ → Tx ℕ
append_event i state progress stage message now = do
  sequence ← read (λ db. next_sequence i db.events)
  insert_event (event_row i sequence state progress stage message now)
  pure sequence

-- `if job_id:` is false of None and of the empty text.
abbrev pub truthy : Option String → Bool
truthy none = false
truthy (some s) = if str_eq s "" then false else true

abbrev pub json_text : Option String → Json
json_text none = null
json_text (some s) = text s

abbrev pub enrich_with : Fields → Option Job → Fields
enrich_with detail none = detail
enrich_with detail (some j) =
    set_default "configurationDigest" (json_text j.model_configuration_digest)
      (set_default "profile" (json_text j.quality_profile) detail)

unfoldable pub enrich : Option String → Fields → Db → Fields
enrich none detail db = detail
enrich (some i) detail db = if str_eq i "" then detail else enrich_with detail (job_of i db)

abbrev pub log_parent_exists : Option String → List Job → Bool
log_parent_exists none js = true
log_parent_exists (some i) js = any_where (by_id i) js

-- The two INSERTs of a log row; `logs` has job_id REFERENCES jobs(id), NULL included.
unfoldable pub insert_logs : Option String → String → String → String → Fields → ℕ → Tx (Unit {0})
insert_logs i level component event detail now db =
    if log_parent_exists i db.jobs
    then ok (
      tt,
      record db {
        logs =
            db.logs
            ++ record {
              job_id = i;
              level = level;
              event = event;
              detail = detail;
              created_at = now;
            }
              ∷ [];
        operational_logs =
            db.operational_logs
            ++ record {
              level = level;
              component = component;
              event = event;
              job_id = i;
              detail = detail;
              created_at = now;
            }
              ∷ [];
      },
    )
    else err integrity_error

-- `event.partition(".")[0]`
unfoldable pub before_dot : String → String
before_dot String.[] = String.[]
before_dot (String.◌∷◌ c s) =
    let rest = before_dot s in if code c == b'.' then String.[] else String.◌∷◌ c rest

abbrev event_component : String → String
event_component event = if str_eq (before_dot event) "" then "service" else before_dot event

-- `component or event.partition(".")[0] or "service"`
unfoldable pub component_of : Option String → String → String
unfolding before_dot
component_of none event = event_component event
component_of (some c) event = if str_eq c "" then event_component event else c

-- `_append_log`
unfoldable pub append_log :
    Option String → String → String → Fields → Option String → ℕ → Tx (Unit {0})
append_log i level event detail component now = do
  safe ← read (λ db. redact_fields (enrich i detail db))
  insert_logs i level (component_of component event) event safe now
