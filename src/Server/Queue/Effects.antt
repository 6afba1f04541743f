-- ===== src/Server/Queue/Effects.antt =====
-- The statements of RotoWeaveServer/server/repository.py as functions on the database, and what each
-- does to the rows of one job.
use rotoweave.Base.{
  ℕ, ◌≤◌, String, ◌≡◌, refl, true, false, Option, none, some, List, [], ◌∷◌, ◌++◌, arith, eq_iff,
  str_eq, str_eq_refl, if◌then◌else◌, Bool-cases, inl, inr, any_where, find_where, update_where,
}
use rotoweave.Base.Signed.{ℤ}
use rotoweave.Server.Logging.{Fields, redact_fields}
use rotoweave.Server.Queue.Schema.{State, Job, Event, Db}
use rotoweave.Server.Queue.Statements.{
  ok, ◌>>=◌, by_id, same_event, job_of, next_sequence, event_row, append_event, append_log, enrich,
  component_of, log_parent_exists, insert_event, insert_logs,
}

abbrev pub with_job : String → (Job → Job) → Db → Db
with_job i f db = record db { jobs = update_where (by_id i) f db.jobs }

abbrev pub with_event : String → State → ℤ → Option String → Option String → ℕ → Db → Db
with_event i state progress stage message now db = record db {
  events =
      db.events ++ event_row i (next_sequence i db.events) state progress stage message now ∷ [];
}

abbrev pub with_log : Option String → String → String → Fields → Option String → ℕ → Db → Db
with_log i level event detail component now db =
    let safe = redact_fields (enrich i detail db) in
    record db {
      logs =
          db.logs
          ++ record { job_id = i; level = level; event = event; detail = safe; created_at = now }
            ∷ [];
      operational_logs =
          db.operational_logs
          ++ record {
            level = level;
            component = component_of component event;
            event = event;
            job_id = i;
            detail = safe;
            created_at = now;
          }
            ∷ [];
    }

-- The next number is above all that the job has.
next_sequence-fresh :
    (i : String) (es : List Event) (n : ℕ)
    → next_sequence i es ≤ n
    → any_where (same_event i n) es ≡ false
unfolding next_sequence
next_sequence-fresh i [] n h = refl
next_sequence-fresh i (e ∷ es) n h = ground (arith, next_sequence-fresh i es n)

insert_event_lem :
    (e : Event) (db : Db)
    → any_where (by_id e.job_id) db.jobs ≡ true
    → any_where (same_event e.job_id e.sequence) db.events ≡ false
    → insert_event e db ≡ ok (tt, record db { events = db.events ++ e ∷ [] })
unfolding insert_event
insert_event_lem e db h fresh = rw (h, fresh)

pub append_event_lem :
    (i : String) (state : State) (p : ℤ) (stage message : Option String) (now : ℕ) (db : Db)
    → any_where (by_id i) db.jobs ≡ true
    → append_event i state p stage message now db
      ≡ ok (next_sequence i db.events, with_event i state p stage message now db)
unfolding append_event
append_event_lem i state p stage message now db h = rw (
  insert_event_lem (event_row i (next_sequence i db.events) state p stage message now) db h
      (next_sequence-fresh i db.events (next_sequence i db.events) (omega arith)),
  ◌>>=◌,
)

pub append_log_lem :
    (i : Option String) (level event : String) (detail : Fields) (component : Option String)
    (now : ℕ) (db : Db)
    → log_parent_exists i db.jobs ≡ true
    → append_log i level event detail component now db
      ≡ ok (tt, with_log i level event detail component now db)
unfolding append_log insert_logs
append_log_lem i level event detail component now db h = ground arith

any-of-find :
    (i : String) (js : List Job) {j : Job}
    → find_where (by_id i) js ≡ some j
    → any_where (by_id i) js ≡ true
any-of-find i [] {j} h = cc
any-of-find i (x ∷ js) {j} h = ground (arith, any-of-find i js {j = j})

pub job_of-exists :
    (i : String) (db : Db) {j : Job} → job_of i db ≡ some j → any_where (by_id i) db.jobs ≡ true
job_of-exists i db h = any-of-find i db.jobs h

abbrev pub map_option {ℓ κ} : {A : Type ℓ} {B : Type κ} → (A → B) → Option A → Option B
map_option f none = none
map_option f (some a) = some (f a)

-- An update of the rows of one job keeps their ids.
abbrev pub KeepsId : (Job → Job) → Type 0
KeepsId f = (j : Job) → (f j).id ≡ j.id

pub any-update :
    (f : Job → Job)
    → KeepsId f
    → (i k : String) (js : List Job)
    → any_where (by_id k) (update_where (by_id i) f js) ≡ any_where (by_id k) js
any-update f keeps i k [] = refl
any-update f keeps i k (x ∷ js) = elim (Bool-cases (str_eq x.id i)) [
  | inl e ↦ rw (e, keeps x, any-update f keeps i k js)
  | inr e ↦ rw (e, any-update f keeps i k js)
]

find-update :
    (f : Job → Job)
    → KeepsId f
    → (i k : String) (js : List Job)
    → find_where (by_id k) (update_where (by_id i) f js)
      ≡ (if str_eq i k then map_option f (find_where (by_id k) js) else find_where (by_id k) js)
find-update f keeps i k [] = ground arith
find-update f keeps i k (x ∷ js) =
    ground (arith, keeps x, find-update f keeps i k js, eq_iff x.id i, eq_iff x.id k, eq_iff i k)

pub job_of-with_job :
    (f : Job → Job)
    → KeepsId f
    → (i k : String) (db : Db)
    → job_of k (with_job i f db) ≡ (if str_eq i k then map_option f (job_of k db) else job_of k db)
job_of-with_job f keeps i k db = find-update f keeps i k db.jobs

pub job_of-with_job_self :
    (f : Job → Job)
    → KeepsId f
    → (i : String) (db : Db) {j : Job} → job_of i db ≡ some j
    → job_of i (with_job i f db) ≡ some (f j)
job_of-with_job_self f keeps i db h = rw (job_of-with_job f keeps i i db, str_eq_refl i, h)

pub job_of-id : (i : String) (db : Db) {j : Job} → job_of i db ≡ some j → j.id ≡ i
job_of-id i db {j} h = go db.jobs h
  where
    go : (js : List Job) → find_where (by_id i) js ≡ some j → j.id ≡ i
    go [] e = cc
    go (x ∷ js) e = ground (arith, eq_iff x.id i, go js)
