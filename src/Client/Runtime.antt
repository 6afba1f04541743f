-- ===== src/Client/Runtime.antt =====
-- The `jobs` table of a workspace's runtime database and the methods of `RuntimeRepository`
-- (RotoWeaveClient/backend/app/runtime_repository.py). A table is the list of its rows in insertion
-- order, a method takes the repository's workspace and the clock's reading, and a JSON column holds
-- the value that it encodes.
pub mod Runs
pub mod Isolation
pub mod Keys
pub mod Recovery
mod Tests
use rotoweave.Base.{
  ℕ, ◌+◌, ◌-◌, String, Bool, true, false, ◌&&◌, ◌||◌, Option, none, some, List, [], ◌∷◌, ◌++◌, map,
  leb, if◌then◌else◌, or_else, is_some, str_eq, length, take, drop, find_where, select_where,
  update_where, delete_where, any_where,
}
use rotoweave.Base.Order.{sort_by}
use rotoweave.Base.Signed.{ℤ, pos}
use rotoweave.Server.Logging.{Fields, end}

-- The texts of the column `status`.
pub data Status : Type 0 where
  queued running cancelling completed failed cancelled : Status

unfoldable pub status_eq : Status → Status → Bool
status_eq queued queued = true
status_eq running running = true
status_eq cancelling cancelling = true
status_eq completed completed = true
status_eq failed failed = true
status_eq cancelled cancelled = true
status_eq _ _ = false

pub record Line : Type 0 where
  pub time : ℕ
  pub level : String
  pub message : String

pub record Job : Type 0 where
  pub id : String
  pub workspace_id : String
  pub project_id : String
  pub job_type : String
  pub source_id : Option String
  pub character_id : Option String
  pub status : Status
  pub stage : String
  pub progress : ℤ
  pub attempt : ℕ
  pub cache_key : Option String
  pub request : Fields
  pub result : Fields
  pub logs : List Line
  pub error : Option String
  pub created_at : ℕ
  pub updated_at : ℕ
  pub started_at : Option ℕ
  pub finished_at : Option ℕ

abbrev pub in_workspace : String → Job → Bool
in_workspace w j = str_eq j.workspace_id w

abbrev pub has_id : String → Job → Bool
has_id i j = str_eq j.id i

-- WHERE id=? AND workspace_id=?
abbrev pub owned : String → String → Job → Bool
owned w i j = has_id i j && in_workspace w j

abbrev pub get_job : String → String → List Job → Option Job
get_job w i db = find_where (owned w i) db

-- What `create_job` is called with.
pub record NewJob : Type 0 where
  pub project_id : String
  pub job_type : String
  pub source_id : Option String
  pub request : Fields
  pub cache_key : Option String
  pub character_id : Option String

abbrev pub job_row : String → String → NewJob → ℕ → Job
job_row w i n now = record {
  id = i;
  workspace_id = w;
  project_id = n.project_id;
  job_type = n.job_type;
  source_id = n.source_id;
  character_id = n.character_id;
  status = queued;
  stage = "queued";
  progress = pos 0;
  attempt = 1;
  cache_key = n.cache_key;
  request = n.request;
  result = end;
  logs = [];
  error = none;
  created_at = now;
  updated_at = now;
  started_at = none;
  finished_at = none;
}

-- `create_job` under the new identifier `i`; an identifier in use raises, as a PRIMARY KEY does.
unfoldable pub create_job : String → String → NewJob → ℕ → List Job → Option Job × List Job
create_job w i n now db =
    if any_where (has_id i) db
    then (none, db)
    else (let db' = db ++ (job_row w i n now ∷ []) in (get_job w i db', db'))

abbrev pub of_character : String → Job → Bool
of_character c j = elim j.character_id [ none ↦ false | some k ↦ str_eq k c ]

-- `if character_id:` is false of None and of the empty text.
abbrev pub listed : String → Option String → Job → Bool
listed w none j = in_workspace w j
listed w (some c) j = in_workspace w j && (str_eq c "" || of_character c j)

unfoldable pub list_jobs : String → ℕ → Option String → List Job → List Job
list_jobs w limit character db =
    take limit (
      sort_by (λ (a b : Job). leb b.created_at a.created_at) (select_where (listed w character) db))

-- The keyword arguments of `update_job`, each one absent or a value.
pub record Changes : Type 0 where
  pub status : Option Status
  pub stage : Option String
  pub progress : Option ℤ
  pub attempt : Option ℕ
  pub result : Option Fields
  pub error : Option (Option String)
  pub started_at : Option (Option ℕ)
  pub finished_at : Option (Option ℕ)

unfoldable pub changes_any : Changes → Bool
changes_any c =
    is_some c.status
    || is_some c.stage
    || is_some c.progress
    || is_some c.attempt
    || is_some c.result
    || is_some c.error
    || is_some c.started_at
    || is_some c.finished_at

abbrev pub changed : Changes → ℕ → Job → Job
changed c now j = record j {
  status = or_else c.status j.status;
  stage = or_else c.stage j.stage;
  progress = or_else c.progress j.progress;
  attempt = or_else c.attempt j.attempt;
  result = or_else c.result j.result;
  error = or_else c.error j.error;
  started_at = or_else c.started_at j.started_at;
  finished_at = or_else c.finished_at j.finished_at;
  updated_at = now;
}

unfoldable pub update_job : String → String → Changes → ℕ → List Job → Option Job × List Job
update_job w i c now db =
    if changes_any c
    then (let db' = update_where (owned w i) (changed c now) db in (get_job w i db', db'))
    else (get_job w i db, db)

-- `logs[-n:]`
abbrev pub last {ℓ} : {A : Type ℓ} → ℕ → List A → List A
last n xs = drop (length xs - n) xs

abbrev pub log_row : List Line → ℕ → Job → Job
log_row lines now j = record j { logs = lines; updated_at = now }

abbrev pub append_found : String → String → Line → Option Job → List Job → List Job
append_found w i line none db = db
append_found w i line (some row) db =
    update_where (owned w i) (log_row (last 500 (row.logs ++ (line ∷ []))) line.time) db

unfoldable pub append_job_log : String → String → String → String → ℕ → List Job → List Job
append_job_log w i level message now db =
    append_found w i (record { time = now; level = level; message = message }) (get_job w i db) db

abbrev pub cancelled_row : ℕ → Job → Job
cancelled_row now j = record j {
  status = cancelled;
  stage = "cancelled";
  error = none;
  finished_at = some now;
  updated_at = now;
}

abbrev pub cancelling_row : ℕ → Job → Job
cancelling_row now j = record j { status = cancelling; stage = "cancelling"; updated_at = now }

abbrev pub cancel_status : String → String → ℕ → Status → List Job → List Job
cancel_status w i now queued db = update_where (owned w i) (cancelled_row now) db
cancel_status w i now running db = update_where (owned w i) (cancelling_row now) db
cancel_status w i now _ db = db

abbrev pub cancel_found : String → String → ℕ → Option Job → List Job → Option Job × List Job
cancel_found w i now none db = (none, db)
cancel_found w i now (some row) db =
    let db' = cancel_status w i now row.status db in (get_job w i db', db')

unfoldable pub request_cancel : String → String → ℕ → List Job → Option Job × List Job
request_cancel w i now db = cancel_found w i now (get_job w i db) db

abbrev pub given_up_row : ℕ → Job → Job
given_up_row now j = record j {
  status = cancelled;
  stage = "cancelled";
  finished_at = some now;
  updated_at = now;
}

abbrev pub in_status : String → Status → Job → Bool
in_status w s j = in_workspace w j && status_eq j.status s

-- status IN ('queued','running')
unfoldable pub is_unfinished : Job → Bool
is_unfinished j = status_eq j.status queued || status_eq j.status running

abbrev pub recovered_row : ℕ → Job → Job
recovered_row now j = record j {
  status = queued;
  stage = "queued";
  progress = pos 0;
  attempt = j.attempt + 1;
  started_at = none;
  finished_at = none;
  updated_at = now;
}

unfoldable pub recover_each : String → List String → ℕ → List Job → List Job
recover_each w [] now db = db
recover_each w (i ∷ is) now db =
    recover_each w is now (update_where (owned w i) (recovered_row now) db)

abbrev pub unfinished_ids : String → List Job → List String
unfinished_ids w db =
    map (λ (j : Job). j.id)
      (sort_by (λ (a b : Job). leb a.created_at b.created_at)
        (select_where (λ j. in_workspace w j && is_unfinished j) db))

unfoldable pub recover_jobs : String → ℕ → List Job → List String × List Job
unfolding recover_each
recover_jobs w now db =
    let db' = update_where (in_status w cancelling) (given_up_row now) db in
    let ids = unfinished_ids w db' in (ids, recover_each w ids now db')

unfoldable pub delete_jobs_for_character : String → String → List Job → List Job
delete_jobs_for_character w c db = delete_where (λ j. in_workspace w j && of_character c j) db
