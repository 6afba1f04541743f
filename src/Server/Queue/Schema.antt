-- ===== src/Server/Queue/Schema.antt =====
-- The tables of the queue database (SCHEMA in RotoWeaveServer/server/repository.py) that the job queue
-- reads and writes. A table is the list of its rows in insertion order. A time is a number that grows
-- with the clock, `progress` is counted in millionths, and a JSON column holds the value it encodes.
use rotoweave.Base.{ℕ, String, Bool, true, false, Option, List}
use rotoweave.Base.Signed.{ℤ, pos}
use rotoweave.Server.Logging.{Fields}

-- CHECK(state IN ('queued','running','completed','failed','cancelled'))
pub data State : Type 0 where
  queued running completed failed cancelled : State

unfoldable pub state_eq : State → State → Bool
state_eq queued queued = true
state_eq running running = true
state_eq completed completed = true
state_eq failed failed = true
state_eq cancelled cancelled = true
state_eq _ _ = false

-- `state in TERMINAL_STATES`
unfoldable pub is_terminal : State → Bool
is_terminal queued = false
is_terminal running = false
is_terminal _ = true

abbrev pub state_text : State → String
state_text queued = "queued"
state_text running = "running"
state_text completed = "completed"
state_text failed = "failed"
state_text cancelled = "cancelled"

-- The error object that the service stores with a failed job.
pub record JobError : Type 0 where
  pub code : String
  pub message : String
  pub retryable : Bool
  pub detail : Fields

pub record Job : Type 0 where
  pub id : String
  pub idempotency_key : String
  pub request_sha256 : String
  pub submission : Fields
  pub state : State
  pub progress : ℤ
  pub stage : Option String
  pub error : Option JobError
  pub input_path : String
  pub result_path : Option String
  pub result_sha256 : Option String
  pub attempt : ℕ
  pub cancel_requested : Bool
  pub created_at : ℕ
  pub updated_at : ℕ
  pub started_at : Option ℕ
  pub finished_at : Option ℕ
  pub expires_at : Option ℕ
  pub queue_order : ℕ
  pub parent_job_id : Option String
  pub model_configuration_digest : Option String
  pub quality_profile : Option String

pub record Payload : Type 0 where
  pub protocol_version : ℕ
  pub job_id : String
  pub sequence : ℕ
  pub state : State
  pub progress : ℤ
  pub stage : Option String
  pub message : Option String

pub record Event : Type 0 where
  pub job_id : String
  pub sequence : ℕ
  pub payload : Payload
  pub created_at : ℕ

-- A row of `logs`; its AUTOINCREMENT id is its place in the list.
pub record Log : Type 0 where
  pub job_id : Option String
  pub level : String
  pub event : String
  pub detail : Fields
  pub created_at : ℕ

-- A row of `operational_logs`, in the order of their AUTOINCREMENT ids.
pub record OperationalLog : Type 0 where
  pub level : String
  pub component : String
  pub event : String
  pub job_id : Option String
  pub detail : Fields
  pub created_at : ℕ

-- The only row of `queue_control`.
pub record Control : Type 0 where
  pub paused : Bool
  pub maintenance : Bool
  pub mode : String
  pub revision : ℕ
  pub updated_at : ℕ

pub record Db : Type 0 where
  pub jobs : List Job
  pub events : List Event
  pub logs : List Log
  pub operational_logs : List OperationalLog
  pub control : Control

-- 1.0
abbrev pub whole : ℤ
whole = pos 1_000_000
