-- ===== src/Server/Service/Submit.antt =====
-- `RemoteService.submit` (RotoWeaveServer/server/service.py): the guards of a submission and what it
-- queues. What the model center knows of the profile, the preflight and the check of the archive are
-- arguments; files are left out. No other call comes in between.
pub mod Guards
mod Tests
use rotoweave.Base.{
  ℕ, String, Bool, true, false, not, ◌&&◌, ◌||◌, Option, none, some, List, [], ◌∷◌, str_eq,
  if◌then◌else◌, ◌==◌, leb, length,
}
use rotoweave.Base.Text.{codes}
use rotoweave.Server.Logging.{Json, Fields, field, end}
use rotoweave.Server.Queue.Schema.{Job, Control, Db}
use rotoweave.Server.Queue.Statements.{
  Error, idempotency_conflict, Result, ok, err, job_of_key, json_text,
}
use rotoweave.Server.Queue.Enqueue.{NewJob, enqueue, log}

abbrev pub is_hex_code : ℕ → Bool
is_hex_code c = leb b'0' c && leb c b'9' || leb b'a' c && leb c b'f'

abbrev pub all_hex : List ℕ → Bool
all_hex [] = true
all_hex (c ∷ cs) = is_hex_code c && all_hex cs

-- `[0-9a-f]{64}`
abbrev pub is_sha256 : String → Bool
is_sha256 s = length (codes s) == 64 && all_hex (codes s)

-- `memoryPlan` of the preflight.
pub record Preflight : Type 0 where
  pub memory_mode : Json
  pub headroom : Json

-- The processor has no preflight, or its preflight raises, or it returns.
pub data Checked : Type 0 where
  unchecked check_raised : Checked
  checked : Preflight → Checked

pub record Conditions : Type 0 where
  pub active : Option String
  pub is_ready : Bool
  pub preflight : Checked
  pub archive_is_sound : Bool

-- The RemoteProcessingErrors of `submit`.
pub data Refusal : Type 0 where
  not_accepting bad_key profile_unavailable no_configuration preflight_failed bad_archive : Refusal

pub data Submitted : Type 0 where
  refused : Refusal → Submitted
  raised : Error → Submitted
  returned : Job → Bool → Submitted

abbrev pub is_closed : Control → Bool
is_closed c = c.maintenance || str_eq c.mode "draining"

abbrev pub submit_known : NewJob → Job → Db → Submitted × Db
submit_known n existing db =
    if str_eq existing.request_sha256 n.request_sha256
    then (returned existing false, db)
    else (raised idempotency_conflict, db)

abbrev pub plan_detail : Option String → Preflight → Fields
plan_detail profile p =
    field "profile" (json_text profile)
      (field "memoryMode" p.memory_mode (field "headroomMiB" p.headroom end))

abbrev pub submitted_of : Result (Job × Bool) × Db → Submitted × Db
submitted_of (ok (job, created), db) = (returned job created, db)
submitted_of (err e, db) = (raised e, db)

abbrev pub submit_archive : Conditions → NewJob → ℕ → Db → Submitted × Db
submit_archive c n now db =
    if c.archive_is_sound
    then submitted_of (enqueue (record n { model_configuration_digest = c.active }) now db)
    else (refused bad_archive, db)

abbrev pub submit_checked : Conditions → NewJob → ℕ → Checked → Db → Submitted × Db
submit_checked c n now unchecked db = submit_archive c n now db
submit_checked c n now check_raised db = (refused preflight_failed, db)
submit_checked c n now (checked p) db =
    submit_archive c n now
      (log none "info" "memory.plan_selected" (plan_detail n.quality_profile p) (some "worker") now
        db).1

abbrev pub has_preflight : Checked → Bool
has_preflight unchecked = false
has_preflight check_raised = true
has_preflight (checked p) = true

-- The refusal that the model center's state calls for.
abbrev pub blocked_in : Conditions → Option String → Option Refusal
blocked_in c (some digest) = if c.is_ready then none else some profile_unavailable
blocked_in c none = if has_preflight c.preflight then some no_configuration else none

abbrev pub blocked_by : Conditions → Option Refusal
blocked_by c = blocked_in c c.active

abbrev pub submit_unblocked : Conditions → NewJob → ℕ → Option Refusal → Db → Submitted × Db
submit_unblocked c n now (some r) db = (refused r, db)
submit_unblocked c n now none db = submit_checked c n now c.preflight db

abbrev pub submit_found : Conditions → NewJob → ℕ → Option Job → Db → Submitted × Db
submit_found c n now (some existing) db = submit_known n existing db
submit_found c n now none db = submit_unblocked c n now (blocked_by c) db

unfoldable pub submit : Conditions → NewJob → ℕ → Db → Submitted × Db
unfolding enqueue log
submit c n now db =
    if is_closed db.control
    then (refused not_accepting, db)
    else if not (is_sha256 n.idempotency_key)
    then (refused bad_key, db)
    else submit_found c n now (job_of_key n.idempotency_key db) db
