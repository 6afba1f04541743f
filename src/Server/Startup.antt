-- ===== src/Server/Startup.antt =====
-- `StartupTracker` of RotoWeaveServer/server/startup.py: the stages of the server's start. The labels
-- for display are left out, and a stage's identifier keeps its text.
pub mod Progress
pub mod Tests
use rotoweave.Base.{
  ℕ, String, Bool, true, false, ◌&&◌, not, Option, none, some, List, [], ◌∷◌, map, if◌then◌else◌,
  is_some, str_eq, length, count_where, any_where,
}
use rotoweave.Base.Signed.{ℤ, pos, max_ℤ}

pub data StageState : Type 0 where
  pending running passed warning failed : StageState

pub record Stage : Type 0 where
  pub id : String
  pub state : StageState
  pub started_at : Option ℕ
  pub completed_at : Option ℕ
  pub detail : Option String
  pub error : Option String
  pub files_verified : ℤ
  pub files_total : ℤ

pub record Tracker : Type 0 where
  pub started_at : ℕ
  pub completed_at : Option ℕ
  pub stages : List Stage

abbrev pub stage_ids : List String
stage_ids =
    "configuration" ∷ "storage" ∷ "network_boundary" ∷ "model_catalog" ∷ "model_verification"
    ∷ "runtime" ∷ "self_test" ∷ "ready" ∷ []

abbrev pub pending_stage : String → Stage
pending_stage i = record {
  id = i;
  state = pending;
  started_at = none;
  completed_at = none;
  detail = none;
  error = none;
  files_verified = pos 0;
  files_total = pos 0;
}

-- `StartupTracker()`
abbrev pub tracker : ℕ → Tracker
tracker now = record { started_at = now; completed_at = none; stages = map pending_stage stage_ids }

-- state in {"running", "passed", "warning", "failed"}
unfoldable pub starts : StageState → Bool
starts pending = false
starts _ = true

-- state in {"passed", "warning", "failed"}
unfoldable pub ends : StageState → Bool
ends pending = false
ends running = false
ends _ = true

-- state in {"passed", "warning"}
unfoldable pub succeeds : StageState → Bool
succeeds passed = true
succeeds warning = true
succeeds _ = false

-- The arguments of `update`.
pub record Update : Type 0 where
  pub stage_id : String
  pub state : StageState
  pub detail : Option String
  pub error : Option String
  pub files_verified : Option ℤ
  pub files_total : Option ℤ

abbrev pub counted : Option ℤ → ℤ → ℤ
counted none old = old
counted (some n) old = max_ℤ (pos 0) n

abbrev pub stage_row : Update → ℕ → Stage → Stage
stage_row u now s = record s {
  started_at = if not (is_some s.started_at) && starts u.state then some now else s.started_at;
  completed_at = if ends u.state then some now else s.completed_at;
  state = u.state;
  detail = u.detail;
  error = u.error;
  files_verified = counted u.files_verified s.files_verified;
  files_total = counted u.files_total s.files_total;
}

abbrev pub stage_before : Stage → Option (List Stage) → Option (List Stage)
stage_before s none = none
stage_before s (some ss) = some (s ∷ ss)

-- The first stage with the identifier; none where `next` raises StopIteration.
unfoldable pub update_stage : Update → ℕ → List Stage → Option (List Stage)
update_stage u now [] = none
update_stage u now (s ∷ ss) =
    let rest = update_stage u now ss in
    if str_eq s.id u.stage_id then some (stage_row u now s ∷ ss) else stage_before s rest

-- `self.completed_at` after the update.
abbrev pub with_stages : Update → ℕ → Tracker → List Stage → Tracker
with_stages u now t ss = record t {
  stages = ss;
  completed_at = if str_eq u.stage_id "ready" && succeeds u.state then some now else t.completed_at;
}

abbrev pub updated : Update → ℕ → Tracker → Option (List Stage) → Option Tracker
updated u now t none = none
updated u now t (some ss) = some (with_stages u now t ss)

unfoldable pub update : Update → ℕ → Tracker → Option Tracker
unfolding update_stage
update u now t = updated u now t (update_stage u now t.stages)

unfoldable pub is_failed : Stage → Bool
is_failed s = elim s.state [ failed ↦ true | _ ↦ false ]

-- `snapshot()["state"]`
abbrev pub snapshot_state : Tracker → String
snapshot_state t =
    if any_where is_failed t.stages
    then "failed"
    else if is_some t.completed_at
    then "ready"
    else "starting"

-- `snapshot()["completedStages"]` and `snapshot()["totalStages"]`
abbrev pub completed_stages : Tracker → ℕ
completed_stages t = count_where (λ (s : Stage). succeeds s.state) t.stages

abbrev pub total_stages : Tracker → ℕ
total_stages t = length t.stages
