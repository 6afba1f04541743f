-- ===== src/Server/Service/Cleanup.antt =====
-- `RemoteService.cleanup_expired` (RotoWeaveServer/server/service.py). Whether a job's directory lies in
-- the directory of jobs is an argument, as is its path; the removal of files is left out.
pub mod Removed
mod Tests
use rotoweave.Base.{ℕ, ◌+◌, String, Bool, true, false, none, some, List, [], ◌∷◌, map}
use rotoweave.Server.Logging.{field, end, text}
use rotoweave.Server.Queue.Schema.{Job, Db}
use rotoweave.Server.Queue.Statements.{Result, ok, err}
use rotoweave.Server.Queue.Enqueue.{log}
use rotoweave.Server.Queue.Admin.{expired, delete, Cleanup, cleanup_logs}

-- Where a job's directory is.
pub record Place : Type 0 where
  pub is_inside : Bool
  pub path : String

pub record Cleaned : Type 0 where
  pub removed : ℕ
  pub log_rows_removed : ℕ
  pub db : Db

abbrev pub clean_at : Place → String → ℕ → Db → Db
clean_at p i now db = elim p.is_inside [
  | true ↦ (delete i false now db).1
  | false ↦
      (log (some i) "error" "cleanup.unsafe_path" (field "path" (text p.path) end) none now db).1
]

abbrev pub count_inside : (String → Place) → List String → ℕ
count_inside place [] = 0
count_inside place (i ∷ is) =
    (elim (place i).is_inside [ true ↦ 1 | false ↦ 0 ]) + count_inside place is

-- The loop over the expired jobs.
unfoldable pub clean_each : (String → Place) → List String → ℕ → Db → Db
unfolding delete log
clean_each place [] now db = db
clean_each place (i ∷ is) now db = clean_each place is now (clean_at (place i) i now db)

abbrev pub rows_of : Result Cleanup → ℕ
rows_of (ok c) = c.removed
rows_of (err e) = 0

unfoldable pub cleanup_expired : (String → Place) → ℕ → ℕ → ℕ → Db → Cleaned
unfolding clean_each cleanup_logs expired
cleanup_expired place retention max_rows now db =
    let is = map (λ (j : Job). j.id) (expired now db) in
    let cleaned = clean_each place is now db in
    let (report, after) = cleanup_logs retention max_rows now cleaned in
    record { removed = count_inside place is; log_rows_removed = rows_of report; db = after }
