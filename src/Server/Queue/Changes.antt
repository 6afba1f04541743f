-- ===== src/Server/Queue/Changes.antt =====
-- Every writing call of the queue (RotoWeaveServer/server/repository.py) is a chain of a few elementary
-- changes of the database, so that an invariant is proved once for each change.
pub mod Rules
use rotoweave.Base.{
  ℕ, String, ◌≡◌, Bool, false, true, Option, [], ◌∷◌, ◌++◌, any_where, drop, delete_where,
}
use rotoweave.Base.Signed.{ℤ}
use rotoweave.Server.Logging.{Fields}
use rotoweave.Server.Queue.Schema.{State, Job, OperationalLog, Control, Db}
use rotoweave.Server.Queue.Statements.{by_id, by_key, log_parent_exists}
use rotoweave.Server.Queue.Admin.{without_job}
use rotoweave.Server.Queue.Effects.{with_job, with_event, with_log, KeepsId}

abbrev pub KeepsKey : (Job → Job) → Type 0
KeepsKey f = (j : Job) → (f j).idempotency_key ≡ j.idempotency_key

pub data Change : Db → Db → Type 0 where
  keep : {a : Db} → Change a a
  chain : {a b c : Db} → Change a b → Change b c → Change a c
  update :
      {db : Db} (i : String) (f : Job → Job) → KeepsId f → KeepsKey f → Change db (with_job i f db)
  event :
      {db : Db} (i : String) (s : State) (p : ℤ) (stage message : Option String) (now : ℕ)
      → any_where (by_id i) db.jobs ≡ true
      → Change db (with_event i s p stage message now db)
  log :
      {db : Db} (i : Option String) (level name : String) (detail : Fields)
      (component : Option String) (now : ℕ)
      → log_parent_exists i db.jobs ≡ true
      → Change db (with_log i level name detail component now db)
  insert :
      {db : Db} (j : Job)
      → any_where (by_id j.id) db.jobs ≡ false
      → any_where (by_key j.idempotency_key) db.jobs ≡ false
      → Change db (record db { jobs = db.jobs ++ j ∷ [] })
  control : {db : Db} (c : Control) → Change db (record db { control = c })
  delete : {db : Db} (i : String) → Change db (without_job i db)
  prune :
      {db : Db} (n : ℕ) (old : OperationalLog → Bool)
      → Change db (record db { operational_logs = drop n (delete_where old db.operational_logs) })
