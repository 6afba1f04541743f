-- ===== src/Server/Queue/Audit.antt =====
-- No log row of the queue (RotoWeaveServer/server/repository.py) shows a secret in its details.
use rotoweave.Base.{ℕ, zero, suc, Bool, List, [], ◌∷◌, All, delete_where, drop}
use rotoweave.Server.Logging.Redaction.{IsCleanFields, redact_fields-IsClean}
use rotoweave.Server.Queue.Schema.{Log, OperationalLog, Db}
use rotoweave.Server.Queue.Statements.{enrich}
use rotoweave.Server.Queue.Calls.{Call, apply, run}
use rotoweave.Server.Queue.Changes.{
  Change, keep, chain, update, event, log, insert, control, delete, prune,
}
use rotoweave.Server.Queue.Changes.Rules.{apply-Change}
use rotoweave.Server.Queue.Invariant.Proof.{All-snoc, All-delete, All-map}
use rotoweave.Server.Queue.Admin.{log_of}

pub record IsAudited (db : Db) : Type 0 where
  pub job_logs : All (λ (l : Log). IsCleanFields l.detail) db.logs
  pub operational : All (λ (l : OperationalLog). IsCleanFields l.detail) db.operational_logs

All-drop {ℓ} : {A : Type ℓ} (P : A → Type 0) (n : ℕ) (xs : List A) → All P xs → All P (drop n xs)
All-drop P zero xs h = h
All-drop P (suc n) [] h = tt
All-drop P (suc n) (x ∷ xs) h = All-drop P n xs h.1

All-kept {ℓ} :
    {A : Type ℓ} (P : A → Type 0) (p : A → Bool) (xs : List A)
    → All P xs
    → All P (delete_where p xs)
All-kept P p xs h = All-map _ P (λ a k. k.0) (delete_where p xs) (All-delete P p xs h)

Change-IsAudited : {a b : Db} → Change a b → IsAudited a → IsAudited b
Change-IsAudited keep h = h
Change-IsAudited (chain c d) h = Change-IsAudited d (Change-IsAudited c h)
Change-IsAudited (update i f k l) h = record { job_logs = h.job_logs; operational = h.operational }
Change-IsAudited (event i s p stage message now e) h = record {
  job_logs = h.job_logs;
  operational = h.operational;
}
Change-IsAudited (log {db} i level name detail component now e) h = record {
  job_logs = All-snoc _ _ _ h.job_logs (redact_fields-IsClean (enrich i detail db));
  operational = All-snoc _ _ _ h.operational (redact_fields-IsClean (enrich i detail db));
}
Change-IsAudited (insert j n k) h = record { job_logs = h.job_logs; operational = h.operational }
Change-IsAudited (control c) h = record { job_logs = h.job_logs; operational = h.operational }
Change-IsAudited (delete {db} i) h = record {
  job_logs = All-kept _ (log_of i) db.logs h.job_logs;
  operational = h.operational;
}
Change-IsAudited (prune {db} n old) h = record {
  job_logs = h.job_logs;
  operational = All-drop _ n _ (All-kept _ old db.operational_logs h.operational);
}

-- From a database whose log rows show no secret in their details, no history of calls, whatever the details
-- they log, writes a row that shows one there: a text with `-----begin` or `bearer ` in it, or a value
-- under a sensitive key.
pub run-IsAudited : (cs : List (ℕ × Call)) (db : Db) → IsAudited db → IsAudited (run cs db)
unfolding run
run-IsAudited [] db h = h
run-IsAudited ((now, c) ∷ cs) db h =
    run-IsAudited cs (apply c now db) (Change-IsAudited (apply-Change c now db) h)
