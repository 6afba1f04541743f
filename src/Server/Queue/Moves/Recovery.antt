-- ===== src/Server/Queue/Moves/Recovery.antt =====
-- `recover` requeues each running job once (RotoWeaveServer/server/repository.py).
use rotoweave.Base.{
  ℕ, String, ◌≡◌, refl, sym, ap, ◌∙◌, true, false, none, some, List, [], ◌∷◌, str_eq, eq_iff,
  any_where, Bool-cases, inl, inr, if◌then◌else◌, All,
}
use rotoweave.Base.Signed.{pos}
use rotoweave.Server.Logging.{end}
use rotoweave.Server.Queue.Schema.{queued, Db}
use rotoweave.Server.Queue.Statements.{ok, by_id, job_of, update_job}
use rotoweave.Server.Queue.Dispatch.{recover_row, recover_each}
use rotoweave.Server.Queue.Effects.{
  with_job, with_event, with_log, append_event_lem, append_log_lem, any-update, job_of-with_job,
  map_option, KeepsId,
}
use rotoweave.Server.Queue.Invariant.{Distinct, elem}

-- The database after one round of the loop.
abbrev requeue : String → ℕ → Db → Db
requeue i now db = with_log (some i) "warning" "job.recovered" end none now (
    with_event i queued (pos 0) (some "recovered") (some "Service restarted; job requeued.") now
      (with_job i (recover_row now) db))

abbrev pub requeue_all : List String → ℕ → Db → Db
requeue_all [] now db = db
requeue_all (i ∷ is) now db = requeue_all is now (requeue i now db)

recover_row-KeepsId : (now : ℕ) → KeepsId (recover_row now)
recover_row-KeepsId now j = refl

exists-requeue :
    (is : List String) (i : String) (now : ℕ) (db : Db)
    → All (λ k. any_where (by_id k) db.jobs ≡ true) is
    → All (λ k. any_where (by_id k) (requeue i now db).jobs ≡ true) is
exists-requeue [] i now db h = tt
exists-requeue (k ∷ is) i now db h = (
  any-update (recover_row now) (recover_row-KeepsId now) i k db.jobs ∙ h.0,
  exists-requeue is i now db h.1,
)

-- The loop does not raise.
pub recover_each_lem :
    (is : List String) (now : ℕ) (db : Db)
    → All (λ k. any_where (by_id k) db.jobs ≡ true) is
    → recover_each is now db ≡ ok (tt, requeue_all is now db)
unfolding recover_each update_job
recover_each_lem [] now db h = refl
recover_each_lem (i ∷ is) now db h =
    let there = any-update (recover_row now) (recover_row-KeepsId now) i i db.jobs ∙ h.0 in
    rw
      (
        append_event_lem i queued (pos 0) (some "recovered")
            (some "Service restarted; job requeued.") now (with_job i (recover_row now) db) there,
        append_log_lem (some i) "warning" "job.recovered" end none now
            (with_event i queued (pos 0) (some "recovered")
              (some "Service restarted; job requeued.") now (with_job i (recover_row now) db))
            there,
      )
      (recover_each_lem is now (requeue i now db) (exists-requeue is i now db h.1))

pub job_of-requeue_all :
    (is : List String) (now : ℕ) (db : Db) (k : String)
    → Distinct is
    → job_of k (requeue_all is now db)
      ≡ (if elem k is then map_option (recover_row now) (job_of k db) else job_of k db)
job_of-requeue_all [] now db k d = refl
job_of-requeue_all (i ∷ is) now db k d = elim (Bool-cases (str_eq i k)) [
  | inl e ↦
      let away : elem k is ≡ false = ap (λ x. elem x is) (sym ((eq_iff i k).0 e)) ∙ d.0 in
      rw (job_of-requeue_all is now (requeue i now db) k d.1, e, away)
        (job_of-with_job (recover_row now) (recover_row-KeepsId now) i k db ∙ rw e)
  | inr e ↦
      let stays : job_of k (requeue i now db) ≡ job_of k db =
        job_of-with_job (recover_row now) (recover_row-KeepsId now) i k db ∙ rw e in
      rw (job_of-requeue_all is now (requeue i now db) k d.1, e, stays)
]
