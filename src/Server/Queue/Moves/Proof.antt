-- ===== src/Server/Queue/Moves/Proof.antt =====
-- Each call of the queue moves each row by at most one step of its life.
use rotoweave.Base.{
  ℕ, String, ◌≡◌, refl, sym, ap, ◌∙◌, true, false, Option, none, some, List, [], ◌∷◌, arith, ◌⊎◌,
  str_eq, str_eq_refl, eq_iff, Bool-cases, Option-cases, inl, inr,
}
use rotoweave.Base.Signed.{ℤ}
use rotoweave.Server.Queue.Schema.{
  State, state_eq, queued, running, completed, failed, is_terminal, JobError, Job, Db,
}
use rotoweave.Server.Queue.Statements.{ok, job_of}
use rotoweave.Server.Queue.Dispatch.{claim_row, claim_next, recover, jobs_in_turn, halted}
use rotoweave.Server.Queue.Finish.{progress_row, progress, finish_row, finish, cancel_row, cancel}
use rotoweave.Server.Queue.Effects.{with_job, job_of-with_job, job_of-exists, KeepsId}
use rotoweave.Server.Queue.Outcomes.{
  progress-running, progress-other, finish-running, finish-other, cancel-live, cancel-terminal,
  claim_next-first, claim_row-id,
}
use rotoweave.Server.Queue.Invariant.{IsValid, ids, elem}
use rotoweave.Server.Queue.Turn.{state_eq→≡, jobs_in_turn-found, jobs_in_turn-Distinct, All-found}
use rotoweave.Server.Queue.Moves.{RowStep, same, claimed, reported, ended, dropped, requeued}
use rotoweave.Server.Queue.Moves.Recovery.{recover_each_lem, requeue_all, job_of-requeue_all}

-- Only the rows with the id are moved, by one step.
moved :
    (now : ℕ) (i k : String) (f : Job → Job)
    → KeepsId f
    → (db : Db) {j : Job} → job_of i db ≡ some j
    → RowStep now (some j) (some (f j))
    → RowStep now (job_of k db) (job_of k (with_job i f db))
moved now i k f keeps db found step = elim (Bool-cases (str_eq i k)) [
  | inl e ↦
      let at_k : job_of k db ≡ some _ = ap (λ x. job_of x db) (sym ((eq_iff i k).0 e)) ∙ found in
      rw (job_of-with_job f keeps i k db, e, at_k) step
  | inr e ↦ rw (job_of-with_job f keeps i k db, e) same
]

absent_or_found :
    (i : String) (db : Db) → (job_of i db ≡ none) ⊎ ((j : Job) × (job_of i db ≡ some j))
absent_or_found i db = Option-cases (job_of i db)

pub progress-RowStep :
    (i : String) (p : ℤ) (stage : String) (message : Option String) (now : ℕ) (db : Db) (k : String)
    → RowStep now (job_of k db) (job_of k (progress i p stage message now db).1)
progress-RowStep i p stage message now db k = elim (absent_or_found i db) [
  | inl e ↦ unfold progress in rw e same
  | inr (j, e) ↦ elim (Bool-cases (state_eq j.state running)) [
    | inl r ↦
        let live = state_eq→≡ j.state running r in
        rw (progress-running i db j e p stage message now live)
          (moved now i k (progress_row p stage now) (λ x. refl) db e (reported p stage live))
    | inr r ↦ rw (progress-other i db j e p stage message now r) same
  ]
]

pub finish-RowStep :
    (i : String) (s : State) (ttl : ℕ) (error : Option JobError) (path sha : Option String)
    (now : ℕ) (db : Db) (k : String)
    → (s ≡ completed) ⊎ (s ≡ failed)
    → RowStep now (job_of k db) (job_of k (finish i s ttl error path sha now db).1)
finish-RowStep i s ttl error path sha now db k which = elim (absent_or_found i db) [
  | inl e ↦ unfold finish in rw e same
  | inr (j, e) ↦ elim (Bool-cases (state_eq j.state running)) [
    | inl r ↦
        let live = state_eq→≡ j.state running r in
        rw (finish-running i db j e s ttl error path sha now live) (
          moved now i k (finish_row s error path sha ttl now) (λ x. refl) db e
            (ended s error path sha ttl which live))
    | inr r ↦ rw (finish-other i db j e s ttl error path sha now r) same
  ]
]

live_or_terminal : (s : State) → ((s ≡ queued) ⊎ (s ≡ running)) ⊎ (is_terminal s ≡ true)
unfolding is_terminal
live_or_terminal s = ground arith

pub cancel-RowStep :
    (i : String) (ttl now : ℕ) (db : Db) (k : String)
    → RowStep now (job_of k db) (job_of k (cancel i ttl now db).1)
cancel-RowStep i ttl now db k = elim (absent_or_found i db) [
  | inl e ↦ unfold cancel in rw e same
  | inr (j, e) ↦ elim (live_or_terminal j.state) [
    | inl live ↦
        rw (cancel-live i db j e ttl now live)
          (moved now i k (cancel_row ttl now) (λ x. refl) db e (dropped ttl live))
    | inr t ↦ rw (cancel-terminal i db j e ttl now t) same
  ]
]

pub recover-ok :
    (now : ℕ) (db : Db)
    → IsValid db
    → recover now db
      ≡ (ok (ids (jobs_in_turn running db)), requeue_all (ids (jobs_in_turn running db)) now db)
unfolding recover
recover-ok now db v = rw (
    recover_each_lem (ids (jobs_in_turn running db)) now db (
      All-found db.jobs (jobs_in_turn running db) (λ k h.
        let (j, f, r) = jobs_in_turn-found running k db v.distinct_ids h in job_of-exists k db f)))

pub recover-RowStep :
    (now : ℕ) (db : Db) (k : String)
    → IsValid db
    → RowStep now (job_of k db) (job_of k (recover now db).1)
recover-RowStep now db k v =
    let is = ids (jobs_in_turn running db) in
    let d = jobs_in_turn-Distinct running db v.distinct_ids in
    rw (recover-ok now db v, job_of-requeue_all is now db k d)
      (elim (Bool-cases (elem k is)) [
        | inl e ↦
            let (j, f, r) = jobs_in_turn-found running k db v.distinct_ids e in
            rw (e, f) (requeued r)
        | inr e ↦ rw e same
      ])

pub claim_next-RowStep :
    (now : ℕ) (db : Db) (k : String)
    → IsValid db
    → RowStep now (job_of k db) (job_of k (claim_next now db).1)
claim_next-RowStep now db k v = elim (Bool-cases (halted db.control)) [
  | inl h ↦ unfold claim_next in rw h same
  | inr h ↦ go (jobs_in_turn queued db) refl h
]
  where
    go :
        (js : List Job)
        → jobs_in_turn queued db ≡ js
        → halted db.control ≡ false
        → RowStep now (job_of k db) (job_of k (claim_next now db).1)
    go [] w h = unfold claim_next in rw (h, w) same
    go (j ∷ js) w h =
        let shown : elem j.id (ids (jobs_in_turn queued db)) ≡ true =
          rw (w, str_eq_refl j.id) refl in
        let (row, found, q) = jobs_in_turn-found queued j.id db v.distinct_ids shown in
        rw (claim_next-first db j js now h w (job_of-exists j.id db found))
          (moved now j.id k (claim_row now) (claim_row-id now) db found (claimed q))
