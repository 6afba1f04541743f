-- ===== src/Server/Queue/Restart.antt =====
-- The queue after a restart of the server (`recover` in RotoWeaveServer/server/repository.py).
use rotoweave.Base.{
  ℕ, String, ◌≡◌, refl, sym, ◌∙◌, Bool, true, false, Option, none, some, List, [], ◌∷◌, All, ◌+◌,
  Bool-cases, inl, inr, if◌then◌else◌,
}
use rotoweave.Base.Signed.{pos}
use rotoweave.Base.Order.Laws.{IsSorted}
use rotoweave.Server.Queue.Claiming.{Precedes, in_turn-Precedes}
use rotoweave.Server.Queue.Schema.{state_eq, queued, running, Job, Db}
use rotoweave.Server.Queue.Statements.{ok, job_of}
use rotoweave.Server.Queue.Dispatch.{in_turn, recover_row, recover, jobs_in_turn}
use rotoweave.Server.Queue.Effects.{map_option}
use rotoweave.Server.Queue.Invariant.{IsValid, ids, elem, Distinct}
use rotoweave.Server.Queue.Turn.{
  jobs_in_turn-rows, jobs_in_turn-IsSorted, jobs_in_turn-found, jobs_in_turn-Distinct, state_eq→≡,
  jobs_in_turn-shows,
}
use rotoweave.Server.Queue.Moves.Recovery.{job_of-requeue_all}
use rotoweave.Server.Queue.Moves.Proof.{recover-ok}

-- The row of a job that was running: only the columns named here differ.
abbrev pub as_recovered : ℕ → Job → Job
as_recovered now j = record j {
  state = queued;
  stage = some "recovered";
  progress = pos 0;
  attempt = j.attempt + 1;
  started_at = none;
  updated_at = now;
}

-- A row after the restart.
abbrev pub restarted : ℕ → Job → Job
restarted now j = if state_eq j.state running then as_recovered now j else j

-- Each comes no later in the queue than those behind it.
abbrev pub InOrder : List Job → Type 0
InOrder [] = Unit
InOrder (j ∷ js) = All (Precedes j) js × InOrder js

-- The jobs in their order: the rows of the database that are running, each of them once.
abbrev pub AreRunning : Db → List Job → Type 0
AreRunning db js =
    All (λ j. (job_of j.id db ≡ some j) × (j.state ≡ running)) js
    × ((k : String) (j : Job) → job_of k db ≡ some j → j.state ≡ running → elem k (ids js) ≡ true)
    × Distinct (ids js)
    × InOrder js

in_turn-Precedes_each :
    (j : Job) (js : List Job) → All (λ x. in_turn j x ≡ true) js → All (Precedes j) js
in_turn-Precedes_each j [] h = tt
in_turn-Precedes_each j (x ∷ js) h = (in_turn-Precedes j x h.0, in_turn-Precedes_each j js h.1)

IsSorted-InOrder : (js : List Job) → IsSorted in_turn js → InOrder js
IsSorted-InOrder [] h = tt
IsSorted-InOrder (j ∷ js) h = (in_turn-Precedes_each j js h.0, IsSorted-InOrder js h.1)

running-AreRunning : (db : Db) → IsValid db → AreRunning db (jobs_in_turn running db)
running-AreRunning db v = (
  jobs_in_turn-rows running db v.distinct_ids,
  λ k j found r. jobs_in_turn-shows running k j db found r,
  jobs_in_turn-Distinct running db v.distinct_ids,
  IsSorted-InOrder (jobs_in_turn running db) (jobs_in_turn-IsSorted running db),
)

-- In a valid database `recover` does not raise: it returns the ids of just the jobs that were running, in
-- the order of queue_order and created_at; it puts each of them back into the state `queued`, at stage
-- `recovered`, with one attempt more, no progress and no start, and leaves the row of every other job.
pub recover_lem :
    (now : ℕ) (db : Db)
    → IsValid db
    → ((js : List Job) × AreRunning db js × ((recover now db).0 ≡ ok (ids js)))
      × ((k : String) → job_of k (recover now db).1 ≡ map_option (restarted now) (job_of k db))
recover_lem now db v = rw (recover-ok now db v) (
  (jobs_in_turn running db, running-AreRunning db v, refl),
  λ k.
      job_of-requeue_all is now db k (jobs_in_turn-Distinct running db v.distinct_ids)
      ∙ row k (elem k is) refl (job_of k db) refl,
)
  where
    is : List String
    is = ids (jobs_in_turn running db)

    row :
        (k : String) (b : Bool)
        → elem k is ≡ b
        → (o : Option Job) → job_of k db ≡ o
        → (if b then map_option (recover_row now) o else o) ≡ map_option (restarted now) o
    row k true e o f =
        let (j, found, r) = jobs_in_turn-found running k db v.distinct_ids e in
        let o≡j : o ≡ some j = sym f ∙ found in
        let is_running : state_eq j.state running ≡ true = rw r (unfold state_eq in refl) in
        rw (o≡j, is_running)
    row k false e none f = refl
    row k false e (some j) f = elim (Bool-cases (state_eq j.state running)) [
      | inr n ↦ rw n
      | inl r ↦
          let shown = jobs_in_turn-shows running k j db f (state_eq→≡ j.state running r) in
          let clash : false ≡ true = sym e ∙ shown in cc
    ]
