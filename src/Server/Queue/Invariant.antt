-- ===== src/Server/Queue/Invariant.antt =====
-- The invariant of the queue database (RotoWeaveServer/server/repository.py): its keys are unique, its
-- references point to jobs, and the events of each job are numbered from 0 without a gap.
pub mod Keys
pub mod Events
pub mod Proof
use mathlib.Core.List.{map}
use rotoweave.Base.{
  ℕ, zero, suc, String, ◌≡◌, Bool, true, false, List, [], ◌∷◌, str_eq, any_where, All, length, ◌≤◌,
  if◌then◌else◌,
}
use rotoweave.Base.Signed.{ℤ, pos, negsuc}
use rotoweave.Server.Queue.Schema.{Job, Event, Log, Db}
use rotoweave.Server.Queue.Statements.{by_id, log_parent_exists}

abbrev pub elem : String → List String → Bool
elem s xs = any_where (λ x. str_eq x s) xs

-- 0 ≤ progress ≤ 1
abbrev pub InUnit : ℤ → Type 0
InUnit (pos n) = n ≤ 1_000_000
InUnit (negsuc n) = ⊥

-- No text stands twice.
abbrev pub Distinct : List String → Type 0
Distinct [] = Unit
Distinct (x ∷ xs) = (elem x xs ≡ false) × Distinct xs

abbrev pub ids : List Job → List String
ids js = map (λ (j : Job). j.id) js

abbrev pub keys : List Job → List String
keys js = map (λ (j : Job). j.idempotency_key) js

-- The numbers of a job's events, in the order in which they were written.
abbrev pub sequences : String → List Event → List ℕ
sequences i [] = []
sequences i (e ∷ es) =
    let rest = sequences i es in if str_eq e.job_id i then e.sequence ∷ rest else rest

-- k, k + 1, …, k + n - 1
abbrev pub count_up : ℕ → ℕ → List ℕ
count_up k zero = []
count_up k (suc n) = k ∷ count_up (suc k) n

-- An event's payload is the event's own, with its progress between 0 and 1.
abbrev pub PayloadAgrees : Event → Type 0
PayloadAgrees e =
    (e.payload.job_id ≡ e.job_id) × (e.payload.sequence ≡ e.sequence) × (InUnit e.payload.progress)

pub record IsValid (db : Db) : Type 0 where
  pub distinct_ids : Distinct (ids db.jobs)
  pub distinct_keys : Distinct (keys db.jobs)
  pub event_parents : All (λ (e : Event). any_where (by_id e.job_id) db.jobs ≡ true) db.events
  pub log_parents : All (λ (l : Log). log_parent_exists l.job_id db.jobs ≡ true) db.logs
  pub numbered : (i : String) → sequences i db.events ≡ count_up 0 (length (sequences i db.events))
  pub payloads : All PayloadAgrees db.events
