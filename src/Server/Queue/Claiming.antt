-- ===== src/Server/Queue/Claiming.antt =====
-- Which job `claim_next` hands out (RotoWeaveServer/server/repository.py).
use rotoweave.Base.{
  sym, ◌≢◌, ◌↔◌, ◌<◌, ◌≤◌, ◌==◌, leb, ltb, str_eq, ℕ, String, ◌≡◌, refl, ap, ◌∙◌, Bool, true, false,
  none, some, List, [], ◌∷◌, arith, any_where, Bool-cases, inl, inr, ◌⊎◌, All,
}
use rotoweave.Server.Queue.Schema.{state_eq, queued, running, Job, Db}
use rotoweave.Server.Queue.Statements.{ok, job_of}
use rotoweave.Server.Queue.Dispatch.{in_state, in_turn, jobs_in_turn, halted, claim_row, claim_next}
use rotoweave.Server.Queue.Effects.{job_of-with_job, job_of-exists, job_of-with_job_self}
use rotoweave.Server.Queue.Outcomes.{claim_next-first, claim_row-id}
use rotoweave.Server.Queue.Invariant.{IsValid}
use rotoweave.Base.Order.Laws.{IsSorted}
use rotoweave.Server.Queue.Turn.{
  jobs_in_turn-IsSorted, jobs_in_turn-rows, jobs_in_turn-at, jobs_in_turn-some, jobs_in_turn-state,
  state_eq_refl, state_eq→≡,
}

-- Whether some job waits.
abbrev pub some_queued : Db → Bool
some_queued db = any_where (in_state queued) db.jobs

-- `a` comes no later than `b` in the queue.
abbrev pub Precedes : Job → Job → Type 0
Precedes a b =
    (a.queue_order < b.queue_order)
    ⊎ ((a.queue_order ≡ b.queue_order) × (a.created_at ≤ b.created_at))

pub in_turn-Precedes : (a b : Job) → in_turn a b ≡ true → Precedes a b
unfolding in_turn
in_turn-Precedes a b e = elim (Bool-cases (a.queue_order == b.queue_order)) [
  | inl q ↦
      let r : leb a.created_at b.created_at ≡ true = rw q at e in
      inr (ground (arith, q), ground (arith, r))
  | inr q ↦ let r : ltb a.queue_order b.queue_order ≡ true = rw q at e in inl (ground (arith, r))
]

-- The queue is neither paused nor in maintenance.
abbrev pub IsOpen : Db → Type 0
IsOpen db = (db.control.paused ≡ false) × (db.control.maintenance ≡ false)

IsOpen-halted : (db : Db) → IsOpen db → halted db.control ≡ false
unfolding halted
IsOpen-halted db h = rw (h.0, h.1)

-- The row of a claimed job: it runs from `now`, and only the columns named here differ.
abbrev pub as_claimed : ℕ → Job → Job
as_claimed now j = record j {
  state = running;
  stage = some "starting";
  started_at = some now;
  updated_at = now;
}

-- `j` was queued and is claimed at time `now`, no queued job comes before it, and no other row changes.
abbrev pub IsClaimed : ℕ → Db → Job → Type 0
IsClaimed now db j =
    (job_of j.id db ≡ some j)
    × (j.state ≡ queued)
    × ((claim_next now db).0 ≡ ok (some (as_claimed now j)))
    × (job_of j.id (claim_next now db).1 ≡ some (as_claimed now j))
    × ((k : String) (q : Job) → job_of k db ≡ some q → q.state ≡ queued → Precedes j q)
    × ((k : String) → str_eq j.id k ≡ false → job_of k (claim_next now db).1 ≡ job_of k db)

claim_row-as_claimed : (now : ℕ) (j : Job) → j.state ≡ queued → claim_row now j ≡ as_claimed now j
unfolding state_eq
claim_row-as_claimed now j e = rw e

in_turn_refl : (j : Job) → in_turn j j ≡ true
unfolding in_turn
in_turn_refl j = ground arith

first-IsClaimed :
    (now : ℕ) (db : Db) (j : Job) (js : List Job)
    → IsValid db
    → halted db.control ≡ false
    → jobs_in_turn queued db ≡ j ∷ js
    → IsClaimed now db j
first-IsClaimed now db j js v h w =
    let rows : All (λ x. (job_of x.id db ≡ some x) × (x.state ≡ queued)) (j ∷ js) =
      rw w at (jobs_in_turn-rows queued db v.distinct_ids) in
    let order : IsSorted in_turn (j ∷ js) = rw w at (jobs_in_turn-IsSorted queued db) in
    let outcome = claim_next-first db j js now h w (job_of-exists j.id db rows.0.0) in
    let after = job_of-with_job_self (claim_row now) (claim_row-id now) j.id db rows.0.0 in
    let claimed = claim_row-as_claimed now j rows.0.1 in
    (
      rows.0.0,
      rows.0.1,
      ap (λ r. r.0) outcome ∙ rw (after, claimed),
      ap (λ r. job_of j.id r.1) outcome ∙ after ∙ ap some claimed,
      λ k q found waits. in_turn-Precedes j q (
          jobs_in_turn-at queued (λ x. in_turn j x ≡ true) k q db found waits
            (rw w (in_turn_refl j, order.0))),
      λ k apart.
          ap (λ r. job_of k r.1) outcome
          ∙ rw (job_of-with_job (claim_row now) (claim_row-id now) j.id k db, apart),
    )

-- In a valid database whose queue is neither paused nor in maintenance, where a job waits, `claim_next`
-- returns a job that was queued and now runs; no queued job comes before it in the order of queue_order
-- and created_at, and the row of every other job is left as it is.
pub claim_next-least :
    (now : ℕ) (db : Db)
    → IsValid db
    → IsOpen db
    → some_queued db ≡ true
    → (j : Job) × IsClaimed now db j
claim_next-least now db v h w = go (jobs_in_turn queued db) refl
  where
    go : (js : List Job) → jobs_in_turn queued db ≡ js → (j : Job) × IsClaimed now db j
    go [] e = let nothing : false ≡ true = rw e at (jobs_in_turn-some queued db ∙ w) in cc
    go (j ∷ js) e = (j, first-IsClaimed now db j js v (IsOpen-halted db h) e)

nothing_claimed :
    (now : ℕ) (db : Db)
    → (halted db.control ≡ true) ⊎ (some_queued db ≡ false)
    → claim_next now db ≡ (ok none, db)
nothing_claimed now db (inl h) = unfold claim_next in rw h
nothing_claimed now db (inr w) = elim (Bool-cases (halted db.control)) [
  | inl h ↦ unfold claim_next in rw h
  | inr h ↦ go (jobs_in_turn queued db) refl h
]
  where
    go :
        (js : List Job)
        → jobs_in_turn queued db ≡ js
        → halted db.control ≡ false
        → claim_next now db ≡ (ok none, db)
    go [] e h = unfold claim_next in rw (h, e)
    go (j ∷ js) e h =
        let states : All (λ (x : Job). Unit {0} × (x.state ≡ queued)) (j ∷ js) =
          rw e at (jobs_in_turn-state queued db) in
        let none_shown : any_where (in_state queued) (j ∷ js) ≡ false =
          rw e at (jobs_in_turn-some queued db ∙ w) in
        let waits : state_eq j.state queued ≡ true =
          ap (λ s. state_eq s queued) states.0.1 ∙ state_eq_refl queued in
        absurd (ground arith)

-- No job of the table waits.
abbrev pub NoneWaits : Db → Type 0
NoneWaits db = All (λ (j : Job). j.state ≢ queued) db.jobs

rows_busy :
    (js : List Job)
    → any_where (in_state queued) js ≡ false
    → All (λ (j : Job). j.state ≢ queued) js
rows_busy [] h = tt
rows_busy (j ∷ js) h = elim (Bool-cases (in_state queued j)) [
  | inl e ↦ let r : true ≡ false = rw e at h in cc
  | inr e ↦
      let r : any_where (in_state queued) js ≡ false = rw e at h in
      (
        (λ q.
            (let k : true ≡ false =
                sym (ap (λ s. state_eq s queued) q ∙ state_eq_refl queued) ∙ e in
              cc)),
        rows_busy js r,
      )
]

none_queued :
    (js : List Job)
    → All (λ (j : Job). j.state ≢ queued) js
    → any_where (in_state queued) js ≡ false
none_queued [] h = refl
none_queued (j ∷ js) h = elim (Bool-cases (in_state queued j)) [
  | inl e ↦ absurd (h.0 (state_eq→≡ j.state queued e))
  | inr e ↦ rw (e, none_queued js h.1)
]

-- When `claim_next` has nothing to hand out.
abbrev pub IsBarred : Db → Type 0
IsBarred db = (db.control.paused ≡ true) ⊎ (db.control.maintenance ≡ true) ⊎ NoneWaits db

pub claims_nothing : (now : ℕ) (db : Db) → IsBarred db → claim_next now db ≡ (ok none, db)
claims_nothing now db (inl h) = nothing_claimed now db (inl (unfold halted in rw h))
claims_nothing now db (inr (inl h)) =
    nothing_claimed now db (inl (unfold halted in ground (arith, h)))
claims_nothing now db (inr (inr h)) = nothing_claimed now db (inr (none_queued db.jobs h))

claim_next-IsBarred :
    (now : ℕ) (db : Db) → IsValid db → claim_next now db ≡ (ok none, db) → IsBarred db
claim_next-IsBarred now db v e = elim (Bool-cases db.control.paused) [
  | inl p ↦ inl p
  | inr p ↦ elim (Bool-cases db.control.maintenance) [
    | inl m ↦ inr (inl m)
    | inr m ↦ elim (Bool-cases (some_queued db)) [
      | inr n ↦ inr (inr (rows_busy db.jobs n))
      | inl w ↦
          let (j, c) = claim_next-least now db v (p, m) w in
          let clash : ok none ≡ ok (some (as_claimed now j)) = sym (ap (λ r. r.0) e) ∙ c.2 in cc
    ]
  ]
]

-- In a valid database, `claim_next` returns nothing and writes nothing just where the queue is paused or
-- in maintenance or no job of the table is queued.
pub claim_next-nothing :
    (now : ℕ) (db : Db) → IsValid db → (claim_next now db ≡ (ok none, db)) ↔ IsBarred db
claim_next-nothing now db v = (claim_next-IsBarred now db v, claims_nothing now db)
